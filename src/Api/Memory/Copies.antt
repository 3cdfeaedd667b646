-- ===== src/Api/Memory/Copies.antt =====
-- pkg/apis/hawtio/v2/zz_generated.deepcopy.go: the deep copies of the custom resource.
use hawtio_operator.Base.{Option, none, some}
use hawtio_operator.Api.Memory.{Copying, pure, ◌>>=◌, copy_cell}
use hawtio_operator.Api.Memory.Stored.{
  Libraries, StoredAbout, StoredConfig, StoredAuth, StoredHealthCheckPeriods,
  StoredMetadataPropagation, StoredRbac, StoredRoute, StoredSpec, StoredHawtio,
}

-- `DeepCopy`, by the type's `DeepCopyInto`: nil is copied to nil.
unfoldable pub deep_copy : {X R : Type 0} → (R → Copying X R) → Option R → Copying X (Option R)
deep_copy into none s = (none, s)
deep_copy into (some r) s = (into r >>= λ out. pure (some out)) s

module _ {X : Type 0} where
  -- `HawtioAbout.DeepCopyInto`
  unfoldable pub copy_about : StoredAbout → Copying X StoredAbout
  unfolding copy_cell
  copy_about r = do
    product_infos ← copy_cell r.product_infos
    pure (record r { product_infos = product_infos })

  -- `HawtioConfig.DeepCopyInto`
  unfoldable pub copy_config : StoredConfig → Copying X StoredConfig
  unfolding copy_about
  copy_config r = do
    about ← copy_about r.about
    disabled_routes ← copy_cell r.disabled_routes
    pure (record r { about = about; disabled_routes = disabled_routes })

  -- `HawtioHealthCheckPeriods.DeepCopyInto`
  unfoldable pub copy_health_checks : StoredHealthCheckPeriods → Copying X StoredHealthCheckPeriods
  unfolding copy_cell
  copy_health_checks r = do
    online_readiness ← copy_cell r.online_readiness_period
    online_liveness ← copy_cell r.online_liveness_period
    gateway_readiness ← copy_cell r.gateway_readiness_period
    gateway_liveness ← copy_cell r.gateway_liveness_period
    pure (record {
      online_readiness_period = online_readiness;
      online_liveness_period = online_liveness;
      gateway_readiness_period = gateway_readiness;
      gateway_liveness_period = gateway_liveness;
    })

  -- `HawtioMetadataPropagation.DeepCopyInto`
  unfoldable pub copy_metadata_propagation :
      StoredMetadataPropagation → Copying X StoredMetadataPropagation
  unfolding copy_cell
  copy_metadata_propagation r = do
    annotations ← copy_cell r.annotations
    labels ← copy_cell r.labels
    pure (record { annotations = annotations; labels = labels })

  -- `HawtioRBAC.DeepCopyInto`
  unfoldable pub copy_rbac : StoredRbac → Copying X StoredRbac
  unfolding copy_cell
  copy_rbac r = do
    disable_rbac_registry ← copy_cell r.disable_rbac_registry
    pure (record r { disable_rbac_registry = disable_rbac_registry })

module _ {X M K T Q : Type 0} (libraries : Libraries X M K T Q) where
  -- `HawtioAuth.DeepCopyInto`
  unfoldable pub copy_auth : StoredAuth T → Copying X (StoredAuth T)
  unfolding copy_cell
  copy_auth r = do
    internal_ssl ← copy_cell r.internal_ssl
    date ← libraries.times.copy r.client_cert_expiration_date
    pure (record r { internal_ssl = internal_ssl; client_cert_expiration_date = date })

  -- `HawtioRoute.DeepCopyInto`
  unfoldable pub copy_route : StoredRoute K → Copying X (StoredRoute K)
  copy_route r = do ca_cert ← libraries.keys.copy r.ca_cert; pure (record r { ca_cert = ca_cert })

  -- `HawtioSpec.DeepCopyInto`
  unfoldable pub copy_spec : StoredSpec K T Q → Copying X (StoredSpec K T Q)
  unfolding copy_metadata_propagation copy_route copy_auth copy_rbac copy_config copy_health_checks
  copy_spec r = do
    replicas ← copy_cell r.replicas
    metadata_propagation ← copy_metadata_propagation r.metadata_propagation
    route ← copy_route r.route
    external_routes ← copy_cell r.external_routes
    auth ← copy_auth r.auth
    rbac ← copy_rbac r.rbac
    resources ← libraries.quantities.copy r.resources
    config ← copy_config r.config
    health_checks ← copy_health_checks r.health_checks
    pure (record r {
      replicas = replicas;
      metadata_propagation = metadata_propagation;
      route = route;
      external_routes = external_routes;
      auth = auth;
      rbac = rbac;
      resources = resources;
      config = config;
      health_checks = health_checks;
    })

  -- `Hawtio.DeepCopyInto`
  unfoldable pub copy_hawtio : StoredHawtio M K T Q → Copying X (StoredHawtio M K T Q)
  unfolding copy_spec
  copy_hawtio r = do
    metadata ← libraries.metas.copy r.metadata
    spec ← copy_spec r.spec
    pure (record r { metadata = metadata; spec = spec })
