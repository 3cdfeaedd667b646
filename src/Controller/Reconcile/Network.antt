-- ===== src/Controller/Reconcile/Network.antt =====
-- pkg/controller/hawtio/reconcile_network.go
pub mod Laws
use hawtio_operator.Base.{
  ℕ, String, Bool, true, false, not, ◌&&◌, ◌||◌, Option, none, some, List, [], ◌∷◌, map,
}
use hawtio_operator.Base.{◌==◌, if◌then◌else◌}
use hawtio_operator.Base.Dict.{Dict, text_at, or_else}
use hawtio_operator.Base.Errors.{Error, Result, ok, err, is_not_found}
use hawtio_operator.Base.Act.{Act, pure, raise, lift, catch, ◌>>=◌, ◌>>◌}
use hawtio_operator.Kube.{Key, ObjectMeta}
use hawtio_operator.Kube.Network.{
  Service, ServicePort, Route, RouteTarget, Ingress, IngressRule, IngressTls,
}
use hawtio_operator.Api.{Hawtio}
use hawtio_operator.Util.Metadata.{merge_map}
use hawtio_operator.Util.Text.{equal_fold}
use hawtio_operator.Resources.Service.{new_default_service, new_service}
use hawtio_operator.Resources.Route.{new_default_route, new_route, route_host_generated_annotation}
use hawtio_operator.Resources.Ingress.{new_default_ingress, new_ingress}
use hawtio_operator.Controller.Cluster.{Client, Reconciler, OperationResult, unchanged, updated}
use hawtio_operator.Controller.Defaults.{DeploymentConfiguration, hydrate_defaults}
use hawtio_operator.Controller.Reconcile.Config.{create_or_adopt}

-- The labels of the blueprint, and the annotations of the hydrated object, merged into the metadata.
abbrev pub merged_metadata : ObjectMeta → Dict String → Dict String → ObjectMeta
merged_metadata m labels annotations = record m {
  labels = merge_map m.labels labels;
  annotations = merge_map m.annotations annotations;
}

abbrev pub list_or : {A : Type 0} → List A → List A → List A
list_or [] l = l
list_or (a ∷ as') l = a ∷ as'

abbrev pub without_node_port : ServicePort → ServicePort
without_node_port port = record port { node_port = 0 }

-- What the dry run may have stripped is put back, and the addresses stay those of the live service.
unfoldable pub service_integrity : String → List String → Service → Service → Service
service_integrity old_ip old_ips source hydrated =
    let spec = hydrated.spec in
    record hydrated {
      spec = record spec {
        ports = map without_node_port (list_or spec.ports source.spec.ports);
        selector = list_or spec.selector source.spec.selector;
        cluster_ip = old_ip;
        cluster_ips = if old_ip == "" then [] else old_ips;
      };
    }

-- The host stays that of the live route where the custom resource sets none.
unfoldable pub route_integrity : String → Route → Route → Route
route_integrity existing_host source hydrated =
    let spec = hydrated.spec in
    let to = if spec.to.kind == "" || spec.to.name == "" then source.spec.to else spec.to in
    record hydrated {
      spec = record spec {
        to = to;
        port = or_else spec.port source.spec.port;
        tls = or_else spec.tls source.spec.tls;
        host = if source.spec.host == "" then existing_host else spec.host;
      };
    }

unfoldable pub ingress_integrity : Ingress → Ingress → Ingress
ingress_integrity source hydrated =
    let spec = hydrated.spec in
    record hydrated {
      spec = record spec {
        rules = list_or spec.rules source.spec.rules;
        tls = list_or spec.tls source.spec.tls;
      };
    }

module _ {W V : Type 0} (r : Reconciler W V) where
  unfoldable pub service_mutated : Hawtio → Service → Act W Service
  unfolding new_service hydrate_defaults service_integrity
  service_mutated hawtio live = do
    s ← lift (r.services.set_controller_reference hawtio live)
    let blueprint = new_service hawtio r.api_spec
    hydrated ←
        hydrate_defaults r.services r.temporary_suffix blueprint
          (service_integrity live.spec.cluster_ip live.spec.cluster_ips)
    pure (record s {
      metadata = merged_metadata s.metadata blueprint.metadata.labels hydrated.metadata.annotations;
      spec = hydrated.spec;
    })

  -- `reconcileService`
  unfoldable pub reconcile_service : Hawtio → Act W (Service × OperationResult)
  unfolding service_mutated create_or_adopt
  reconcile_service hawtio =
      create_or_adopt r.services (new_default_service hawtio) (service_mutated hawtio)

  unfoldable pub route_mutated : Hawtio → DeploymentConfiguration → Route → Act W Route
  unfolding new_route hydrate_defaults route_integrity
  route_mutated hawtio config live = do
    s ← lift (r.routes.set_controller_reference hawtio live)
    let blueprint = new_route hawtio config.tls_route_secret config.ca_cert_route_secret
    hydrated ←
        hydrate_defaults r.routes r.temporary_suffix blueprint (route_integrity live.spec.host)
    pure (record s {
      metadata = merged_metadata s.metadata blueprint.metadata.labels hydrated.metadata.annotations;
      spec = hydrated.spec;
    })

  abbrev wrapped_route : Route × OperationResult → Option Route × OperationResult
  wrapped_route (route, done) = (some route, done)

  abbrev update_route : Hawtio → DeploymentConfiguration → Act W (Option Route × OperationResult)
  update_route hawtio config =
      create_or_adopt r.routes (new_default_route hawtio) (route_mutated hawtio config) >>= λ done.
      pure (wrapped_route done)

  abbrev is_generated : Route → Bool
  is_generated route =
      equal_fold (text_at route_host_generated_annotation route.metadata.annotations) "true"

  abbrev regenerate_or_update :
      Hawtio → DeploymentConfiguration → Result Route → Act W (Option Route × OperationResult)
  regenerate_or_update hawtio config (err e) =
      if is_not_found e then update_route hawtio config else raise e
  regenerate_or_update hawtio config (ok existing) =
      if hawtio.spec.route_host_name == "" && not (is_generated existing)
      then (r.routes.delete existing >> pure (none, updated))
      else update_route hawtio config

  -- `reconcileRoute`: a route that was deleted for its regeneration is `none` with `updated`.
  unfoldable pub reconcile_route :
      Hawtio → DeploymentConfiguration → Act W (Option Route × OperationResult)
  unfolding route_mutated create_or_adopt
  reconcile_route hawtio config =
      if not r.api_spec.is_openshift4 || not r.api_spec.routes
      then pure (none, unchanged)
      else catch
          (r.routes.get
            (record { namespace = hawtio.metadata.namespace; name = hawtio.metadata.name }))
          (regenerate_or_update hawtio config)

  unfoldable pub ingress_mutated : Hawtio → DeploymentConfiguration → Ingress → Act W Ingress
  unfolding new_ingress hydrate_defaults ingress_integrity
  ingress_mutated hawtio config live = do
    s ← lift (r.ingresses.set_controller_reference hawtio live)
    let blueprint = new_ingress hawtio r.api_spec config.serving_cert_secret
    hydrated ← hydrate_defaults r.ingresses r.temporary_suffix blueprint ingress_integrity
    pure (record s {
      metadata = merged_metadata s.metadata blueprint.metadata.labels hydrated.metadata.annotations;
      spec = hydrated.spec;
    })

  abbrev pub wrapped_ingress : Ingress × OperationResult → Option Ingress × OperationResult
  wrapped_ingress (ingress, done) = (some ingress, done)

  -- `reconcileIngress`
  unfoldable pub reconcile_ingress :
      Hawtio → DeploymentConfiguration → Act W (Option Ingress × OperationResult)
  unfolding ingress_mutated create_or_adopt
  reconcile_ingress hawtio config =
      if r.api_spec.is_openshift4 && r.api_spec.routes
      then pure (none, unchanged)
      else (create_or_adopt r.ingresses (new_default_ingress hawtio) (ingress_mutated hawtio config)
          >>= λ done. pure (wrapped_ingress done))
