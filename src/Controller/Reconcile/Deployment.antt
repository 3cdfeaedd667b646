-- ===== src/Controller/Reconcile/Deployment.antt =====
-- pkg/controller/hawtio/reconcile_deployment.go
pub mod Laws
pub mod Waits
pub mod Same
use hawtio_operator.Base.{
  ℕ, ◌*◌, String, ◌<>◌, Bool, true, false, not, ◌&&◌, ◌||◌, Option, none, some, List, [], ◌∷◌,
}
use hawtio_operator.Base.{◌==◌, if◌then◌else◌}
use hawtio_operator.Base.Dict.{Dict, insert, or_else}
use hawtio_operator.Base.Errors.{Error, requeue, Result, ok, err}
use hawtio_operator.Base.Act.{Act, pure, raise, lift, ◌>>=◌, ◌>>◌}
use hawtio_operator.Kube.{Secret, ConfigMap}
use hawtio_operator.Kube.Workload.{Container, Deployment, PodTemplateSpec}
use hawtio_operator.Api.{Hawtio}
use hawtio_operator.Util.Metadata.{merge_map}
use hawtio_operator.Resources.Deployment.{
  new_default_deployment, new_deployment, online_digest_annotation, gateway_digest_annotation,
}
use hawtio_operator.Controller.Cluster.{Client, Reconciler, OperationResult, second}
use hawtio_operator.Controller.Defaults.{DeploymentConfiguration, hydrate_defaults}
use hawtio_operator.Controller.Reconcile.Config.{create_or_adopt}

-- The digests as the reconciler takes them from the poller: empty where there is none, or where its last
-- check failed and nothing is known.
unfoldable pub digests_or_wait : String × String × Option Error → Result (String × String)
digests_or_wait (online, gateway, some e) = ok (online, gateway)
digests_or_wait (online, gateway, none) =
    if online == "" || gateway == ""
    then err (requeue "waiting for initial registry baseline" (2 * second))
    else ok (online, gateway)

-- The loop's step: the annotations and the container, for one container.
abbrev pub pin :
    String → String → String → String → String → Container → Dict String → Container × Dict String
pin name online_repository gateway_repository online gateway c annotations =
    let (c', annotations') : Container × Dict String =
      if c.name == name <> "-container"
      then (
        record c { image = online_repository <> "@" <> online },
        insert online_digest_annotation online annotations,
      )
      else (c, annotations) in
    if c.name == name <> "-gateway-container"
    then (
      record c' { image = gateway_repository <> "@" <> gateway },
      insert gateway_digest_annotation gateway annotations',
    )
    else (c', annotations')

-- The loop over the containers.
unfoldable pub pin_all :
    String
    → String
    → String
    → String
    → String
    → List Container
    → Dict String
    → List Container × Dict String
pin_all name online_repository gateway_repository online gateway [] annotations = ([], annotations)
pin_all name online_repository gateway_repository online gateway (c ∷ cs) annotations =
    let (c', annotations') =
      pin name online_repository gateway_repository online gateway c annotations in
    let (cs', annotations'') =
      pin_all name online_repository gateway_repository online gateway cs annotations' in
    (c' ∷ cs', annotations'')

abbrev pub with_template : PodTemplateSpec → Deployment → Deployment
with_template template d = record d { spec = record d.spec { template = template } }

-- `addImageDigests`, of a reconciler with a poller
unfoldable pub add_image_digests :
    String → String → Hawtio → Deployment → String → String → Deployment
unfolding pin_all
add_image_digests online_repository gateway_repository hawtio d online gateway =
    let template = d.spec.template in
    let (containers, annotations) =
      pin_all hawtio.metadata.name online_repository gateway_repository online gateway
        template.containers template.annotations in
    if online == "" || gateway == ""
    then d
    else with_template (record template { containers = containers; annotations = annotations }) d

abbrev containers_or : List Container → List Container → List Container
containers_or [] cs = cs
containers_or (c ∷ l) cs = c ∷ l

-- What the dry run may have stripped is put back.
unfoldable pub deployment_integrity : Deployment → Deployment → Deployment
deployment_integrity source hydrated =
    let template = hydrated.spec.template in
    record hydrated {
      spec = record hydrated.spec {
        selector = or_else hydrated.spec.selector source.spec.selector;
        template = record template {
          containers = containers_or template.containers source.spec.template.containers;
        };
      };
    }

module _ {W V : Type 0} (r : Reconciler W V) where
  abbrev pub digests : Act W (String × String)
  digests = elim r.update_poller [
    | none ↦ pure ("", "")
    | some request_digests ↦ request_digests >>= λ answer. lift (digests_or_wait answer)
  ]

  abbrev pub secret_version : Option Secret → String
  secret_version none = ""
  secret_version (some secret) = secret.metadata.resource_version

  abbrev pub pinned : Hawtio → Deployment → String → String → Deployment
  pinned hawtio d online gateway = elim r.update_poller [
    | none ↦ d
    | some _ ↦
        add_image_digests r.build_variables.image_repository
          r.build_variables.gateway_image_repository hawtio d online gateway
  ]

  unfoldable pub deployment_mutated :
      Hawtio → DeploymentConfiguration → ConfigMap → String → String → Deployment → Act W Deployment
  unfolding new_deployment hydrate_defaults deployment_integrity add_image_digests
  deployment_mutated hawtio config config_map online gateway live = do
    d ← lift (r.deployments.set_controller_reference hawtio live)
    blueprint ← lift (
        new_deployment r.platform hawtio r.api_spec config.openshift_console_url
          config_map.metadata.resource_version (secret_version config.client_cert_secret)
          r.build_variables)
    hydrated ← hydrate_defaults r.deployments r.temporary_suffix blueprint deployment_integrity
    let m = d.metadata
    let merged = record m {
      labels = merge_map m.labels blueprint.metadata.labels;
      annotations = merge_map m.annotations blueprint.metadata.annotations;
    }
    pure (pinned hawtio (record d { metadata = merged; spec = hydrated.spec }) online gateway)

  -- `reconcileDeployment`
  unfoldable pub reconcile_deployment :
      Hawtio → DeploymentConfiguration → ConfigMap → Act W (Deployment × OperationResult)
  unfolding digests_or_wait deployment_mutated create_or_adopt
  reconcile_deployment hawtio config config_map = do
    (online, gateway) ← digests
    create_or_adopt r.deployments (new_default_deployment hawtio)
        (deployment_mutated hawtio config config_map online gateway)
