-- ===== src/Controller/Run/Works.antt =====
-- pkg/controller/hawtio: a cluster on which the requests of a reconciliation succeed, and its steps.
use hawtio_operator.Base.{ℕ, String, ◌<>◌, true, false, ◌≡◌, refl, Option, none, some}
use hawtio_operator.Base.{◌==◌, if◌then◌else◌}
use hawtio_operator.Base.Errors.{Error, Result, ok, err, is_not_found}
use hawtio_operator.Base.Act.{Act}
use hawtio_operator.Base.Succeeds.{SucceedsIn, Succeeds, IsOk}
use hawtio_operator.Kube.{Time, Key, Secret, ConfigMap, ServiceAccount}
use hawtio_operator.Kube.Workload.{Deployment}
use hawtio_operator.Kube.Network.{Service, Ingress}
use hawtio_operator.Api.{Hawtio}
use hawtio_operator.Util.File.{load_config_from_file}
use hawtio_operator.Resources.Config.{hawtio_default_config_path, new_default_config_map}
use hawtio_operator.Resources.Config.Merge.{Json}
use hawtio_operator.Resources.Config.Written.{document}
use hawtio_operator.Resources.Deployment.{new_deployment, new_default_deployment}
use hawtio_operator.Resources.Service.{
  new_service, new_default_service, new_default_service_account,
}
use hawtio_operator.Resources.Ingress.{new_ingress, new_default_ingress}
use hawtio_operator.Controller.Crypto.{itself, PrivateKey}
use hawtio_operator.Controller.Issue.{certificate_secret}
use hawtio_operator.Controller.Certificate.{
  certificate_common_name, expiration_date, new_self_certificate_secret, transplanted,
}
use hawtio_operator.Controller.Cluster.{Client, Reconciler}
use hawtio_operator.Controller.Lifecycle.{is_labelled}
use hawtio_operator.Controller.Defaults.{DeploymentConfiguration, stripped, hydrate_defaults}
use hawtio_operator.Controller.Reconcile.Config.{
  create_or_adopt, config_map_mutated, service_account_mutated,
}
use hawtio_operator.Controller.Reconcile.Network.{service_mutated, ingress_mutated}
use hawtio_operator.Controller.Reconcile.Deployment.{digests_or_wait, deployment_mutated}

-- The cluster takes the one object of a kind that a reconciliation writes: what it finds under the object's name
-- is the resource's own or a new object, which the resource may own, and a CreateOrUpdate of it by one of
-- the operator's own changes succeeds where the change does.
pub record Accepts {W A : Type 0} (c : Client W A) (hawtio : Hawtio) (default : A)
    (IsChange : (A → Act W A) → Type 0) : Type 1 where
  pub IsOurs : A → Type 0
  pub owns : (a : A) → IsOurs a → IsOk (c.set_controller_reference hawtio a)
  pub creates_or_updates :
      (f : A → Act W A)
      → IsChange f
      → ((a : A) → IsOurs a → Succeeds (f a))
      → Succeeds (c.create_or_update default f)

-- The server admits a dry run of each blueprint, under its temporary name.
abbrev pub DryRuns : {W A : Type 0} → Client W A → Act W String → (A → Type 0) → Type 0
DryRuns {W} {A} c suffix IsBlueprint =
    (s : String) (b : A) → IsBlueprint b → Succeeds (c.dry_run (stripped c suffix s b))

module _ {W A : Type 0} (c : Client W A) where
  pub create_or_adopt-Succeeds :
      (hawtio : Hawtio) (default : A) (IsChange : (A → Act W A) → Type 0)
      (accepts : Accepts c hawtio default IsChange) (f : A → Act W A)
      → IsChange f
      → ((a : A) → accepts.IsOurs a → Succeeds (f a))
      → Succeeds (create_or_adopt c default f)
  unfolding create_or_adopt
  create_or_adopt-Succeeds hawtio default IsChange accepts f change h w =
      let (a, v, e, _) = accepts.creates_or_updates f change h w in rw e (a, v, refl, tt)

  pub hydrate_defaults-Succeeds :
      (IsBlueprint : A → Type 0) (suffix : Act W String) (blueprint : A) (integrity : A → A → A)
      → DryRuns c suffix IsBlueprint
      → IsBlueprint blueprint
      → Succeeds suffix
      → Succeeds (hydrate_defaults c suffix blueprint integrity)
  unfolding hydrate_defaults
  hydrate_defaults-Succeeds IsBlueprint suffix blueprint integrity dry_runs fits h w =
      let (s, v, e, _) = h w in
      let (a, u, e', _) = dry_runs s blueprint fits v in
      rw (e, e') (integrity blueprint a, u, refl, tt)

-- In this world the poller, if there is one, has its baseline.
abbrev pub HasBaseline : {W : Type 0} → Option (Act W (String × String × Option Error)) → W → Type 0
HasBaseline none w = Unit
HasBaseline (some digests) w = SucceedsIn (λ answer. IsOk (digests_or_wait answer)) digests w

module _ {W V : Type 0} (r : Reconciler W V) (hawtio : Hawtio) where
  abbrev pub serving_key : Key
  serving_key = record {
    namespace = hawtio.metadata.namespace;
    name = hawtio.metadata.name <> "-tls-serving";
  }

  abbrev pub make : String → String → Act W Secret
  make = new_self_certificate_secret r hawtio

  -- What is found is labelled as the operator's and the resource's own; else it is missing.
  abbrev pub IsOwnOrMissing : (Secret → Type 0) → Result Secret → Type 0
  IsOwnOrMissing IsOurs (ok a) = (is_labelled r.secrets.object a ≡ true) × IsOurs a
  IsOwnOrMissing IsOurs (err e) = is_not_found e ≡ true

  -- The secret of the serving certificate: it is found or is missing; it can be created where it has just been
  -- found missing, with the certificate that was made then, and updated where it has just been found.
  pub record KeepsSecret : Type 1 where
    pub IsOurs : Secret → Type 0
    pub issued :
        (key : PrivateKey) (der : String)
        → IsOurs (certificate_secret r hawtio serving_key.name serving_key.namespace key der)
    pub owns :
        (a : Secret)
        → IsOurs a
        → (b : Secret) × (r.secrets.set_controller_reference hawtio a ≡ ok b) × IsOurs b
    pub reads :
        (w : W)
        → (found : Result Secret) × (v : W) × (r.secrets.read serving_key w ≡ (found, v))
          × IsOwnOrMissing IsOurs found
    pub creates :
        (w v u : W) (e : Error) (fresh owned : Secret)
        → r.secrets.read serving_key w ≡ (err e, v)
        → is_not_found e ≡ true
        → make serving_key.name serving_key.namespace v ≡ (ok fresh, u)
        → r.secrets.set_controller_reference hawtio fresh ≡ ok owned
        → SucceedsIn (λ stored. Unit {0}) (r.secrets.create owned) u
    pub updates :
        (w v x u : W) (secret fresh : Secret) (now : Time)
        → r.secrets.read serving_key w ≡ (ok secret, v)
        → r.now v ≡ (ok now, x)
        → make secret.metadata.name secret.metadata.namespace x ≡ (ok fresh, u)
        → SucceedsIn IsOurs (r.secrets.update (transplanted r secret fresh)) u

  -- The operator's changes of the objects, and the blueprints that it sends to dry runs.
  abbrev pub IsAccountChange : (ServiceAccount → Act W ServiceAccount) → Type 0
  IsAccountChange f = f ≡ service_account_mutated r hawtio

  abbrev pub IsConfigChange : (ConfigMap → Act W ConfigMap) → Type 0
  IsConfigChange f = f ≡ config_map_mutated r hawtio

  abbrev pub IsDeploymentChange : (Deployment → Act W Deployment) → Type 0
  IsDeploymentChange f =
      (config : DeploymentConfiguration) × (config_map : ConfigMap) × (online : String)
      × (gateway : String) × (f ≡ deployment_mutated r hawtio config config_map online gateway)

  abbrev pub IsServiceChange : (Service → Act W Service) → Type 0
  IsServiceChange f = f ≡ service_mutated r hawtio

  abbrev pub IsIngressChange : (Ingress → Act W Ingress) → Type 0
  IsIngressChange f = (config : DeploymentConfiguration) × (f ≡ ingress_mutated r hawtio config)

  abbrev pub IsDeploymentBlueprint : Deployment → Type 0
  IsDeploymentBlueprint d =
      (url : String) × (config_version : String) × (cert_version : String) × (new_deployment
          r.platform hawtio r.api_spec url config_version cert_version r.build_variables
        ≡ ok d)

  abbrev pub IsServiceBlueprint : Service → Type 0
  IsServiceBlueprint s = s ≡ new_service hawtio r.api_spec

  abbrev pub IsIngressBlueprint : Ingress → Type 0
  IsIngressBlueprint i = (secret : Option Secret) × (i ≡ new_ingress hawtio r.api_spec secret)

-- The constraint on versions that the build asks for.
abbrev pub constraint_text : String → String
constraint_text legacy = if legacy == "" then "< 1.7.0" else legacy

-- On Kubernetes, the requests of a reconciliation succeed, the libraries read and print the operator's own
-- texts, and the custom resource names no secrets of its own for the route.
pub record Works {W V : Type 0} (r : Reconciler W V) (hawtio : Hawtio) : Type 1 where
  pub on_kubernetes : r.api_spec.is_openshift4 ≡ false
  pub service_accounts :
      Accepts r.service_accounts hawtio
        (new_default_service_account hawtio)
        (IsAccountChange r hawtio)
  pub config_maps :
      Accepts r.config_maps hawtio (new_default_config_map hawtio) (IsConfigChange r hawtio)
  pub secrets : KeepsSecret r hawtio
  pub deployments :
      Accepts r.deployments hawtio (new_default_deployment hawtio) (IsDeploymentChange r hawtio)
  pub deployment_dry_runs :
      DryRuns r.deployments r.temporary_suffix (IsDeploymentBlueprint r hawtio)
  pub services : Accepts r.services hawtio (new_default_service hawtio) (IsServiceChange r hawtio)
  pub service_dry_runs : DryRuns r.services r.temporary_suffix (IsServiceBlueprint r hawtio)
  pub ingresses : Accepts r.ingresses hawtio (new_default_ingress hawtio) (IsIngressChange r hawtio)
  pub ingress_dry_runs : DryRuns r.ingresses r.temporary_suffix (IsIngressBlueprint r hawtio)
  pub suffixes : Succeeds r.temporary_suffix
  pub clock : Succeeds r.now
  pub serials : Succeeds r.crypto.serial_number
  pub keys : Succeeds r.crypto.generate_key
  pub signs :
      (serial : ℕ) (before now : Time) (key : PrivateKey)
      → Succeeds (
          r.crypto.create_certificate
            (record {
              serial_number = serial;
              common_name = certificate_common_name r hawtio;
              not_before = before;
              not_after = expiration_date r hawtio now;
            })
            itself
            key
            key)
  pub references : (name : String) → IsOk (r.redirect_reference name)
  pub defaults :
      (bytes : String) × (default : Json) × (load_config_from_file r.codec.files
          hawtio_default_config_path
        ≡ ok bytes)
      × (r.codec.decode bytes ≡ ok default)
      × IsOk (r.codec.marshal (document r.codec hawtio default))
  pub additional : IsOk (r.platform.selector_to_labels r.build_variables.additional_labels)
  pub constraint : IsOk (
      r.platform.semver.constraint
        (constraint_text r.build_variables.legacy_serving_certificate_mount_version))
  pub no_certificate : hawtio.spec.route.cert_secret ≡ ""
  pub no_authority : hawtio.spec.route.ca_cert.name ≡ ""
