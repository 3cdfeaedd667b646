-- ===== src/Controller/Cluster.antt =====
-- The clients through which the reconciler meets the cluster, and the fields of `ReconcileHawtio`
-- (pkg/controller/hawtio/hawtio_controller.go). The clients are of other projects (controller-runtime,
-- client-go): they are parameters. So are the cryptography and the clock.
use hawtio_operator.Base.{ℕ, String, ◌<>◌, Bool, Option}
use hawtio_operator.Base.Int.{ℤ, pos}
use hawtio_operator.Base.Dict.{Dict}
use hawtio_operator.Base.Errors.{Error, Result}
use hawtio_operator.Base.Act.{Act}
use hawtio_operator.Kube.{Time, Key, Object, ConfigMap, Secret, ServiceAccount, OauthClient}
use hawtio_operator.Kube.Workload.{Deployment}
use hawtio_operator.Kube.Network.{Service, Route, Ingress, ConsoleLink}
use hawtio_operator.Api.{Hawtio}
use hawtio_operator.Capabilities.{ApiServerSpec}
use hawtio_operator.Util.Version.{BuildVariables}
use hawtio_operator.Resources.Deployment.{Platform}
use hawtio_operator.Resources.Config.{Codec}
use hawtio_operator.Controller.Crypto.{Crypto}

-- `controllerutil.OperationResult`
pub data OperationResult : Type 0 where
  unchanged created updated : OperationResult

-- The operations on one kind of object. `get` reads through the cache, which holds the objects that
-- carry the operator's label; `read` goes to the server (`apiReader`, and the clients of `coreClient`).
-- `patch previous wanted` sends the difference. A write returns the object as the server then has it.
pub record Client (W A : Type 0) : Type 0 where
  pub object : Object A
  pub get : Key → Act W A
  pub read : Key → Act W A
  pub create : A → Act W A
  pub dry_run : A → Act W A
  pub update : A → Act W A
  pub patch : A → A → Act W A
  pub delete : A → Act W (Unit {0})
  pub create_or_update : A → (A → Act W A) → Act W (A × OperationResult)
  pub set_controller_reference : Hawtio → A → Result A

pub record Reconciler (W V : Type 0) : Type 0 where
  pub hawtios : Client W Hawtio
  pub status_patch : Hawtio → Hawtio → Act W Hawtio
  pub status_update : Hawtio → Act W Hawtio
  pub config_maps : Client W ConfigMap
  pub secrets : Client W Secret
  pub service_accounts : Client W ServiceAccount
  pub deployments : Client W Deployment
  pub services : Client W Service
  pub routes : Client W Route
  pub ingresses : Client W Ingress
  pub oauth_clients : Client W OauthClient
  pub console_links : Client W ConsoleLink
  pub now : Act W Time
  pub temporary_suffix : Act W String
  pub crypto : Crypto W
  pub add_year : Time → Time
  pub under_test : Bool
  pub api_spec : ApiServerSpec
  pub build_variables : BuildVariables
  -- `RequestDigests` of the poller, if there is one.
  pub update_poller : Option (Act W (String × String × Option Error))
  pub platform : Platform V
  pub codec : Codec
  pub redirect_reference : String → Result String
  pub selector_text : Option (Dict String) → Result String

-- `reconcile.Result`
pub record Outcome : Type 0 where
  pub requeue : Bool
  pub requeue_after : ℤ

abbrev pub no_requeue : Outcome
no_requeue = record { requeue = Bool.false; requeue_after = pos 0 }

abbrev pub requeue_now : Outcome
requeue_now = record { requeue = Bool.true; requeue_after = pos 0 }

-- The name of the cluster-wide objects of a custom resource.
abbrev pub cluster_wide_name : Key → String
cluster_wide_name key = key.name <> "-" <> key.namespace

abbrev pub second : ℕ
second = 1000000000

abbrev pub hour : ℕ
hour = 3600000000000
