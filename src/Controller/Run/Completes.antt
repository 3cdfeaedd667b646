-- ===== src/Controller/Run/Completes.antt =====
-- pkg/controller/hawtio/hawtio_controller.go: a call on a resource that is ready ends without an error on
-- a cluster that accepts its requests.
use hawtio_operator.Base.{String, false, ◌≡◌, some}
use hawtio_operator.Base.Errors.{ok}
use hawtio_operator.Base.Succeeds.{SucceedsIn}
use hawtio_operator.Kube.{Key, ConfigMap, ServiceAccount}
use hawtio_operator.Kube.Workload.{Deployment}
use hawtio_operator.Api.{Hawtio, HawtioStatus}
use hawtio_operator.Controller.Cluster.{Reconciler, Outcome, OperationResult}
use hawtio_operator.Controller.Defaults.{DeploymentConfiguration}
use hawtio_operator.Controller.Status.{Deployed, images, with_status}
use hawtio_operator.Controller.Run.{Progress, go_on}
use hawtio_operator.Controller.Run.Works.{Works, HasBaseline}
use hawtio_operator.Controller.Reconcile.Config.{reconcile_service_account, reconcile_config_map}
use hawtio_operator.Controller.Defaults.{init_deployment_configuration}

-- A deployment with its two containers and a selector that can be printed.
abbrev pub IsDeployed : {W V : Type 0} → Reconciler W V → Deployment → Type 0
IsDeployed r d =
    (pair : String × String) × (text : String) × (images d.spec.template.containers ≡ some pair)
    × (r.selector_text d.spec.selector ≡ ok text)

-- In this world the cluster answers with the deployment and then with the resource, and takes a new status of the
-- resource that it has just answered with.
pub record Reports {W V : Type 0} (r : Reconciler W V) (key : Key) (w : W) : Type 0 where
  pub deployments : SucceedsIn (IsDeployed r) (r.deployments.get key) w
  pub hawtios :
      (d : Deployment) (v : W)
      → r.deployments.get key w ≡ (ok d, v)
      → SucceedsIn (λ h. Unit {0}) (r.hawtios.get key) v
  pub updates :
      (d : Deployment) (h : Hawtio) (status : HawtioStatus) (v u : W)
      → r.deployments.get key w ≡ (ok d, v)
      → r.hawtios.get key v ≡ (ok h, u)
      → SucceedsIn (λ a. Unit {0}) (r.status_update (with_status status h)) u

abbrev IsUnderWay : Progress Deployed → Type 0
IsUnderWay p = (d : Deployed) × (p ≡ go_on d)

-- No further call is asked for at once.
abbrev pub IsQuiet : Outcome → Type 0
IsQuiet outcome = outcome.requeue ≡ false

module _ {W V : Type 0} (r : Reconciler W V) (key : Key) where
  -- When the deployment's turn comes, in a call that deploys from this world, the poller has its baseline.
  abbrev pub HasBaselineInTime : Hawtio → W → Type 0
  HasBaselineInTime hawtio w =
      (account : ServiceAccount × OperationResult) (config : DeploymentConfiguration)
      (config_map : ConfigMap × OperationResult) (w1 w2 w3 : W)
      → reconcile_service_account r hawtio w ≡ (ok account, w1)
      → init_deployment_configuration r hawtio w1 ≡ (ok config, w2)
      → reconcile_config_map r hawtio w2 ≡ (ok config_map, w3)
      → HasBaseline r.update_poller w3
