-- ===== src/Controller/Run.antt =====
-- pkg/controller/hawtio/hawtio_controller.go: `Reconcile`, in its phases.
pub mod Calls
pub mod Settles
pub mod Deletion
pub mod Ready
pub mod Works
pub mod Steps
pub mod Rollout
pub mod Issues
pub mod Completes
pub mod Soon
use hawtio_operator.Base.{
  ℕ, ◌*◌, String, Bool, true, false, not, ◌&&◌, ◌||◌, Option, none, some, List, [], ◌∷◌,
}
use hawtio_operator.Base.{◌==◌, if◌then◌else◌}
use hawtio_operator.Base.Int.{ℤ, pos, lt_int, le_int}
use hawtio_operator.Base.Dict.{Dict}
use hawtio_operator.Base.Errors.{Error, Result, ok, err, is_not_found, formatted}
use hawtio_operator.Base.Act.{Act, pure, raise, lift, catch, ◌>>=◌, ◌>>◌}
use hawtio_operator.Kube.{Key, ConfigMap}
use hawtio_operator.Kube.Workload.{Container, Deployment}
use hawtio_operator.Kube.Network.{Route, Ingress}
use hawtio_operator.Api.{
  Hawtio, HawtioPhase, HawtioStatus, phase_initialized, phase_deployed, phase_failed,
}
use hawtio_operator.Resources.Route.{get_route_url}
use hawtio_operator.Resources.Ingress.{get_ingress_url}
use hawtio_operator.Controller.Cluster.{
  Client, Reconciler, OperationResult, unchanged, Outcome, no_requeue, requeue_now, second,
}
use hawtio_operator.Controller.Lifecycle.{
  fetch_hawtio, handle_deletion, add_finalizer, set_hawtio_phase, handle_error,
  is_deployment_failed,
}
use hawtio_operator.Controller.Defaults.{
  DeploymentConfiguration, verify_hawtio_spec_type, verify_rbac_config_map,
  init_deployment_configuration,
}
use hawtio_operator.Controller.Reconcile.Config.{reconcile_config_map, reconcile_service_account}
use hawtio_operator.Controller.Reconcile.Deployment.{reconcile_deployment}
use hawtio_operator.Controller.Reconcile.Network.{
  reconcile_service, reconcile_route, reconcile_ingress,
}
use hawtio_operator.Controller.Reconcile.Security.{reconcile_oauth_client}
use hawtio_operator.Controller.Reconcile.Console.{reconcile_console_link}
use hawtio_operator.Controller.Status.{
  Deployed, ingress_route_url, phase_of, images, url_of, new_status, same_int, same_status,
  with_status,
}

-- A phase of `Reconcile` ends the call with an outcome, or goes on with a value.
pub data Progress (A : Type 0) : Type 0 where
  stop : Outcome → Progress A
  go_on : A → Progress A

abbrev pub poll_rbac : Outcome
poll_rbac = record { requeue = true; requeue_after = pos (5 * second) }

-- The outcome of a call that has brought everything up to date.
abbrev pub final_outcome : ℤ → Outcome
final_outcome after = record {
  requeue = false;
  requeue_after = if lt_int (pos 0) after then after else pos 0;
}

-- Out of range, Go panics.
abbrev pub or_out_of_range : Option (String × String) → Result (String × String)
or_out_of_range none = err (Error.message "index out of range")
or_out_of_range (some pair) = ok pair

abbrev pub or_unparsed : Result String → Result String
or_unparsed (ok text) = ok text
or_unparsed (err e) = err (formatted "failed to parse selector" e)

module _ {W V : Type 0} (r : Reconciler W V) where
  abbrev pub checked_rbac : Result Bool → Result (Option Outcome)
  checked_rbac (err e) = if is_not_found e then ok (some poll_rbac) else err e
  checked_rbac (ok valid) = if valid then ok none else ok (some poll_rbac)

  abbrev pub unless : {A : Type 0} → Option Outcome → Act W (Progress A) → Act W (Progress A)
  unless (some outcome) m = pure (stop outcome)
  unless none m = m

  -- `PHASE 3`: the type, the config map of the roles, and the first phase of the status.
  unfoldable pub initialize : Hawtio → Key → Act W (Progress Hawtio)
  unfolding verify_hawtio_spec_type verify_rbac_config_map set_hawtio_phase
  initialize hawtio key = do
    updated ← verify_hawtio_spec_type r hawtio
    unless (if updated then some requeue_now else none) (do
      wait ← catch (verify_rbac_config_map r hawtio key) λ valid. lift (checked_rbac valid)
      unless wait (
          if hawtio.status.phase == "" || hawtio.status.phase == phase_failed
          then (set_hawtio_phase r hawtio phase_initialized >> pure (stop requeue_now))
          else pure (go_on hawtio)))

  -- The phases before, for a resource that was found.
  unfoldable pub prepare : Hawtio → Key → Act W (Progress Hawtio)
  unfolding handle_deletion add_finalizer initialize
  prepare hawtio key = do
    deleted ← handle_deletion r hawtio key
    unless (if deleted then some no_requeue else none) (do
      updated ← add_finalizer r hawtio
      unless (if updated then some requeue_now else none) (initialize hawtio key))

  abbrev pub prepare_found : Option Hawtio → Key → Act W (Progress Hawtio)
  prepare_found none key = pure (stop no_requeue)
  prepare_found (some hawtio) key = prepare hawtio key

  -- `PHASE 1` to `PHASE 3`
  unfoldable pub set_up : Key → Act W (Progress Hawtio)
  unfolding fetch_hawtio prepare
  set_up key = do found ← fetch_hawtio r key; prepare_found found key

  -- A route that was deleted for its regeneration ends the call.
  abbrev was_deleted : Option Route → OperationResult → Bool
  was_deleted none unchanged = false
  was_deleted none _ = true
  was_deleted (some route) _ = false

  abbrev finish_network :
      Hawtio → Key → DeploymentConfiguration → ConfigMap → Option Route → Act W (Progress Deployed)
  finish_network hawtio key config config_map route = do
    (ingress, _) ← reconcile_ingress r hawtio config
    let url = ingress_route_url route ingress
    reconcile_oauth_client r hawtio url key
    reconcile_console_link r hawtio key config_map route
    pure (go_on (record { config = config; route = route; ingress = ingress; url = url }))

  -- `PHASE 4`: the objects, in their order.
  unfoldable pub deploy : Hawtio → Key → Act W (Progress Deployed)
  unfolding reconcile_service_account init_deployment_configuration reconcile_config_map
      reconcile_deployment reconcile_service reconcile_route reconcile_ingress ingress_route_url
      reconcile_oauth_client reconcile_console_link
  deploy hawtio key = do
    reconcile_service_account r hawtio
    config ← init_deployment_configuration r hawtio
    (config_map, _) ← reconcile_config_map r hawtio
    reconcile_deployment r hawtio config config_map
    reconcile_service r hawtio
    (route, done) ← reconcile_route r hawtio config
    if was_deleted route done
        then pure (stop no_requeue)
        else finish_network hawtio key config config_map route

  -- The write of a status that has changed, and the outcome.
  abbrev pub write_status : HawtioStatus → Hawtio → ℤ → Act W Outcome
  write_status status hawtio after =
      if same_status hawtio.status status
      then pure (final_outcome after)
      else (r.status_update (with_status status hawtio) >> pure (final_outcome after))

  abbrev pub images_of : Deployment → Result (String × String)
  images_of deployment = or_out_of_range (images deployment.spec.template.containers)

  abbrev pub selector_of : Deployment → Result String
  selector_of deployment = or_unparsed (r.selector_text deployment.spec.selector)

  abbrev pub update_from : Deployed → Key → Result Deployment → Act W Outcome
  update_from d key (err e) = if is_not_found e then pure requeue_now else raise e
  update_from d key (ok deployment) = do
    hawtio ← r.hawtios.get key
    pair ← lift (images_of deployment)
    selector ← lift (selector_of deployment)
    write_status (new_status r.api_spec.routes d deployment pair selector hawtio.status) hawtio
        d.config.requeue_after

  -- `PHASE 5`
  unfoldable pub update_status : Deployed → Key → Act W Outcome
  unfolding new_status
  update_status d key = catch (r.deployments.get key) (update_from d key)

  -- An error of `PHASE 4` is handled by `handleResultAndError`.
  abbrev finished : Key → Result (Progress Deployed) → Act W Outcome
  finished key (err e) = lift (handle_error e)
  finished key (ok (stop outcome)) = pure outcome
  finished key (ok (go_on d)) = update_status d key

  abbrev continued : Key → Progress Hawtio → Act W Outcome
  continued key (stop outcome) = pure outcome
  continued key (go_on hawtio) = catch (deploy hawtio key) (finished key)

  -- `Reconcile`
  unfoldable pub reconcile : Key → Act W Outcome
  unfolding set_up deploy update_status handle_error
  reconcile key = do ready ← set_up key; continued key ready
