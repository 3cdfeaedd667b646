-- ===== src/Manager/Main.antt =====
-- cmd/manager/main.go: the operator's start. `Process` stands for the rest of what `main` uses.
use hawtio_operator.Base.{String, Option, none, some, [], ◌∷◌, Bool, true, false}
use hawtio_operator.Base.{if◌then◌else◌}
use hawtio_operator.Base.Int.{ℤ}
use hawtio_operator.Base.Errors.{Error, Result, ok, err}
use hawtio_operator.Base.Act.{Act, lift, catch, ◌>>=◌, ◌>>◌}
use hawtio_operator.Manager.Settings.{
  GoBuild, build_variables_of, get_watch_namespaces, get_update_interval, pod_namespace_env_var,
}
use hawtio_operator.Controller.Watches.{ControllerLibrary, add}
use hawtio_operator.Manager.Clients.{Libraries}
use hawtio_operator.Manager.Options.{
  with_rest_config, with_watch_namespaces, with_pod_namespace, with_build_variables,
  with_update_polling_interval,
}
use hawtio_operator.Manager.Build.{Registration, new_manager, required}

pub record Process {W : Type 0} (lib : Libraries W) : Type 0 where
  pub get_config : Act W lib.RestConfig
  pub parse_duration : String → Result ℤ
  -- `leader.Become`, and the error by which it says that the operator runs outside a cluster.
  pub become : String → Act W (Unit {0})
  pub is_no_namespace : Error → Bool
  pub start : lib.Mgr → Act W (Unit {0})
  pub build : GoBuild
  pub controller : lib.Mgr → ControllerLibrary W

abbrev is_set : {A : Type 0} → Option A → Bool
is_set none = false
is_set (some a) = true

module _ {W : Type 0} (lib : Libraries W) (process : Process lib) where
  -- `hawtio.Add`, with what `New` gives it.
  abbrev register : Registration lib → Act W (Unit {0})
  register reg =
      add (process.controller reg.mgr) reg.build_variables.product_name reg.api_spec
        (is_set reg.update_poller)

  abbrev elected : Result (Unit {0}) → Result (Unit {0})
  elected (ok u) = ok u
  elected (err e) = if process.is_no_namespace e then ok tt else err e

  -- `operatorRun`
  unfoldable pub operator_run : String → String → ℤ → lib.RestConfig → Act W (Unit {0})
  unfolding new_manager add build_variables_of
  operator_run watch_namespaces pod_namespace update_polling_interval cfg = do
    catch (process.become "hawtio-lock") λ answer. lift (elected answer)
    mgr ← new_manager lib register (
        with_rest_config lib cfg
        ∷ with_watch_namespaces lib watch_namespaces
        ∷ with_pod_namespace lib pod_namespace
        ∷ with_build_variables lib (build_variables_of process.build)
        ∷ with_update_polling_interval lib update_polling_interval
        ∷ [])
    process.start mgr

  -- `main`: an error is the exit with status 1.
  unfoldable pub main : Act W (Unit {0})
  unfolding operator_run get_watch_namespaces get_update_interval
  main = do
    cfg ← process.get_config
    pod_namespace ← lift (
        required lib (lib.lookup_env pod_namespace_env_var)
          "POD_NAMESPACE must be set for leader election")
    watch_namespaces ← lift (get_watch_namespaces lib.lookup_env)
    operator_run watch_namespaces pod_namespace
        (get_update_interval lib.lookup_env process.parse_duration) cfg
