-- ===== src/Controller/Watches.antt =====
-- pkg/controller/hawtio/hawtio_controller.go: `Add`, which tells the manager's controller what to watch, and
-- the tests that pick the events which ask for a call of `Reconcile`.
pub mod Laws
use hawtio_operator.Base.{
  String, Bool, true, false, not, ◌&&◌, ◌||◌, Option, none, some, List, [], ◌∷◌, ◌++◌, map,
}
use hawtio_operator.Base.{◌==◌, nat_eq, if◌then◌else◌}
use hawtio_operator.Base.Int.{ℤ, le_int}
use hawtio_operator.Base.Errors.{Error, Result, ok, err, wrap}
use hawtio_operator.Base.Act.{Act, pure, lift, catch, ◌>>=◌, ◌>>◌}
use hawtio_operator.Kube.{Key}
use hawtio_operator.Kube.Workload.{Deployment}
use hawtio_operator.Api.{Hawtio}
use hawtio_operator.Capabilities.{ApiServerSpec}
use hawtio_operator.Resources.ConsoleSample.{
  SampleLibrary, custom_resource_definition_exists, create_console_yaml_samples,
}
use hawtio_operator.Controller.Status.{same_int}

-- The update of a custom resource: its status is ignored.
unfoldable pub hawtio_update_wanted : Hawtio → Hawtio → Bool
hawtio_update_wanted old new = not (nat_eq old.metadata.generation new.metadata.generation)

-- The deletion of a custom resource, with `DeleteStateUnknown`.
unfoldable pub hawtio_delete_wanted : Bool → Bool
hawtio_delete_wanted state_unknown = not state_unknown

-- The update of a deployment.
unfoldable pub deployment_update_wanted : Deployment → Deployment → Bool
deployment_update_wanted old new =
    not (same_int old.status.replicas new.status.replicas)
    || not (same_int old.status.ready_replicas new.status.ready_replicas)
    || not (nat_eq old.metadata.generation new.metadata.generation)

abbrev key_of : Hawtio → Key
key_of h = record { name = h.metadata.name; namespace = h.metadata.namespace }

-- The calls that an event of the poller asks for, from the list of the custom resources.
unfoldable pub requests_of : Result (List Hawtio) → List Key
requests_of (ok hawtios) = map key_of hawtios
requests_of (err e) = []

-- What a controller watches: the objects of a kind, or the poller's channel.
pub data Watch : Type 0 where
  hawtio_watch config_map_watch route_watch ingress_watch deployment_watch secret_watch
        channel_watch :
      Watch

-- controller-runtime, as far as `Add` uses it, what the loading of the console's samples needs, and the kinds of
-- the resources of console.openshift.io/v1 that the server has.
pub record ControllerLibrary (W : Type 0) : Type 0 where
  pub lookup_env : String → Option String
  pub console_kinds : Result (List String)
  pub samples : SampleLibrary W
  pub new_controller : Bool → Act W (Unit {0})
  pub watch : Watch → Act W (Unit {0})

-- The watches, in their order, and the text that wraps the error of each.
unfoldable pub watches : ApiServerSpec → Bool → List (Watch × String)
watches api has_channel =
    (Watch.hawtio_watch, "Failed to create watch for Hawtio resource")
    ∷ (Watch.config_map_watch, "Failed to create watch for ConfigMap resource")
    ∷ (if api.routes
        then (Watch.route_watch, "Failed to create watch for Route resource")
        else (Watch.ingress_watch, "Failed to create watch for Ingress resource"))
    ∷ (Watch.deployment_watch, "Failed to create watch for Deployment resource")
    ∷ (Watch.secret_watch, "Failed to create watch for Secret resource")
    ∷ (if has_channel then (Watch.channel_watch, "Failed to create watch for updater") ∷ [] else [])

module _ {W : Type 0} (library : ControllerLibrary W) where
  add_watches : List (Watch × String) → Act W (Unit {0})
  add_watches [] = pure tt
  add_watches ((kind, text) ∷ rest) =
      (catch (library.watch kind) λ answer. lift (wrap text answer)) >> add_watches rest

  abbrev skip_validation : Bool
  skip_validation = elim (library.lookup_env "HAWTIO_UNDER_TEST") [
    | none ↦ false
    | some text ↦ text == "true"
  ]

  -- `ConsoleYAMLSampleExists`
  unfoldable pub console_yaml_sample_exists : Result (Unit {0})
  unfolding custom_resource_definition_exists
  console_yaml_sample_exists =
      custom_resource_definition_exists "console.openshift.io/v1, Kind=ConsoleYAMLSample"
        "ConsoleYAMLSample" library.console_kinds

  abbrev load_samples : String → Result (Unit {0}) → Act W (Unit {0})
  load_samples product_name (err e) w = (ok tt, w)
  load_samples product_name (ok u) w =
      (ok tt, create_console_yaml_samples library.samples product_name w)

  -- `Add`
  unfoldable pub add : String → ApiServerSpec → Bool → Act W (Unit {0})
  unfolding watches add_watches create_console_yaml_samples console_yaml_sample_exists
  add product_name api has_channel = do
    if api.is_openshift4 then load_samples product_name console_yaml_sample_exists else pure tt
    catch (library.new_controller skip_validation)
        λ answer. lift (wrap "Failed to create new controller" answer)
    add_watches (watches api has_channel)
