-- ===== src/Manager/Build.antt =====
-- pkg/manager/manager.go: the manager, built from options.
use hawtio_operator.Base.{String, Option, none, some, List, [], ◌∷◌}
use hawtio_operator.Base.{◌==◌, if◌then◌else◌}
use hawtio_operator.Base.Errors.{Result, ok, err, message, wrap}
use hawtio_operator.Base.Act.{Act, pure, lift, catch, ◌>>=◌, ◌>>◌}
use hawtio_operator.Kube.{Key}
use hawtio_operator.Capabilities.{ApiServerSpec, api_capabilities}
use hawtio_operator.Util.Version.{BuildVariables}
use hawtio_operator.Manager.Cache.{create_cache_options}
use hawtio_operator.Manager.Poller.{Poller, PollerConfig, create_update_poller}
use hawtio_operator.Manager.Clients.{Libraries, Tools, configure_scheme, new_tools}
use hawtio_operator.Manager.Options.{MgrConfig, MgrOption, no_options, apply_options}

-- What `hawtio.Add` is given.
pub record Registration {W : Type 0} (lib : Libraries W) : Type 0 where
  pub mgr : lib.Mgr
  pub operator_pod : Key
  pub client_tools : Tools lib
  pub api_spec : ApiServerSpec
  pub build_variables : BuildVariables
  pub update_poller : Option (Poller lib.RemoteOption lib.Auth)

abbrev pub or_none : {A : Type 0} → Result (Option A) → Option A
or_none (ok a) = a
or_none (err e) = none

module _ {W : Type 0} (lib : Libraries W) where
  abbrev pub required : {A : Type 0} → Option A → String → Result A
  required none text = err (message text)
  required (some a) text = ok a

  abbrev pub scheme_of : MgrConfig lib → Result lib.Scheme
  scheme_of mc = elim mc.scheme [ some scheme ↦ ok scheme | none ↦ configure_scheme lib ]

  abbrev pub tools_of : MgrConfig lib → lib.RestConfig → Result (Tools lib)
  tools_of mc cfg = elim mc.client_tools [ some tools ↦ ok tools | none ↦ new_tools lib cfg ]

  abbrev pub pod_ns_of : MgrConfig lib → Result String
  pod_ns_of mc =
      if mc.operator_pod_ns == ""
      then err (message "The operator pod namespace must be specified")
      else ok mc.operator_pod_ns

  abbrev pub api_spec_of : Tools lib → Act W ApiServerSpec
  api_spec_of tools = do
    answers ← lib.discover tools.api_client tools.config_client
    lift (wrap "Cluster API capability discovery failed" (api_capabilities lib.semver answers))

  abbrev extra_options : Option lib.Transport → List lib.RemoteOption
  extra_options none = []
  extra_options (some transport) = lib.with_transport transport ∷ []

  -- The `PollerConfig` of a manager.
  abbrev pub poller_config : MgrConfig lib → lib.Mgr → PollerConfig W lib.RemoteOption lib.Auth
  poller_config mc mgr = record {
    read_secret = lib.read_secret mgr;
    add_poller = lib.add_poller mgr;
    namespace = mc.operator_pod_ns;
    build_vars = mc.build_variables;
    polling_interval = mc.update_polling_interval;
    extra_options = extra_options mc.registry_transport;
  }

  abbrev pub wrapped_error : {A : Type 0} → String → Act W A → Act W A
  wrapped_error text m = catch m λ answer. lift (wrap text answer)

  -- The poller of a manager; a failure only switches the updates off.
  unfoldable pub poller_or_none :
      MgrConfig lib → lib.Mgr → Act W (Option (Poller lib.RemoteOption lib.Auth))
  unfolding create_update_poller
  poller_or_none mc mgr =
      catch (create_update_poller lib.lookup_env lib.unmarshal_auths (poller_config mc mgr))
        λ p. pure (or_none p)

  abbrev pub construct :
      MgrConfig lib → lib.RestConfig → lib.Scheme → String → ApiServerSpec → Act W lib.Mgr
  construct mc cfg scheme pod_ns api = wrapped_error "unable to construct manager" (
      lib.make_manager cfg (record {
        scheme = scheme;
        cache = create_cache_options mc.watch_namespaces api;
        leader_election_namespace = pod_ns;
        metrics = mc.metrics;
      }))

  abbrev pub registration :
      MgrConfig lib
      → String
      → String
      → Tools lib
      → ApiServerSpec
      → lib.Mgr
      → Option (Poller lib.RemoteOption lib.Auth)
      → Registration lib
  registration mc pod_ns pod_name tools api mgr poller = record {
    mgr = mgr;
    operator_pod = record { name = pod_name; namespace = pod_ns };
    client_tools = tools;
    api_spec = api;
    build_variables = mc.build_variables;
    update_poller = poller;
  }

  abbrev pub registered :
      (Registration lib → Act W (Unit {0})) → lib.Mgr → Registration lib → Act W lib.Mgr
  registered add mgr reg = add reg >> pure mgr

  -- `New` with the options applied, where `add` is `hawtio.Add`.
  unfoldable pub new_with : (Registration lib → Act W (Unit {0})) → MgrConfig lib → Act W lib.Mgr
  unfolding configure_scheme new_tools poller_or_none create_cache_options api_capabilities
  new_with add mc = do
    cfg ← lift (required mc.rest_config "rest.Config must be provided in Options")
    scheme ← lift (scheme_of mc)
    pod_ns ← lift (pod_ns_of mc)
    tools ← lift (tools_of mc cfg)
    api ← api_spec_of tools
    pod_name ←
        lift (required (lib.lookup_env "POD_NAME") "POD_NAME environment variable is not set")
    mgr ← construct mc cfg scheme pod_ns api
    poller ← poller_or_none mc mgr
    registered add mgr (registration mc pod_ns pod_name tools api mgr poller)

  -- `New`
  unfoldable pub new_manager :
      (Registration lib → Act W (Unit {0})) → List (MgrOption lib) → Act W lib.Mgr
  unfolding new_with apply_options
  new_manager add options = new_with add (apply_options lib options (no_options lib))
