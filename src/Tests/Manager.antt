-- ===== src/Tests/Manager.antt =====
-- The theorems on the poller, and on the operator's start, at concrete inputs.
use hawtio_operator.Manager.Poller.{Poller, discover_registry_credentials, parse_keychain}
use hawtio_operator.Base.{String, ◌≡◌, refl, ◌∙◌, ap, Option, some, none, List, [], ◌∷◌, map, true}
use hawtio_operator.Base.{◌==◌, has, if◌then◌else◌}
use hawtio_operator.Base.Int.{ℤ, pos, negsuc}
use hawtio_operator.Base.Errors.{Result, ok, err, message, ok-injective}
use hawtio_operator.Base.Act.{Act}
use hawtio_operator.Capabilities.{Discovery}
use hawtio_operator.Updater.{Registry, Schedule, new_poller, tick, start}
use hawtio_operator.Updater.Laws.{AreSynchronized, AnswersDigests, Runs, start-AreSynchronized}
use hawtio_operator.Updater.Refine.{Agree, rounds, tick_refines}
use hawtio_operator.Util.Split.{join, is_space}
use hawtio_operator.Manager.Cache.{watched_namespaces}
use hawtio_operator.Manager.Cache.Namespaces.{
  Entry, print, names, is_watched, watched_namespaces-join,
}
use hawtio_operator.Manager.Settings.{get_update_interval}
use hawtio_operator.Manager.Clients.{Libraries}
use hawtio_operator.Manager.Options.{MgrConfig}
use hawtio_operator.Manager.Build.{Registration, new_with, poller_or_none}
use hawtio_operator.Manager.Registers.{new_with-registers}
use hawtio_operator.Manager.Interval.{schedule_of, negative_interval-panics}
use hawtio_operator.Tests.Samples.{distinct, variables, plain_semver}

-- A registry that answers with one digest.
abbrev registry : Registry (Unit {0}) String
registry = record { parse_reference = λ s. ok s; head = λ ref w. (ok "sha256:1", w) }

abbrev schedule : Schedule
schedule = record { interval = pos 60; online_image_url = "online"; gateway_image_url = "gateway" }

abbrev answers : AnswersDigests registry
answers = λ ref w d e h. distinct "sha256:1" "" refl (ok-injective e ∙ h)

start-AreSynchronized_example : Runs AreSynchronized (start registry 2 schedule new_poller tt)
start-AreSynchronized_example = start-AreSynchronized registry answers 2 60 schedule tt refl

-- A run of three ticks against a registry that answers.
tick_refines_example :
    Agree (tick registry 3 schedule new_poller 0 tt) (rounds registry 3 schedule none 0 tt)
tick_refines_example = tick_refines registry answers 3 schedule new_poller none 0 tt (refl, refl)

abbrev two_entries : List Entry
two_entries = record { before = " "; name = "team-b"; behind = "\n" } ∷ []

watched_namespaces-join_example :
    is_watched "team-b" (
      watched_namespaces (
        join "," (map print (record { before = ""; name = "team-a"; behind = " " } ∷ two_entries))))
    ≡ has (names (record { before = ""; name = "team-a"; behind = " " } ∷ two_entries)) "team-b"
unfolding is_space
watched_namespaces-join_example =
    watched_namespaces-join (record { before = ""; name = "team-a"; behind = " " }) two_entries
      "team-b"
      (
        (refl, distinct "team-a" "" refl, refl, refl, refl),
        ((refl, distinct "team-b" "" refl, refl, refl, refl), tt),
      )

-- A cluster without OpenShift.
abbrev kubernetes_answers : Discovery
kubernetes_answers = record {
  api_present = true;
  config_present = true;
  server_version = ok ("1", "31");
  server_resources = ok [];
  cluster_version = ok [];
}

abbrev environment : String → Option String
environment name =
    if name == "POD_NAME"
    then some "operator-1"
    else if name == "UPDATE_POLLING_INTERVAL"
    then some "-1h"
    else none

-- Libraries that do nothing, and always succeed.
abbrev plain_libraries : Libraries (Unit {0})
plain_libraries = record {
  RestConfig = Unit {0};
  Scheme = Unit {0};
  CoreClient = Unit {0};
  OauthClient = Unit {0};
  ConfigClient = Unit {0};
  ApiClient = Unit {0};
  Metrics = Unit {0};
  Transport = Unit {0};
  RemoteOption = Unit {0};
  Auth = Unit {0};
  Mgr = Unit {0};
  SemVersion = String;
  no_metrics = tt;
  new_scheme = tt;
  add_client_go = λ s. ok s;
  install_oauth = λ s. ok s;
  install_route = λ s. ok s;
  add_config = λ s. ok s;
  install_console = λ s. ok s;
  add_api_extensions = λ s. ok s;
  add_hawtio = λ s. ok s;
  new_api_client = λ c. ok tt;
  core_v1 = λ a. tt;
  new_config_client = λ c. ok tt;
  new_oauth_client = λ c. ok tt;
  discover = λ a c w. (ok kubernetes_answers, w);
  semver = plain_semver;
  lookup_env = environment;
  make_manager = λ c o w. (ok tt, w);
  with_transport = λ t. tt;
  read_secret = λ m k w. (err (message "no secret"), w);
  add_poller = λ m p w. (ok tt, w);
  unmarshal_auths = λ s. ok [];
}

abbrev manager_config : MgrConfig plain_libraries
manager_config = record {
  rest_config = some tt;
  watch_namespaces = "";
  operator_pod_ns = "hawtio";
  build_variables = variables;
  scheme = none;
  client_tools = none;
  metrics = tt;
  update_polling_interval = negsuc 3599999999999;
  registry_transport = none;
}

abbrev accept : Registration plain_libraries → Act (Unit {0}) (Unit {0})
accept reg w = (ok tt, w)

abbrev judge : String → Act (Unit {0}) (Unit {0})
judge name w = if name == "operator-1" then (ok tt, w) else (err (message "another pod"), w)

-- A registration of another pod is refused.
abbrev refuse_others : Registration plain_libraries → Act (Unit {0}) (Unit {0})
refuse_others reg = judge reg.operator_pod.name

option_eq : {a b : String} → ◌≡◌ {A = Option String} (some a) (some b) → a ≡ b
option_eq e = cc

new_with-registers_example :
    new_with plain_libraries accept manager_config tt
    ≡ new_with plain_libraries refuse_others manager_config tt
new_with-registers_example =
    new_with-registers plain_libraries manager_config accept refuse_others tt
      λ reg sound v. ap (λ name. judge name v) (option_eq sound.2)

abbrev parse_plain : String → Result ℤ
parse_plain text = if text == "-1h" then ok (negsuc 3599999999999) else err (message "no duration")

negative_interval-panics_example :
    (p : Poller (Unit {0}) (Unit {0})) × (poller_or_none plain_libraries manager_config tt tt
      ≡ (ok (some p), tt))
    × (start registry 2 (schedule_of p) new_poller tt ≡ none)
unfolding get_update_interval discover_registry_credentials parse_keychain
negative_interval-panics_example =
    negative_interval-panics plain_libraries manager_config tt parse_plain registry "-1h" "" []
      3599999999999 2 tt tt tt tt refl refl refl refl refl refl refl
