-- ===== src/Manager/Options.antt =====
-- pkg/manager/manager.go: the options of the manager.
use hawtio_operator.Base.{String, Option, none, some, List, [], ◌∷◌}
use hawtio_operator.Base.Int.{ℤ, pos}
use hawtio_operator.Util.Version.{BuildVariables}
use hawtio_operator.Manager.Clients.{Libraries, Tools}

abbrev pub no_build_variables : BuildVariables
no_build_variables = record {
  image_repository = "";
  image_version = "";
  gateway_image_version = "";
  gateway_image_repository = "";
  operator_version = "";
  legacy_serving_certificate_mount_version = "";
  product_name = "";
  server_root_directory = "";
  client_cert_common_name = "";
  additional_labels = "";
}

-- `mgrConfig`
pub record MgrConfig {W : Type 0} (lib : Libraries W) : Type 0 where
  pub rest_config : Option lib.RestConfig
  pub watch_namespaces : String
  pub operator_pod_ns : String
  pub build_variables : BuildVariables
  pub scheme : Option lib.Scheme
  pub client_tools : Option (Tools lib)
  pub metrics : lib.Metrics
  pub update_polling_interval : ℤ
  pub registry_transport : Option lib.Transport

module _ {W : Type 0} (lib : Libraries W) where
  -- `MgrOption`
  abbrev pub MgrOption : Type 0
  MgrOption = MgrConfig lib → MgrConfig lib

  -- `mgrConfig{}`
  abbrev pub no_options : MgrConfig lib
  no_options = record {
    rest_config = none;
    watch_namespaces = "";
    operator_pod_ns = "";
    build_variables = no_build_variables;
    scheme = none;
    client_tools = none;
    metrics = lib.no_metrics;
    update_polling_interval = pos 0;
    registry_transport = none;
  }

  abbrev pub with_rest_config : lib.RestConfig → MgrOption
  with_rest_config cfg c = record c { rest_config = some cfg }

  abbrev pub with_watch_namespaces : String → MgrOption
  with_watch_namespaces ns_str c = record c { watch_namespaces = ns_str }

  abbrev pub with_pod_namespace : String → MgrOption
  with_pod_namespace ns c = record c { operator_pod_ns = ns }

  abbrev pub with_update_polling_interval : ℤ → MgrOption
  with_update_polling_interval interval c = record c { update_polling_interval = interval }

  abbrev pub with_build_variables : BuildVariables → MgrOption
  with_build_variables bv c = record c { build_variables = bv }

  abbrev pub with_scheme : lib.Scheme → MgrOption
  with_scheme scheme c = record c { scheme = some scheme }

  abbrev pub with_client_tools : Tools lib → MgrOption
  with_client_tools tools c = record c { client_tools = some tools }

  abbrev pub with_metrics : lib.Metrics → MgrOption
  with_metrics metrics c = record c { metrics = metrics }

  abbrev pub with_registry_transport : lib.Transport → MgrOption
  with_registry_transport transport c = record c { registry_transport = some transport }

  unfoldable pub apply_options : List MgrOption → MgrConfig lib → MgrConfig lib
  apply_options [] mc = mc
  apply_options (apply ∷ options) mc = apply_options options (apply mc)
