-- ===== src/Manager/Settings.antt =====
-- cmd/manager/main.go: what the operator reads from its environment. `lookup_env` stands for
-- `os.LookupEnv`, and `parse_duration` for `time.ParseDuration`.
use hawtio_operator.Base.{String, ◌==◌, if◌then◌else◌, Option, none, some, ◌*◌}
use hawtio_operator.Base.Int.{ℤ, pos}
use hawtio_operator.Base.Errors.{Result, ok, err}
use hawtio_operator.Util.Text.{to_lower}
use hawtio_operator.Util.Version.{BuildVariables}
use hawtio_operator.Controller.Cluster.{hour}

-- `DefaultPollingInterval`
abbrev pub default_polling_interval : ℤ
default_polling_interval = pos (12 * hour)

abbrev pub log_level_env_var : String
log_level_env_var = "OPERATOR_LOG_LEVEL"

abbrev pub watch_namespaces_env_var : String
watch_namespaces_env_var = "WATCH_NAMESPACES"

abbrev pub watch_namespaces_legacy_env_var : String
watch_namespaces_legacy_env_var = "WATCH_NAMESPACE"

abbrev pub pod_namespace_env_var : String
pod_namespace_env_var = "POD_NAMESPACE"

abbrev pub update_polling_interval_env_var : String
update_polling_interval_env_var = "UPDATE_POLLING_INTERVAL"

-- The two of zap's levels that the operator can have.
pub data Level : Type 0 where
  debug_level info_level : Level

abbrev legacy_or : String → Option String → String
legacy_or ns none = ns
legacy_or ns (some legacy) = if legacy == "" then ns else legacy

abbrev level_of : Option String → Level
level_of none = info_level
level_of (some text) = if to_lower text == "debug" then debug_level else info_level

abbrev or_default : Result ℤ → ℤ
or_default (ok d) = d
or_default (err e) = default_polling_interval

abbrev pub interval_from : (String → Result ℤ) → Option String → ℤ
interval_from parse_duration none = default_polling_interval
interval_from parse_duration (some text) =
    if text == "0" then pos 0 else or_default (parse_duration text)

abbrev pub namespaces_from : Option String → Option String → Result String
namespaces_from none legacy = ok ""
namespaces_from (some ns) legacy = ok (legacy_or ns legacy)

module _ (lookup_env : String → Option String) where
  -- `getWatchNamespaces`
  unfoldable pub get_watch_namespaces : Result String
  get_watch_namespaces =
      namespaces_from (lookup_env watch_namespaces_env_var)
        (lookup_env watch_namespaces_legacy_env_var)

  -- `getLogLevel`
  unfoldable pub get_log_level : Level
  get_log_level = level_of (lookup_env log_level_env_var)

  -- `getUpdateInterval`
  unfoldable pub get_update_interval : (String → Result ℤ) → ℤ
  get_update_interval parse_duration =
      interval_from parse_duration (lookup_env update_polling_interval_env_var)

-- The variables that the build sets in the package.
pub record GoBuild : Type 0 where
  pub image_repository : String
  pub image_version : String
  pub gateway_image_version : String
  pub gateway_image_repository : String
  pub operator_version : String
  pub legacy_serving_certificate_mount_version : String
  pub product_name : String
  pub server_root_directory : String
  pub certificate_common_name : String
  pub additional_labels : String

-- What `operatorRun` passes on of them.
unfoldable pub build_variables_of : GoBuild → BuildVariables
build_variables_of g = record {
  image_repository = g.image_repository;
  image_version = g.image_version;
  gateway_image_version = g.gateway_image_version;
  gateway_image_repository = g.gateway_image_repository;
  operator_version = g.operator_version;
  legacy_serving_certificate_mount_version = g.legacy_serving_certificate_mount_version;
  product_name = g.product_name;
  server_root_directory = g.server_root_directory;
  client_cert_common_name = g.certificate_common_name;
  additional_labels = g.additional_labels;
}
