-- ===== src/Manager/Poller.antt =====
-- pkg/manager/manager.go: the poller that the manager is to run. `O` is an option of the registry's library, and
-- `Auth` a registry's credentials.
use hawtio_operator.Base.{ℕ, String, ◌<>◌, Option, none, some, List, [], Bool, true, false}
use hawtio_operator.Base.{◌==◌, if◌then◌else◌}
use hawtio_operator.Base.Int.{ℤ, pos}
use hawtio_operator.Base.Dict.{Dict, lookup}
use hawtio_operator.Base.Errors.{Result, ok, err, message, wrapped}
use hawtio_operator.Base.Act.{Act, pure, lift, catch, ◌>>=◌, ◌>>◌}
use hawtio_operator.Kube.{Key, Secret}
use hawtio_operator.Util.Version.{BuildVariables}

abbrev custom_pull_secret_name_env_var : String
custom_pull_secret_name_env_var = "CUSTOM_PULL_SECRET_NAME"

abbrev docker_config_json_key : String
docker_config_json_key = ".dockerconfigjson"

-- The fields of `updater.RegistryPoller` that are set here; its trigger is the channel.
pub record Poller (O Auth : Type 0) : Type 0 where
  pub interval : ℤ
  pub online_image_url : String
  pub gateway_image_url : String
  pub auths : Dict Auth
  pub extra_options : List O

-- `PollerConfig`, with what the code uses of the manager: its reader of secrets, and `Add`.
pub record PollerConfig (W O Auth : Type 0) : Type 0 where
  pub read_secret : Key → Act W Secret
  pub add_poller : Poller O Auth → Act W (Unit {0})
  pub namespace : String
  pub build_vars : BuildVariables
  pub polling_interval : ℤ
  pub extra_options : List O

-- `parseKeychain`
unfoldable pub parse_keychain :
    {Auth : Type 0} → (String → Result (Dict Auth)) → String → Result (Dict Auth)
parse_keychain unmarshal config_bytes = if config_bytes == "" then ok [] else unmarshal config_bytes

-- `os.Getenv`
abbrev pub getenv : (String → Option String) → String → String
getenv lookup_env name = elim (lookup_env name) [ none ↦ "" | some text ↦ text ]

abbrev json_of : String → Result Secret → Result String
json_of name (err e) =
    err (wrapped "CUSTOM_PULL_SECRET_NAME was specified but the secret could not be retained" e)
json_of name (ok secret) = elim (lookup docker_config_json_key secret.contents) [
  | none ↦ err (
      message (
        "(CUSTOM_PULL_SECRET_NAME) Secret " <> name
        <> " exists but does not contain a .dockerconfigjson key; is it a valid docker-registry secret?"))
  | some json ↦ ok json
]

abbrev pub is_zero : ℤ → Bool
is_zero (pos ℕ.zero) = true
is_zero _ = false

abbrev pub poller_of : {W O Auth : Type 0} → PollerConfig W O Auth → Dict Auth → Poller O Auth
poller_of cfg keychain = record {
  interval = cfg.polling_interval;
  online_image_url = cfg.build_vars.image_repository <> ":" <> cfg.build_vars.image_version;
  gateway_image_url =
      cfg.build_vars.gateway_image_repository <> ":" <> cfg.build_vars.gateway_image_version;
  auths = keychain;
  extra_options = cfg.extra_options;
}

module _ {W O Auth : Type 0} (lookup_env : String → Option String) where
  -- `discoverRegistryCredentials`: no credentials are the empty text.
  unfoldable pub discover_registry_credentials : PollerConfig W O Auth → Act W String
  discover_registry_credentials cfg =
      let name = getenv lookup_env custom_pull_secret_name_env_var in
      if name == ""
      then pure ""
      else catch (cfg.read_secret (record { namespace = cfg.namespace; name = name }))
          λ secret. lift (json_of name secret)

  -- `createUpdatePoller`: the poller, which goes with its channel; both are nil for an interval of 0.
  unfoldable pub create_update_poller :
      (String → Result (Dict Auth)) → PollerConfig W O Auth → Act W (Option (Poller O Auth))
  unfolding discover_registry_credentials parse_keychain
  create_update_poller unmarshal cfg = if is_zero cfg.polling_interval then pure none else (do
    registry_creds ← discover_registry_credentials cfg
    keychain ← lift (parse_keychain unmarshal registry_creds)
    cfg.add_poller (poller_of cfg keychain)
    pure (some (poller_of cfg keychain)))
