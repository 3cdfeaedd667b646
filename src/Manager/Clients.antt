-- ===== src/Manager/Clients.antt =====
-- pkg/clients/client_tools.go, and the scheme of pkg/manager/manager.go. `Libraries` stands for what the manager
-- uses of other projects.
use hawtio_operator.Base.{String, Option}
use hawtio_operator.Base.Dict.{Dict}
use hawtio_operator.Base.Errors.{Result, ok, ◌>>=◌}
use hawtio_operator.Base.Act.{Act}
use hawtio_operator.Kube.{Key, Secret}
use hawtio_operator.Capabilities.{Discovery, Semver}
use hawtio_operator.Manager.Cache.{CacheOptions}
use hawtio_operator.Manager.Poller.{Poller}

-- `ClientTools`
pub record ClientTools (Core Oauth Conf Api : Type 0) : Type 0 where
  pub core_client : Core
  pub oauth_client : Oauth
  pub config_client : Conf
  pub api_client : Api

-- `manager.Options`
pub record ManagerOptions (Scheme Metrics : Type 0) : Type 0 where
  pub scheme : Scheme
  pub cache : CacheOptions
  pub leader_election_namespace : String
  pub metrics : Metrics

pub record Libraries (W : Type 0) : Type 1 where
  pub RestConfig : Type 0
  pub Scheme : Type 0
  pub CoreClient : Type 0
  pub OauthClient : Type 0
  pub ConfigClient : Type 0
  pub ApiClient : Type 0
  pub Metrics : Type 0
  pub Transport : Type 0
  pub RemoteOption : Type 0
  pub Auth : Type 0
  pub Mgr : Type 0
  pub SemVersion : Type 0
  pub no_metrics : Metrics
  pub new_scheme : Scheme
  pub add_client_go : Scheme → Result Scheme
  pub install_oauth : Scheme → Result Scheme
  pub install_route : Scheme → Result Scheme
  pub add_config : Scheme → Result Scheme
  pub install_console : Scheme → Result Scheme
  pub add_api_extensions : Scheme → Result Scheme
  pub add_hawtio : Scheme → Result Scheme
  pub new_api_client : RestConfig → Result ApiClient
  pub core_v1 : ApiClient → CoreClient
  pub new_config_client : RestConfig → Result ConfigClient
  pub new_oauth_client : RestConfig → Result OauthClient
  pub discover : ApiClient → ConfigClient → Act W Discovery
  pub semver : Semver SemVersion
  pub lookup_env : String → Option String
  pub make_manager : RestConfig → ManagerOptions Scheme Metrics → Act W Mgr
  pub with_transport : Transport → RemoteOption
  pub read_secret : Mgr → Key → Act W Secret
  pub add_poller : Mgr → Poller RemoteOption Auth → Act W (Unit {0})
  pub unmarshal_auths : String → Result (Dict Auth)

module _ {W : Type 0} (lib : Libraries W) where
  abbrev pub Tools : Type 0
  Tools = ClientTools lib.CoreClient lib.OauthClient lib.ConfigClient lib.ApiClient

  -- `ConfigureScheme`
  unfoldable pub configure_scheme : Result lib.Scheme
  configure_scheme = do
    scheme ← lib.add_client_go lib.new_scheme
    scheme ← lib.install_oauth scheme
    scheme ← lib.install_route scheme
    scheme ← lib.add_config scheme
    scheme ← lib.install_console scheme
    scheme ← lib.add_api_extensions scheme
    lib.add_hawtio scheme

  -- `NewTools`
  unfoldable pub new_tools : lib.RestConfig → Result Tools
  new_tools cfg = do
    api ← lib.new_api_client cfg
    config ← lib.new_config_client cfg
    oauth ← lib.new_oauth_client cfg
    ok (record {
      core_client = lib.core_v1 api;
      oauth_client = oauth;
      config_client = config;
      api_client = api;
    })
