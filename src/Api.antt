-- ===== src/Api.antt =====
-- pkg/apis/hawtio/v2/hawtio_types.go: the Hawtio custom resource.
pub mod Config
pub mod Memory
use hawtio_operator.Base.{String, Bool, true, Option, none, some, List, []}
use hawtio_operator.Base.Int.{ℤ, pos}
use hawtio_operator.Kube.{Time, ObjectMeta, Object, named}
use hawtio_operator.Kube.Workload.{ResourceRequirements}
use Config.{HawtioConfig, empty_config}

abbrev pub HawtioDeploymentType : Type 0
HawtioDeploymentType = String

abbrev pub cluster_type : HawtioDeploymentType
cluster_type = "Cluster"

abbrev pub namespace_type : HawtioDeploymentType
namespace_type = "Namespace"

abbrev pub HawtioPhase : Type 0
HawtioPhase = String

abbrev pub phase_initialized : HawtioPhase
phase_initialized = "Initialized"

abbrev pub phase_deployed : HawtioPhase
phase_deployed = "Deployed"

abbrev pub phase_failed : HawtioPhase
phase_failed = "Failed"

pub record HawtioMetadataPropagation : Type 0 where
  pub annotations : List String
  pub labels : List String

pub record SecretKeySelector : Type 0 where
  pub name : String
  pub key : String

-- `cert_secret` is the name that the reference holds.
pub record HawtioRoute : Type 0 where
  pub cert_secret : String
  pub ca_cert : SecretKeySelector

pub record HawtioAuth : Type 0 where
  pub internal_ssl : Option Bool
  pub client_cert_common_name : String
  pub client_cert_expiration_date : Option Time
  pub client_cert_check_schedule : String
  pub client_cert_expiration_period : ℤ

pub record HawtioNginx : Type 0 where
  pub client_body_buffer_size : String
  pub proxy_buffers : String
  pub subrequest_output_buffer_size : String
  pub master_burst_size : String

pub record HawtioRbac : Type 0 where
  pub config_map : String
  pub disable_rbac_registry : Option Bool

pub record HawtioLogging : Type 0 where
  pub online_log_level : String
  pub gateway_log_level : String
  pub mask_ip_addresses : String

pub record HawtioHealthCheckPeriods : Type 0 where
  pub online_readiness_period : Option ℤ
  pub online_liveness_period : Option ℤ
  pub gateway_readiness_period : Option ℤ
  pub gateway_liveness_period : Option ℤ

pub record HawtioSpec : Type 0 where
  pub kind : HawtioDeploymentType
  pub replicas : Option ℤ
  pub metadata_propagation : HawtioMetadataPropagation
  pub route_host_name : String
  pub route : HawtioRoute
  pub external_routes : List String
  pub version : String
  pub auth : HawtioAuth
  pub nginx : HawtioNginx
  pub rbac : HawtioRbac
  pub resources : ResourceRequirements
  pub config : HawtioConfig
  pub logging : HawtioLogging
  pub health_checks : HawtioHealthCheckPeriods

pub record HawtioStatus : Type 0 where
  pub image : String
  pub gateway_image : String
  pub phase : HawtioPhase
  pub url : String
  pub replicas : ℤ
  pub selector : String

pub record Hawtio : Type 0 where
  pub metadata : ObjectMeta
  pub spec : HawtioSpec
  pub status : HawtioStatus

instance abbrev pub hawtio_object : Object Hawtio
hawtio_object = record { meta = λ h. h.metadata; with_meta = λ h m. record h { metadata = m } }

abbrev pub no_resources : ResourceRequirements
no_resources = record { limits = []; requests = [] }

-- `NewHawtio`
abbrev pub new_hawtio : Hawtio
new_hawtio = record {
  metadata = named "" "";
  spec = record {
    kind = "";
    replicas = none;
    metadata_propagation = record { annotations = []; labels = [] };
    route_host_name = "";
    route = record { cert_secret = ""; ca_cert = record { name = ""; key = "" } };
    external_routes = [];
    version = "";
    auth = record {
      internal_ssl = some true;
      client_cert_common_name = "";
      client_cert_expiration_date = none;
      client_cert_check_schedule = "";
      client_cert_expiration_period = pos 0;
    };
    nginx = record {
      client_body_buffer_size = "";
      proxy_buffers = "";
      subrequest_output_buffer_size = "";
      master_burst_size = "";
    };
    rbac = record { config_map = ""; disable_rbac_registry = none };
    resources = no_resources;
    config = empty_config;
    logging = record { online_log_level = ""; gateway_log_level = ""; mask_ip_addresses = "" };
    health_checks = record {
      online_readiness_period = none;
      online_liveness_period = none;
      gateway_readiness_period = none;
      gateway_liveness_period = none;
    };
  };
  status = record {
    image = "";
    gateway_image = "";
    phase = "";
    url = "";
    replicas = pos 0;
    selector = "";
  };
}
