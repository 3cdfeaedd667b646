-- ===== src/Api/Memory/Stored.antt =====
-- pkg/apis/hawtio/v2/hawtio_types.go: the custom resource as it stands in memory, where a pointer or a
-- slice is an address (`none` for nil).
use hawtio_operator.Base.{ℕ, String, Bool, Option, none, some, List}
use hawtio_operator.Base.Int.{ℤ}
use hawtio_operator.Kube.{Time, ObjectMeta}
use hawtio_operator.Kube.Workload.{ResourceRequirements}
use hawtio_operator.Api.{
  HawtioStatus, HawtioDeploymentType, HawtioNginx, HawtioLogging, SecretKeySelector,
}
use hawtio_operator.Api.Config.{HawtioBranding, HawtioOnline, HawtioProductInfo}
use hawtio_operator.Api.Memory.{Cell, flag, int, strings, infos, Copier}

-- What the cells of each kind hold.
abbrev pub flag_of : {X : Type 0} → Cell X → Option Bool
flag_of (flag b) = some b
flag_of _ = none

abbrev pub int_of : {X : Type 0} → Cell X → Option ℤ
int_of (int n) = some n
int_of _ = none

abbrev pub strings_of : {X : Type 0} → Cell X → Option (List String)
strings_of (strings l) = some l
strings_of _ = none

abbrev pub infos_of : {X : Type 0} → Cell X → Option (List HawtioProductInfo)
infos_of (infos l) = some l
infos_of _ = none

-- The types of other packages, with their `DeepCopyInto` (`DeepCopy` of the time, which stands behind a
-- pointer).
pub record Libraries (X M K T Q : Type 0) : Type 0 where
  pub metas : Copier X M ObjectMeta
  pub keys : Copier X K SecretKeySelector
  pub times : Copier X T (Option Time)
  pub quantities : Copier X Q ResourceRequirements

-- The structs that refer to memory, as they stand in it; the other structs are copied by `*out = *in`.
pub record StoredAbout : Type 0 where
  pub title : String
  pub product_infos : Option ℕ
  pub additional_info : String
  pub description : String
  pub copyright : String
  pub img_src : String
  pub img_dark_mode_src : String
  pub background_img_src : String

pub record StoredConfig : Type 0 where
  pub about : StoredAbout
  pub branding : HawtioBranding
  pub online : HawtioOnline
  pub disabled_routes : Option ℕ

pub record StoredAuth (T : Type 0) : Type 0 where
  pub internal_ssl : Option ℕ
  pub client_cert_common_name : String
  pub client_cert_expiration_date : T
  pub client_cert_check_schedule : String
  pub client_cert_expiration_period : ℤ

pub record StoredHealthCheckPeriods : Type 0 where
  pub online_readiness_period : Option ℕ
  pub online_liveness_period : Option ℕ
  pub gateway_readiness_period : Option ℕ
  pub gateway_liveness_period : Option ℕ

pub record StoredMetadataPropagation : Type 0 where
  pub annotations : Option ℕ
  pub labels : Option ℕ

pub record StoredRbac : Type 0 where
  pub config_map : String
  pub disable_rbac_registry : Option ℕ

pub record StoredRoute (K : Type 0) : Type 0 where
  pub cert_secret : String
  pub ca_cert : K

pub record StoredSpec (K T Q : Type 0) : Type 0 where
  pub kind : HawtioDeploymentType
  pub replicas : Option ℕ
  pub metadata_propagation : StoredMetadataPropagation
  pub route_host_name : String
  pub route : StoredRoute K
  pub external_routes : Option ℕ
  pub version : String
  pub auth : StoredAuth T
  pub nginx : HawtioNginx
  pub rbac : StoredRbac
  pub resources : Q
  pub config : StoredConfig
  pub logging : HawtioLogging
  pub health_checks : StoredHealthCheckPeriods

pub record StoredHawtio (M K T Q : Type 0) : Type 0 where
  pub metadata : M
  pub spec : StoredSpec K T Q
  pub status : HawtioStatus
