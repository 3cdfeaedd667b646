-- ===== src/Kube/Workload.antt =====
-- Pods, their containers and volumes, and deployments.
use hawtio_operator.Base.{ℕ, String, Option, List}
use hawtio_operator.Base.Int.{ℤ}
use hawtio_operator.Base.Dict.{Dict}
use hawtio_operator.Kube.{ObjectMeta}

pub record ResourceRequirements : Type 0 where
  pub limits : Dict String
  pub requests : Dict String

-- A variable with a literal value, or one that reads a field of the pod.
pub data EnvVar : Type 0 where
  value : String → String → EnvVar
  field_ref : String → String → String → EnvVar

pub record ContainerPort : Type 0 where
  pub name : String
  pub container_port : ℕ
  pub protocol : String

pub record HttpGetAction : Type 0 where
  pub port : String
  pub path : String
  pub scheme : String

pub record Probe : Type 0 where
  pub initial_delay_seconds : ℤ
  pub timeout_seconds : ℤ
  pub period_seconds : ℤ
  pub http_get : HttpGetAction

pub record VolumeMount : Type 0 where
  pub name : String
  pub mount_path : String
  pub sub_path : String

pub data VolumeSource : Type 0 where
  secret : String → VolumeSource
  config_map : String → ℕ → VolumeSource

pub record Volume : Type 0 where
  pub name : String
  pub source : VolumeSource

pub record Container : Type 0 where
  pub name : String
  pub image : String
  pub image_pull_policy : String
  pub env : List EnvVar
  pub readiness_probe : Probe
  pub liveness_probe : Probe
  pub ports : List ContainerPort
  pub resources : ResourceRequirements
  pub volume_mounts : List VolumeMount

pub record PodTemplateSpec : Type 0 where
  pub labels : Dict String
  pub annotations : Dict String
  pub containers : List Container
  pub service_account_name : String
  pub volumes : List Volume

-- The selector is `none` where the field is nil.
pub record DeploymentSpec : Type 0 where
  pub replicas : ℤ
  pub selector : Option (Dict String)
  pub template : PodTemplateSpec
  pub strategy : String

pub record Condition : Type 0 where
  pub kind : String
  pub reason : String

pub record DeploymentStatus : Type 0 where
  pub replicas : ℤ
  pub ready_replicas : ℤ
  pub conditions : List Condition

pub record Deployment : Type 0 where
  pub metadata : ObjectMeta
  pub spec : DeploymentSpec
  pub status : DeploymentStatus
