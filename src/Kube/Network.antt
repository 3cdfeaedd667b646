-- ===== src/Kube/Network.antt =====
-- Services, routes, ingresses and console links.
use hawtio_operator.Base.{ℕ, String, Bool, Option, List}
use hawtio_operator.Base.Dict.{Dict}
use hawtio_operator.Kube.{Time, ObjectMeta}

pub record ServicePort : Type 0 where
  pub name : String
  pub protocol : String
  pub port : ℕ
  pub target_port : String
  pub node_port : ℕ

pub record ServiceSpec : Type 0 where
  pub ports : List ServicePort
  pub selector : Dict String
  pub session_affinity : String
  pub publish_not_ready_addresses : Bool
  pub cluster_ip : String
  pub cluster_ips : List String

pub record Service : Type 0 where
  pub metadata : ObjectMeta
  pub spec : ServiceSpec

pub record TlsConfig : Type 0 where
  pub termination : String
  pub insecure_policy : String
  pub key : String
  pub certificate : String
  pub ca_certificate : String

pub record RouteTarget : Type 0 where
  pub kind : String
  pub name : String

pub record RouteSpec : Type 0 where
  pub host : String
  pub path : String
  pub to : RouteTarget
  pub port : Option String
  pub tls : Option TlsConfig

pub record RouteCondition : Type 0 where
  pub kind : String
  pub status : String
  pub last_transition_time : Time

pub record RouteIngress : Type 0 where
  pub host : String
  pub conditions : List RouteCondition

pub record Route : Type 0 where
  pub metadata : ObjectMeta
  pub spec : RouteSpec
  pub ingress : List RouteIngress

pub record IngressTls : Type 0 where
  pub secret_name : String

pub record HttpIngressPath : Type 0 where
  pub path : String
  pub path_type : String
  pub service_name : String
  pub service_port : ℕ

-- `http` is `none` where the rule has no HTTP part.
pub record IngressRule : Type 0 where
  pub host : String
  pub http : Option (List HttpIngressPath)

pub record IngressSpec : Type 0 where
  pub tls : List IngressTls
  pub rules : List IngressRule

pub record LoadBalancerIngress : Type 0 where
  pub hostname : String
  pub ip : String
  pub ports : List ℕ

pub record Ingress : Type 0 where
  pub metadata : ObjectMeta
  pub spec : IngressSpec
  pub load_balancer : List LoadBalancerIngress

pub record ApplicationMenu : Type 0 where
  pub section : String
  pub image_url : String

pub record ConsoleLinkSpec : Type 0 where
  pub text : String
  pub href : String
  pub location : String
  pub application_menu : Option ApplicationMenu
  pub dashboard_namespaces : Option (List String)

pub record ConsoleLink : Type 0 where
  pub metadata : ObjectMeta
  pub spec : ConsoleLinkSpec
