-- ===== src/Controller/Status.antt =====
-- pkg/controller/hawtio/hawtio_controller.go: the status that the last phase of `Reconcile` computes.
pub mod Settles
use hawtio_operator.Base.{String, Bool, ◌&&◌, Option, none, some, List, ◌∷◌}
use hawtio_operator.Base.{◌==◌, if◌then◌else◌}
use hawtio_operator.Base.Int.{ℤ, pos, lt_int, le_int}
use hawtio_operator.Kube.Workload.{Container, Deployment}
use hawtio_operator.Kube.Network.{Route, Ingress}
use hawtio_operator.Api.{
  Hawtio, HawtioPhase, HawtioStatus, phase_initialized, phase_deployed, phase_failed,
}
use hawtio_operator.Resources.Route.{get_route_url}
use hawtio_operator.Resources.Ingress.{get_ingress_url}
use hawtio_operator.Controller.Lifecycle.{is_deployment_failed}
use hawtio_operator.Controller.Defaults.{DeploymentConfiguration}

-- What the reconciled objects tell the phase that updates the status.
pub record Deployed : Type 0 where
  pub config : DeploymentConfiguration
  pub route : Option Route
  pub ingress : Option Ingress
  pub url : String

-- `ingressRouteURL`: the ingress's URL takes the place of the route's.
unfoldable pub ingress_route_url : Option Route → Option Ingress → String
unfolding get_route_url get_ingress_url
ingress_route_url route (some ingress) = get_ingress_url ingress
ingress_route_url (some route) none = get_route_url route
ingress_route_url none none = ""

-- The phase that the deployment's status tells.
unfoldable pub phase_of : Deployment → HawtioPhase
unfolding is_deployment_failed
phase_of d =
    if lt_int (pos 0) d.status.ready_replicas
    then phase_deployed
    else (if is_deployment_failed d.status.conditions then phase_failed else phase_initialized)

-- The images of the first two containers; out of range, Go panics.
abbrev pub images : List Container → Option (String × String)
images (online ∷ gateway ∷ cs) = some (online.image, gateway.image)
images _ = none

abbrev pub chosen_url : Bool → Option Ingress → Option Route → String → String → String
chosen_url routes (some ingress) route url old = url
chosen_url routes none (some route) url old = if routes then url else old
chosen_url routes none none url old = old

abbrev pub url_of : Bool → Deployed → String → String
url_of routes d old = chosen_url routes d.ingress d.route d.url old

-- The status that the last phase computes.
unfoldable pub new_status :
    Bool → Deployed → Deployment → String × String → String → HawtioStatus → HawtioStatus
unfolding phase_of
new_status routes d deployment (online, gateway) selector old = record {
  image = online;
  gateway_image = gateway;
  phase = phase_of deployment;
  url = url_of routes d old.url;
  replicas = deployment.status.replicas;
  selector = selector;
}

abbrev pub same_int : ℤ → ℤ → Bool
same_int a b = le_int a b && le_int b a

-- `reflect.DeepEqual` of two statuses
abbrev pub same_status : HawtioStatus → HawtioStatus → Bool
same_status a b =
    a.image == b.image
    && a.gateway_image == b.gateway_image
    && a.phase == b.phase
    && a.url == b.url
    && same_int a.replicas b.replicas
    && a.selector == b.selector

abbrev pub with_status : HawtioStatus → Hawtio → Hawtio
with_status status hawtio = record hawtio { status = status }
