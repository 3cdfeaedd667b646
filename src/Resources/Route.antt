-- ===== src/Resources/Route.antt =====
-- pkg/resources/openshift/route.go
pub mod Host
use hawtio_operator.Base.{
  String, ◌<>◌, Bool, true, false, ◌&&◌, ◌||◌, not, Option, none, some, List, [], ◌∷◌,
}
use hawtio_operator.Base.{◌==◌, ltb, if◌then◌else◌}
use hawtio_operator.Base.Dict.{insert, text_at}
use hawtio_operator.Kube.{Time, Secret}
use hawtio_operator.Kube.Network.{Route, RouteIngress, RouteCondition, TlsConfig}
use hawtio_operator.Api.{Hawtio}
use hawtio_operator.Resources.Labels.{resource_labels, propagate_annotations}
use hawtio_operator.Resources.Service.{default_meta}

abbrev pub route_host_generated_annotation : String
route_host_generated_annotation = "openshift.io/host.generated"

-- `NewDefaultRoute`
abbrev pub new_default_route : Hawtio → Route
new_default_route hawtio = record {
  metadata = default_meta hawtio;
  spec = record {
    host = "";
    path = "";
    to = record { kind = ""; name = "" };
    port = none;
    tls = none;
  };
  ingress = [];
}

-- The certificates that the custom resource's secrets hold.
abbrev certified : Hawtio → Option Secret → Option Secret → TlsConfig → TlsConfig
certified hawtio none ca tls = tls
certified hawtio (some route_tls) none tls = record tls {
  key = text_at "tls.key" route_tls.contents;
  certificate = text_at "tls.crt" route_tls.contents;
}
certified hawtio (some route_tls) (some ca) tls =
    let k = hawtio.spec.route.ca_cert.key in
    record tls {
      key = text_at "tls.key" route_tls.contents;
      certificate = text_at "tls.crt" route_tls.contents;
      ca_certificate = text_at (if k == "" then "tls.crt" else k) ca.contents;
    }

-- `NewRoute`
unfoldable pub new_route : Hawtio → Option Secret → Option Secret → Route
new_route hawtio route_tls ca =
    let propagated = propagate_annotations hawtio [] in
    let annotations =
      if hawtio.spec.route_host_name == ""
      then insert route_host_generated_annotation "true" propagated
      else propagated in
    record {
      metadata = record (default_meta hawtio) {
        labels = resource_labels hawtio;
        annotations = annotations;
      };
      spec = record {
        host = hawtio.spec.route_host_name;
        path = "";
        to = record { kind = "Service"; name = hawtio.metadata.name };
        port = none;
        tls = some (
            certified hawtio route_tls ca (record {
              termination = "reencrypt";
              insecure_policy = "Redirect";
              key = "";
              certificate = "";
              ca_certificate = "";
            }));
      };
      ingress = [];
    }

abbrev pub is_admitted : RouteCondition → Bool
is_admitted c = c.status == "True" && c.kind == "Admitted"

-- The oldest admitted ingress that the loop has found: its host and the time of its condition.
abbrev pub Oldest : Type 0
Oldest = Option (String × Time)

-- An admitted condition has a time here: at one without it, the code dereferences nil and panics.
abbrev pub older : String → RouteCondition → Oldest → Oldest
older host c none = if is_admitted c then some (host, c.last_transition_time) else none
older host c (some (h, t)) =
    if is_admitted c && ltb c.last_transition_time t
    then some (host, c.last_transition_time)
    else some (h, t)

-- The loop over the conditions of one ingress.
unfoldable pub scan_conditions : String → List RouteCondition → Oldest → Oldest
scan_conditions host [] found = found
scan_conditions host (c ∷ cs) found = scan_conditions host cs (older host c found)

-- The loop over the ingresses.
unfoldable pub scan_ingresses : List RouteIngress → Oldest → Oldest
unfolding scan_conditions
scan_ingresses [] found = found
scan_ingresses (i ∷ is) found = scan_ingresses is (scan_conditions i.host i.conditions found)

-- `getRouteHost`
unfoldable pub get_route_host : Route → String
unfolding scan_ingresses
get_route_host route = elim (scan_ingresses route.ingress none) [
  | none ↦ route.spec.host
  | some (host, _) ↦ host
]

abbrev is_secure : Option TlsConfig → Bool
is_secure none = false
is_secure (some tls) = not (tls.termination == "")

-- `GetRouteURL`
unfoldable pub get_route_url : Route → String
unfolding get_route_host
get_route_url route =
    (if is_secure route.spec.tls then "https" else "http")
    <> "://"
    <> get_route_host route
    <> route.spec.path
