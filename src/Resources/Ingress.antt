-- ===== src/Resources/Ingress.antt =====
-- pkg/resources/kubernetes/ingress.go
pub mod Laws
use hawtio_operator.Base.{
  ℕ, zero, suc, ◌/◌, ◌%◌, String, ◌<>◌, Bool, true, false, Option, none, some, List, [], ◌∷◌,
}
use hawtio_operator.Base.{◌==◌, ltb, if◌then◌else◌}
use hawtio_operator.Base.Dict.{Dict}
use hawtio_operator.Kube.{Secret}
use hawtio_operator.Kube.Network.{
  Ingress, IngressRule, IngressTls, HttpIngressPath, LoadBalancerIngress,
}
use hawtio_operator.Api.{Hawtio}
use hawtio_operator.Capabilities.{ApiServerSpec}
use hawtio_operator.Util.Version.{is_ssl}
use hawtio_operator.Resources.Labels.{resource_labels, propagate_annotations}
use hawtio_operator.Resources.Service.{default_meta, plain_service_port, ssl_service_port}

-- `NewDefaultIngress`
abbrev pub new_default_ingress : Hawtio → Ingress
new_default_ingress hawtio = record {
  metadata = default_meta hawtio;
  spec = record { tls = []; rules = [] };
  load_balancer = [];
}

abbrev rewrite_annotations : Dict String
rewrite_annotations = ("nginx.ingress.kubernetes.io/rewrite-target", "/$1") ∷ []

abbrev ingress_annotations : Bool → Dict String
ingress_annotations true =
    ("nginx.ingress.kubernetes.io/backend-protocol", "HTTPS")
    ∷ ("nginx.ingress.kubernetes.io/force-ssl-redirect", "true")
    ∷ rewrite_annotations
ingress_annotations false = rewrite_annotations

-- `NewIngress`
unfoldable pub new_ingress : Hawtio → ApiServerSpec → Option Secret → Ingress
new_ingress hawtio api serving_secret =
    let path : HttpIngressPath = record {
      path = "/(.*)";
      path_type = "Prefix";
      service_name = hawtio.metadata.name;
      service_port = if is_ssl hawtio api then ssl_service_port else plain_service_port;
    } in
    record {
      metadata = record (default_meta hawtio) {
        labels = resource_labels hawtio;
        annotations = propagate_annotations hawtio (ingress_annotations (is_ssl hawtio api));
      };
      spec = record {
        tls =
            record { secret_name = elim serving_secret [ none ↦ "" | some s ↦ s.metadata.name ] }
            ∷ [];
        rules = record { host = ""; http = some (path ∷ []) } ∷ [];
      };
      load_balancer = [];
    }

-- `strconv.FormatInt(n, 10)` of a number of at most 21 digits that is not negative: a port is an
-- int32.
abbrev pub digit : ℕ → String
digit zero = "0"
digit (suc zero) = "1"
digit (suc (suc zero)) = "2"
digit (suc (suc (suc zero))) = "3"
digit (suc (suc (suc (suc zero)))) = "4"
digit (suc (suc (suc (suc (suc zero))))) = "5"
digit (suc (suc (suc (suc (suc (suc zero)))))) = "6"
digit (suc (suc (suc (suc (suc (suc (suc zero))))))) = "7"
digit (suc (suc (suc (suc (suc (suc (suc (suc zero)))))))) = "8"
digit _ = "9"

digits : ℕ → ℕ → String
digits zero n = digit (n % 10)
digits (suc k) n =
    let rest = digits k (n / 10) in if ltb n 10 then digit n else rest <> digit (n % 10)

unfoldable pub format_int : ℕ → String
unfolding digits
format_int n = digits 20 n

-- The host of the first rule that names one.
unfoldable pub rule_host : List IngressRule → String
rule_host [] = "*"
rule_host (r ∷ rs) = if r.host == "" then rule_host rs else r.host

-- The loop over a status's ports.
unfoldable pub last_port : List ℕ → String → String
unfolding format_int
last_port [] port = port
last_port (p ∷ ps) port = last_port ps (format_int p)

abbrev pub status_host : LoadBalancerIngress → String → String
status_host i host = if i.hostname == "" then (if i.ip == "" then host else i.ip) else i.hostname

-- The loop over the statuses, from the host and the port found so far.
unfoldable pub scan_statuses : List LoadBalancerIngress → String → String → String × String
unfolding last_port
scan_statuses [] host port = (host, port)
scan_statuses (i ∷ is) host port =
    let found = status_host i host in
    scan_statuses is found (if found == "" then port else last_port i.ports port)

-- `getIngressHostAndPort`
unfoldable pub get_ingress_host_and_port : Ingress → String × String
unfolding rule_host scan_statuses
get_ingress_host_and_port ingress = elim ingress.load_balancer [
  | [] ↦ (rule_host ingress.spec.rules, "")
  | i ∷ is ↦
      let (host, port) = scan_statuses (i ∷ is) "" "" in (if host == "" then "*" else host, port)
]

abbrev first_path : Option (List HttpIngressPath) → Option String
first_path none = none
first_path (some []) = none
first_path (some (p ∷ ps)) = some p.path

-- `getIngressPath`
unfoldable pub get_ingress_path : List IngressRule → String
get_ingress_path [] = "/"
get_ingress_path (r ∷ rs) = elim (first_path r.http) [ none ↦ get_ingress_path rs | some p ↦ p ]

abbrev scheme_of : List IngressTls → String
scheme_of [] = "http"
scheme_of (t ∷ ts) = "https"

-- `GetIngressURL`
unfoldable pub get_ingress_url : Ingress → String
unfolding get_ingress_host_and_port get_ingress_path
get_ingress_url ingress =
    let (host, port) = get_ingress_host_and_port ingress in
    let url = scheme_of ingress.spec.tls <> "://" <> host in
    (if port == "" then url else url <> ":" <> port) <> get_ingress_path ingress.spec.rules
