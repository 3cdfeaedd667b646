-- ===== src/Tests/Resources.antt =====
-- The theorems on the poller, the capabilities and the objects' builders, at concrete inputs.
use hawtio_operator.Base.{ℕ, true, false, ◌≡◌, ◌↔◌, refl, some, [], ◌∷◌}
use hawtio_operator.Base.{codes}
use hawtio_operator.Base.Errors.{Reason, status, ok, err}
use hawtio_operator.Kube.{OauthClient, named}
use hawtio_operator.Kube.Network.{Route, RouteCondition}
use hawtio_operator.Util.Pattern.{match_pattern}
use hawtio_operator.Util.Pattern.Glob.{Matches, match_pattern_iff}
use hawtio_operator.Capabilities.{ApiServerSpec, Discovery, api_capabilities}
use hawtio_operator.Capabilities.Laws.{IsConsistent, api_capabilities-IsConsistent}
use hawtio_operator.Resources.Oauth.{uris_of, refresh_redirect_uris}
use hawtio_operator.Resources.Oauth.Laws.{
  IsRefreshed, refresh_redirect_uris-IsRefreshed, refresh_redirect_uris_settles,
}
use hawtio_operator.Resources.Route.{new_default_route, get_route_host}
use hawtio_operator.Resources.Route.Host.{HasOldestHost, get_route_host-HasOldestHost}
use hawtio_operator.Tests.Samples.{sample, plain_semver}

match_pattern_iff_example :
    (match_pattern "team-*" "team-a" ≡ true) ↔ Matches (codes "team-*") (codes "team-a")
match_pattern_iff_example = match_pattern_iff "team-*" "team-a"

abbrev client : OauthClient
client = record {
  metadata = named "online-web" "";
  grant_method = "auto";
  redirect_uris = some ("https://old" ∷ "https://other" ∷ []);
}

refresh_redirect_uris-IsRefreshed_example :
    IsRefreshed "https://old" "https://new"
      ("https://old" ∷ "https://other" ∷ [])
      (uris_of (refresh_redirect_uris "https://old" "https://new" client).0.redirect_uris)
refresh_redirect_uris-IsRefreshed_example =
    refresh_redirect_uris-IsRefreshed "https://old" "https://new" client (refl, (refl, tt))

refresh_redirect_uris_settles_example :
    refresh_redirect_uris "https://old" "https://new"
      (refresh_redirect_uris "https://old" "https://new" client).0
    ≡ ((refresh_redirect_uris "https://old" "https://new" client).0, false)
refresh_redirect_uris_settles_example =
    refresh_redirect_uris_settles "https://old" "https://new" client (refl, (refl, tt))

abbrev admitted : ℕ → RouteCondition
admitted time = record { kind = "Admitted"; status = "True"; last_transition_time = time }

abbrev two_routers : Route
two_routers = record (new_default_route sample) {
  ingress =
      record { host = "late.example"; conditions = admitted 20 ∷ [] }
      ∷ record { host = "early.example"; conditions = admitted 10 ∷ [] }
      ∷ [];
}

get_route_host-HasOldestHost_example : HasOldestHost two_routers (get_route_host two_routers)
get_route_host-HasOldestHost_example = get_route_host-HasOldestHost two_routers

abbrev discovery : Discovery
discovery = record {
  api_present = true;
  config_present = true;
  server_version = ok ("1", "31");
  server_resources = ok [];
  cluster_version = err (status Reason.not_found);
}

abbrev on_plain_kubernetes : ApiServerSpec
on_plain_kubernetes = record {
  version = "1.31";
  kube_version = "1.31";
  is_openshift4 = false;
  is_openshift43_plus = false;
  image_streams = false;
  routes = false;
  console_link = false;
}

api_capabilities-IsConsistent_example : IsConsistent on_plain_kubernetes
unfolding api_capabilities
api_capabilities-IsConsistent_example =
    api_capabilities-IsConsistent plain_semver discovery on_plain_kubernetes refl
