-- ===== src/Resources/Oauth.antt =====
-- pkg/resources/oauthclient.go, and the step of `reconcileOAuthClient` that keeps the redirect URIs
-- (pkg/controller/hawtio/reconcile_security.go).
pub mod Laws
use hawtio_operator.Base.{
  ℕ, zero, suc, String, Bool, true, false, not, ◌&&◌, Option, none, some, List, [], ◌∷◌, ◌++◌,
}
use hawtio_operator.Base.{◌==◌, if◌then◌else◌, take, drop}
use hawtio_operator.Kube.{ObjectMeta, OauthClient, named}
use hawtio_operator.Api.{Hawtio}
use hawtio_operator.Resources.Labels.{resource_labels, propagate}
use mathlib.Core.Option

-- `NewDefaultOAuthClient`
abbrev pub new_default_oauth_client : String → OauthClient
new_default_oauth_client name = record {
  metadata = named name "";
  grant_method = "";
  redirect_uris = none;
}

-- `NewOAuthClient`
abbrev pub new_oauth_client : String → Hawtio → OauthClient
new_oauth_client name hawtio =
    let client = new_default_oauth_client name in
    record client {
      grant_method = "auto";
      metadata = record (named name "") { labels = resource_labels hawtio };
    }

-- A nil list is ranged over as an empty one.
abbrev pub uris_of : Option (List String) → List String
uris_of none = []
uris_of (some l) = l

index_of : String → List String → Option ℕ
index_of uri [] = none
index_of uri (u ∷ l) =
    let rest = Option.map suc (index_of uri l) in if u == uri then some zero else rest

-- `OauthClientContainsRedirectURI`: `none` is (false, -1).
unfoldable pub contains_redirect_uri : OauthClient → String → Option ℕ
unfolding index_of
contains_redirect_uri oc uri = index_of uri (uris_of oc.redirect_uris)

-- `RemoveRedirectURIFromOauthClient`
unfoldable pub remove_redirect_uri : OauthClient → String → OauthClient × Bool
unfolding contains_redirect_uri
remove_redirect_uri oc uri = elim (contains_redirect_uri oc uri) [
  | none ↦ (oc, false)
  | some i ↦
      let l = uris_of oc.redirect_uris in
      (record oc { redirect_uris = some (take i l ++ drop (suc i) l) }, true)
]

-- `append(oc.RedirectURIs, uri)`
abbrev append_uri : OauthClient → String → OauthClient
append_uri oc uri = record oc { redirect_uris = some (uris_of oc.redirect_uris ++ uri ∷ []) }

-- The removal of a stale URL: the client, and whether it has changed.
unfoldable pub drop_stale : String → String → OauthClient → OauthClient × Bool
unfolding remove_redirect_uri
drop_stale old new oc =
    if not (old == "") && not (old == new) then remove_redirect_uri oc old else (oc, false)

-- The addition of the current URL.
unfoldable pub add_current : String → OauthClient × Bool → OauthClient × Bool
unfolding contains_redirect_uri
add_current new (oc, updated) = elim (contains_redirect_uri oc new) [
  | some i ↦ (oc, updated)
  | none ↦ if new == "" then (oc, updated) else (append_uri oc new, true)
]

-- What `reconcileOAuthClient` does to the list that it has read, and whether it then writes it.
unfoldable pub refresh_redirect_uris : String → String → OauthClient → OauthClient × Bool
unfolding drop_stale add_current
refresh_redirect_uris old new oc = add_current new (drop_stale old new oc)
