-- ===== src/Controller/Reconcile/Security.antt =====
-- pkg/controller/hawtio/reconcile_security.go: the OAuth client.
use hawtio_operator.Base.{String, Bool, true, false, not, ◌||◌, Option, none, some, List, ◌∷◌}
use hawtio_operator.Base.{◌==◌, if◌then◌else◌}
use hawtio_operator.Base.Errors.{Result, ok, err, is_not_found, is_forbidden}
use hawtio_operator.Base.Act.{Act, pure, raise, catch, ◌>>=◌, ◌>>◌}
use hawtio_operator.Kube.{Key, OauthClient}
use hawtio_operator.Api.{Hawtio, cluster_type}
use hawtio_operator.Util.Metadata.{merge_map}
use hawtio_operator.Resources.Oauth.{
  new_default_oauth_client, new_oauth_client, remove_redirect_uri, refresh_redirect_uris,
}
use hawtio_operator.Controller.Cluster.{
  Reconciler, OperationResult, unchanged, updated, cluster_wide_name,
}
use hawtio_operator.Controller.Defaults.{hydrate_defaults}
use hawtio_operator.Controller.Reconcile.Config.{create_or_adopt}

-- A list that is there but empty counts as stripped only if the source's is not empty.
abbrev restored_uris : Option (List String) → Option (List String) → Option (List String)
restored_uris (some (u ∷ us)) source = some (u ∷ us)
restored_uris hydrated (some (u ∷ us)) = some (u ∷ us)
restored_uris hydrated source = hydrated

unfoldable pub oauth_client_integrity : OauthClient → OauthClient → OauthClient
oauth_client_integrity source hydrated = record hydrated {
  grant_method = if hydrated.grant_method == "" then source.grant_method else hydrated.grant_method;
  redirect_uris = restored_uris hydrated.redirect_uris source.redirect_uris;
}

module _ {W V : Type 0} (r : Reconciler W V) where
  -- The URIs of an object that exists are never overwritten: they are managed one by one.
  unfoldable pub oauth_client_mutated : Hawtio → String → OauthClient → Act W OauthClient
  unfolding hydrate_defaults oauth_client_integrity
  oauth_client_mutated hawtio client_name live = do
    let blueprint = new_oauth_client client_name hawtio
    hydrated ← hydrate_defaults r.oauth_clients r.temporary_suffix blueprint oauth_client_integrity
    let m = live.metadata
    let uris = elim live.redirect_uris as (λ _. Option (List String)) [
      | none ↦ hydrated.redirect_uris
      | some l ↦ some l
    ]
    pure (record {
      metadata = record m { labels = merge_map m.labels blueprint.metadata.labels };
      grant_method = hydrated.grant_method;
      redirect_uris = uris;
    })

  abbrev write_if : Bool → OauthClient → OperationResult → Act W OperationResult
  write_if true oc done = r.oauth_clients.update oc >> pure updated
  write_if false oc done = pure done

  -- The clean-up for a resource that is not of the type Cluster, from what was found.
  abbrev release : String → Result OauthClient → Act W OperationResult
  release url (err e) = if is_not_found e || is_forbidden e then pure unchanged else raise e
  release url (ok oc) =
      let (oc', changed) = remove_redirect_uri oc url in write_if changed oc' unchanged

  -- The read, the change and the write of the redirect URIs.
  unfoldable pub refresh : String → String → String → OperationResult → Act W OperationResult
  unfolding refresh_redirect_uris
  refresh client_name old new done = do
    oc ← r.oauth_clients.get (record { namespace = ""; name = client_name })
    let (oc', changed) = refresh_redirect_uris old new oc
    write_if changed oc' done

  -- `reconcileOAuthClient`
  unfoldable pub reconcile_oauth_client : Hawtio → String → Key → Act W OperationResult
  unfolding oauth_client_mutated create_or_adopt refresh
  reconcile_oauth_client hawtio url key =
      let client_name = cluster_wide_name key in
      if not r.api_spec.is_openshift4
      then pure unchanged
      else (if not (hawtio.spec.kind == cluster_type)
          then catch (r.oauth_clients.get (record { namespace = ""; name = client_name }))
              (release url)
          else (create_or_adopt r.oauth_clients (new_default_oauth_client client_name)
                (oauth_client_mutated hawtio client_name)
              >>= λ (_, done). refresh client_name hawtio.status.url url done))
