-- ===== src/Controller/Lifecycle.antt =====
-- pkg/controller/hawtio/lifecycle.go, status.go and upgrade.go.
pub mod Laws
use hawtio_operator.Base.{
  ℕ, String, ◌<>◌, Bool, true, false, not, ◌&&◌, ◌||◌, Option, none, some, List, [], ◌∷◌, ◌++◌,
}
use hawtio_operator.Base.{◌==◌, if◌then◌else◌, has}
use hawtio_operator.Base.Int.{pos}
use hawtio_operator.Base.Dict.{Dict, lookup, insert}
use hawtio_operator.Base.Errors.{
  Error, legacy_adopted, requeue, wrapped, formatted, Result, ok, err, is_not_found, is_no_match,
}
use hawtio_operator.Base.Act.{Act, pure, raise, lift, catch, or_fail, ◌>>◌}
use hawtio_operator.Kube.{Time, Key, Object, ObjectMeta, OauthClient}
use hawtio_operator.Kube.Workload.{Deployment, Condition}
use hawtio_operator.Kube.Network.{ConsoleLink}
use hawtio_operator.Api.{Hawtio, HawtioPhase, cluster_type}
use hawtio_operator.Resources.Labels.{label_app_key, label_app_value}
use hawtio_operator.Resources.Oauth.{remove_redirect_uri, new_default_oauth_client}
use hawtio_operator.Resources.ConsoleLink.{new_default_console_link}
use hawtio_operator.Controller.Cluster.{
  Client, Reconciler, Outcome, no_requeue, requeue_now, cluster_wide_name,
}

-- `errors.As(err, &reqErr)`
abbrev pub requeue_delay : Error → Option ℕ
requeue_delay (requeue s n) = some n
requeue_delay (wrapped s e) = requeue_delay e
requeue_delay _ = none

-- The outcome of an error, whose delay is known already.
abbrev pub delayed_outcome : Option ℕ → Error → Result Outcome
delayed_outcome (some n) e = ok (record { requeue = false; requeue_after = pos n })
delayed_outcome none legacy_adopted = ok requeue_now
delayed_outcome none e = err e

-- `handleResultAndError` of an error that is not nil
unfoldable pub handle_error : Error → Result Outcome
handle_error e = delayed_outcome (requeue_delay e) e

-- `isDeploymentFailed`
unfoldable pub is_deployment_failed : List Condition → Bool
is_deployment_failed [] = false
is_deployment_failed (c ∷ cs) =
    c.kind == "Progressing" && c.reason == "ProgressDeadlineExceeded" || is_deployment_failed cs

abbrev pub hawtio_finalizer : String
hawtio_finalizer = "hawt.io/finalizer"

-- `controllerutil.ContainsFinalizer`
abbrev pub has_finalizer : String → Hawtio → Bool
has_finalizer name hawtio = has hawtio.metadata.finalizers name

abbrev remove : String → List String → List String
remove name [] = []
remove name (f ∷ fs) = let rest = remove name fs in if f == name then rest else f ∷ rest

-- `controllerutil.RemoveFinalizer` and `AddFinalizer`, on a finalizer that is there, or is not.
abbrev pub without_finalizer : Hawtio → Hawtio
without_finalizer hawtio = record hawtio {
  metadata = record hawtio.metadata {
    finalizers = remove hawtio_finalizer hawtio.metadata.finalizers;
  };
}

abbrev pub with_finalizer : Hawtio → Hawtio
with_finalizer hawtio = record hawtio {
  metadata = record hawtio.metadata {
    finalizers = hawtio.metadata.finalizers ++ hawtio_finalizer ∷ [];
  };
}

abbrev pub with_phase : HawtioPhase → Hawtio → Hawtio
with_phase phase hawtio = record hawtio { status = record hawtio.status { phase = phase } }

abbrev none_if_not_found : Result Hawtio → Result (Option Hawtio)
none_if_not_found (ok hawtio) = ok (some hawtio)
none_if_not_found (err e) = if is_not_found e then ok none else err e

abbrev app_label : {A : Type 0} → Object A → A → Option String
app_label object a = lookup label_app_key (object.meta a).labels

-- The object with the label that the cache selects by.
abbrev pub labelled : {A : Type 0} → Object A → A → A
labelled object a =
    let m = object.meta a in
    object.with_meta a (record m { labels = insert label_app_key label_app_value m.labels })

abbrev pub is_labelled : {A : Type 0} → Object A → A → Bool
is_labelled object a = elim (app_label object a) [ none ↦ false | some v ↦ v == label_app_value ]

module _ {W A : Type 0} (client : Client W A) where
  abbrev pub adopt_found : A → Result A → Act W A
  adopt_found a (err e) = if is_not_found e then pure a else raise e
  adopt_found a (ok b) =
      if is_labelled client.object b
      then pure b
      else client.update (labelled client.object b) >> raise legacy_adopted

  abbrev pub key_of : A → Key
  key_of a = let m = client.object.meta a in record { namespace = m.namespace; name = m.name }

  -- `adoptLegacyResource`, with the object as it is read into `obj`; `Client.read` is the reader that
  -- passes the cache by.
  unfoldable pub adopt_legacy_resource : A → Act W A
  adopt_legacy_resource a = catch (client.read (key_of a)) (adopt_found a)

module _ {W V : Type 0} (r : Reconciler W V) where
  -- `fetchHawtio`
  unfoldable pub fetch_hawtio : Key → Act W (Option Hawtio)
  fetch_hawtio key = catch (r.hawtios.get key) λ found. lift (none_if_not_found found)

  -- `addFinalizer`: whether the resource was changed.
  unfoldable pub add_finalizer : Hawtio → Act W Bool
  add_finalizer hawtio =
      if has_finalizer hawtio_finalizer hawtio
      then pure false
      else or_fail "failed to update finalizer" (r.hawtios.patch hawtio (with_finalizer hawtio))
          true

  -- `setHawtioPhase`
  unfoldable pub set_hawtio_phase : Hawtio → HawtioPhase → Act W (Unit {0})
  set_hawtio_phase hawtio phase =
      if hawtio.status.phase == phase
      then pure tt
      else or_fail ("failed to update hawtio phase to " <> phase)
          (r.status_patch hawtio (with_phase phase hawtio)) tt

  -- The removal of the resource's URL from the OAuth client that was read, if any.
  abbrev release_found : Hawtio → Result OauthClient → Act W (Unit {0})
  release_found hawtio (err e) =
      if is_not_found e then pure tt else raise (formatted "failed to get OAuth client" e)
  release_found hawtio (ok oc) =
      let (oc', updated) = remove_redirect_uri oc hawtio.status.url in
      if updated
      then or_fail "failed to remove redirect URI from OAuth client" (r.oauth_clients.update oc') tt
      else pure tt

  -- The step of `deletion` for a resource of the type Cluster.
  unfoldable pub release_oauth_client : Hawtio → Key → Act W (Unit {0})
  release_oauth_client hawtio key =
      catch (r.oauth_clients.get (record { namespace = ""; name = cluster_wide_name key }))
        (release_found hawtio)

  abbrev pub link_deleted : Result (Unit {0}) → Result (Unit {0})
  link_deleted (ok _) = ok tt
  link_deleted (err e) =
      if is_not_found e || is_no_match e
      then ok tt
      else err (formatted "failed to delete console link" e)

  unfoldable pub delete_console_link : Key → Act W (Unit {0})
  delete_console_link key =
      catch (r.console_links.delete (new_default_console_link (cluster_wide_name key)))
        λ deleted. lift (link_deleted deleted)

  -- The clean-up of the cluster-wide objects.
  unfoldable pub clean_up : Hawtio → Key → Act W (Unit {0})
  unfolding release_oauth_client delete_console_link
  clean_up hawtio key =
      if r.api_spec.is_openshift4
      then (if hawtio.spec.kind == cluster_type then release_oauth_client hawtio key else pure tt)
        >> delete_console_link key
      else pure tt

  unfoldable pub remove_finalizer : Hawtio → Act W (Unit {0})
  remove_finalizer hawtio =
      if has_finalizer hawtio_finalizer hawtio
      then or_fail "failed to remove finalizer" (r.hawtios.patch hawtio (without_finalizer hawtio))
          tt
      else pure tt

  -- `deletion`
  unfoldable pub deletion : Hawtio → Key → Act W (Unit {0})
  unfolding clean_up remove_finalizer
  deletion hawtio key =
      if has_finalizer "foregroundDeletion" hawtio
      then pure tt
      else (clean_up hawtio key >> remove_finalizer hawtio)

  abbrev pub deleted_if : Option Time → Act W (Unit {0}) → Act W Bool
  deleted_if none m = pure false
  deleted_if (some t) m = or_fail "deletion failed" m true

  -- `handleDeletion`: whether the resource is being deleted.
  unfoldable pub handle_deletion : Hawtio → Key → Act W Bool
  unfolding deletion
  handle_deletion hawtio key = deleted_if hawtio.metadata.deletion_timestamp (deletion hawtio key)
