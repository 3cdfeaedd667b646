-- ===== src/Controller/Lifecycle/Laws.antt =====
-- pkg/controller/hawtio/lifecycle.go and upgrade.go: errors, adoption, and the order of a deletion.
use mathlib.Core.Path.{subst}
use hawtio_operator.Base.{
  ℕ, String, true, false, ◌≡◌, ◌≢◌, ◌↔◌, ◌⊎◌, inl, inr, refl, sym, ap, ◌∙◌, Option, none, some,
  Option-cases,
}
use hawtio_operator.Base.{◌==◌, if◌then◌else◌}
use hawtio_operator.Base.Int.{pos}
use hawtio_operator.Base.Dict.{lookup, lookup-insert}
use hawtio_operator.Base.Errors.{
  Error, legacy_adopted, requeue, wrapped, status, message, formatted, Result, ok, err,
  ok-injective,
}
use hawtio_operator.Base.Act.{pure, ◌>>◌, >>=-eq-ok}
use hawtio_operator.Kube.{Key, ObjectMeta}
use hawtio_operator.Api.{Hawtio, cluster_type}
use hawtio_operator.Resources.Labels.{label_app_key, label_app_value}
use hawtio_operator.Controller.Cluster.{Client, Reconciler, Outcome, requeue_now}
use hawtio_operator.Controller.Lifecycle.{
  requeue_delay, delayed_outcome, handle_error, key_of, labelled, is_labelled,
  adopt_legacy_resource, deletion, clean_up, remove_finalizer, delete_console_link,
  release_oauth_client, has_finalizer,
}

abbrev pub after : ℕ → Outcome
after n = record { requeue = false; requeue_after = pos n }

-- The errors that ask for another call after a delay: a request itself, or one that `%w` wraps, however deep.
pub data AsksFor (n : ℕ) : Error → Type 0 where
  itself : (s : String) → AsksFor n (requeue s n)
  within : (s : String) (e : Error) → AsksFor n e → AsksFor n (wrapped s e)

requeue_delay-AsksFor : (n : ℕ) (e : Error) → requeue_delay e ≡ some n → AsksFor n e
requeue_delay-AsksFor n (requeue s m) h =
    let same : m ≡ n = cc in subst (λ k. AsksFor n (requeue s k)) (sym same) (itself s)
requeue_delay-AsksFor n (wrapped s e) h = within s e (requeue_delay-AsksFor n e h)
requeue_delay-AsksFor n (status x) h = cc
requeue_delay-AsksFor n (message s) h = cc
requeue_delay-AsksFor n legacy_adopted h = cc
requeue_delay-AsksFor n (formatted s e) h = cc

AsksFor-delay : (n : ℕ) (e : Error) → AsksFor n e → requeue_delay e ≡ some n
AsksFor-delay n (requeue s m) (itself _) = refl
AsksFor-delay n (wrapped s e) (within _ _ h) = AsksFor-delay n e h
AsksFor-delay n (status x) h = elim h [ ]
AsksFor-delay n (message s) h = elim h [ ]
AsksFor-delay n legacy_adopted h = elim h [ ]
AsksFor-delay n (formatted s e) h = elim h [ ]

-- What is reported of an error whose delay is known.
delayed-ok : (d : Option ℕ) (e : Error) (n : ℕ) → delayed_outcome d e ≡ ok (after n) → d ≡ some n
delayed-ok (some m) e n h =
    let delay : pos m ≡ pos n = ap (λ o. o.requeue_after) (ok-injective h) in cc
delayed-ok none legacy_adopted n h = cc
delayed-ok none (status x) n h = cc
delayed-ok none (message s) n h = cc
delayed-ok none (requeue s m) n h = cc
delayed-ok none (wrapped s e) n h = cc
delayed-ok none (formatted s e) n h = cc

delayed-now : (d : Option ℕ) (e : Error) → delayed_outcome d e ≡ ok requeue_now → e ≡ legacy_adopted
delayed-now (some m) e h = cc
delayed-now none legacy_adopted h = refl
delayed-now none (status x) h = cc
delayed-now none (message s) h = cc
delayed-now none (requeue s m) h = cc
delayed-now none (wrapped s e) h = cc
delayed-now none (formatted s e) h = cc

delayed-err : (e : Error) → e ≢ legacy_adopted → delayed_outcome none e ≡ err e
delayed-err legacy_adopted h = absurd (h refl)
delayed-err (status x) h = refl
delayed-err (message s) h = refl
delayed-err (requeue s m) h = refl
delayed-err (wrapped s e) h = refl
delayed-err (formatted s e) h = refl

-- `handleResultAndError` asks for a call after a delay exactly for the errors that carry that delay, through any
-- number of wrappings; for a call at once exactly for the sentinel of an adoption, which no wrapping hides;
-- and it reports each other error as it is.
pub handle_error-reports :
    (e : Error)
    → ((n : ℕ) → (handle_error e ≡ ok (after n)) ↔ AsksFor n e)
      × ((handle_error e ≡ ok requeue_now) ↔ (e ≡ legacy_adopted))
      × (((n : ℕ) → ¬ AsksFor n e) → e ≢ legacy_adopted → handle_error e ≡ err e)
unfolding handle_error
handle_error-reports e = (
  λ n. (
    λ h. requeue_delay-AsksFor n e (delayed-ok (requeue_delay e) e n h),
    λ h. ap (λ d. delayed_outcome d e) (AsksFor-delay n e h),
  ),
  (delayed-now (requeue_delay e) e, λ h. rw h refl),
  λ none_asked other. elim (Option-cases (requeue_delay e)) [
    | inl h ↦ ap (λ d. delayed_outcome d e) h ∙ delayed-err e other
    | inr (n, h) ↦ absurd (none_asked n (requeue_delay-AsksFor n e h))
  ],
)

module _ {W A : Type 0} (client : Client W A) where
  -- What an API server documents: an object's metadata are those it was given, and a read after an update
  -- that succeeds finds the object's label as it was written.
  pub record Faithful : Type 0 where
    pub meta_kept : (a : A) (m : ObjectMeta) → client.object.meta (client.object.with_meta a m) ≡ m
    pub reads_written :
        (b c : A) (w v : W)
        → client.update b w ≡ (ok c, v)
        → (d : A) × (client.read (key_of client b) v ≡ (ok d, v))
          × ((client.object.meta d).labels ≡ (client.object.meta b).labels)

  module _ (faithful : Faithful) where
    is_labelled-labels :
        (d b : A)
        → (client.object.meta d).labels ≡ (client.object.meta (labelled client.object b)).labels
        → is_labelled client.object d ≡ true
    is_labelled-labels d b e =
        let m = client.object.meta b in
        let written = lookup-insert label_app_key label_app_key label_app_value m.labels in
        let there : lookup label_app_key (client.object.meta d).labels ≡ some label_app_value =
          ap (lookup label_app_key) (e ∙ ap (λ (o : ObjectMeta). o.labels) (faithful.meta_kept b _))
          ∙ written in
        rw (is_labelled, there) refl

    -- The adoption of an object that lacks the operator's label writes the label and asks for another call; that
    -- call's adoption finds the label, and writes nothing: adoption never loops.
    pub adopt_legacy_resource-once :
        (a b c : A) (w u v : W)
        → client.read (key_of client a) w ≡ (ok b, u)
        → key_of client b ≡ key_of client a
        → is_labelled client.object b ≡ false
        → client.update (labelled client.object b) u ≡ (ok c, v)
        → (adopt_legacy_resource client a w ≡ (err legacy_adopted, v))
          × ((d : A) × (adopt_legacy_resource client a v ≡ (ok d, v)))
    unfolding adopt_legacy_resource
    adopt_legacy_resource-once a b c w u v found same bare written =
        let (d, readable, labels) =
          faithful.reads_written (labelled client.object b) c u v written in
        let keys : key_of client (labelled client.object b) ≡ key_of client a =
          ap (λ (m : ObjectMeta). record { namespace = m.namespace; name = m.name })
            (faithful.meta_kept b _)
          ∙ same in
        let again : client.read (key_of client a) v ≡ (ok d, v) = rw keys at readable in
        (rw (found, bare, written) refl, (d, rw (again, is_labelled-labels d b labels) refl))

answer-cases :
    {W A : Type 0} (x : Result A × W)
    → ((e : Error) × (u : W) × (x ≡ (err e, u))) ⊎ ((a : A) × (u : W) × (x ≡ (ok a, u)))
answer-cases (err e, u) = inl (e, u, refl)
answer-cases (ok a, u) = inr (a, u, refl)

module _ {W V : Type 0} (r : Reconciler W V) (hawtio : Hawtio) (key : Key) where
  -- A deletion on OpenShift, unless it waits for its dependents, lets the resource go only after its console link:
  -- either the clean-up fails, and the deletion fails with it in the world that it left, or the finalizer is
  -- removed from a world in which the removal of the link has succeeded, as `P` says.
  pub deletion-releases :
      (P : W → Type 0)
      → ((w v : W) → delete_console_link r key w ≡ (ok tt, v) → P v)
      → r.api_spec.is_openshift4 ≡ true
      → has_finalizer "foregroundDeletion" hawtio ≡ false
      → (w : W)
      → ((e : Error) × (u : W) × (clean_up r hawtio key w ≡ (err e, u))
          × (deletion r hawtio key w ≡ (err e, u)))
        ⊎ ((u : W) × P u × (deletion r hawtio key w ≡ remove_finalizer r hawtio u))
  unfolding deletion clean_up
  deletion-releases P gone openshift background w =
      let release =
        if hawtio.spec.kind == cluster_type then release_oauth_client r hawtio key else pure tt in
      elim (answer-cases (clean_up r hawtio key w)) [
        | inl (e, u, failed) ↦ inl (e, u, failed, rw (background, failed) refl)
        | inr (_, u, cleaned) ↦
            let steps : (release >> delete_console_link r key) w ≡ (ok tt, u) =
              rw openshift at cleaned in
            let (_, t, _, deleted) = >>=-eq-ok release (λ _. delete_console_link r key) w steps in
            inr (u, gone t u deleted, rw (background, cleaned) refl)
      ]
