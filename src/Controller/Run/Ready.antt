-- ===== src/Controller/Run/Ready.antt =====
-- pkg/controller/hawtio/hawtio_controller.go: what is known of a resource whose objects are reconciled.
use mathlib.Core.Path.{subst}
use hawtio_operator.Base.{
  String, Bool, true, false, ◌||◌, ◌≡◌, ◌≢◌, ◌⊎◌, inl, inr, refl, sym, ap, Option, none, some,
  arith, eq_iff,
}
use hawtio_operator.Base.{◌==◌, if◌then◌else◌, Bool-cases}
use hawtio_operator.Base.Errors.{Result, ok, err, ok-injective}
use hawtio_operator.Base.Act.{
  Act, caught, answered, Yields, Yields-bind, Yields-after, Yields-pure, >>=-eq-ok, pure, catch,
  lift, ◌>>◌,
}
use hawtio_operator.Kube.{Key, Time}
use hawtio_operator.Api.{Hawtio, cluster_type, namespace_type, phase_failed, phase_initialized}
use hawtio_operator.Controller.Cluster.{Reconciler, Outcome, requeue_now, no_requeue}
use hawtio_operator.Controller.Lifecycle.{
  fetch_hawtio, handle_deletion, deletion, deleted_if, add_finalizer, set_hawtio_phase,
  has_finalizer, hawtio_finalizer, with_finalizer,
}
use hawtio_operator.Controller.Defaults.{verify_hawtio_spec_type, verify_rbac_config_map, with_type}
use hawtio_operator.Controller.Run.{
  Progress, stop, go_on, set_up, prepare, initialize, unless, checked_rbac, prepare_found,
}

abbrev HasKnownType : Hawtio → Type 0
HasKnownType h = (h.spec.kind ≡ cluster_type) ⊎ (h.spec.kind ≡ namespace_type)

abbrev HasGoodPhase : Hawtio → Type 0
HasGoodPhase h = (h.status.phase ≢ "") × (h.status.phase ≢ phase_failed)

-- A resource that may be deployed: it is not being deleted, it has the operator's finalizer and a known type, and its
-- phase is set and not a failure.
abbrev pub IsReady : Hawtio → Type 0
IsReady h =
    (h.metadata.deletion_timestamp ≡ none)
    × (has_finalizer hawtio_finalizer h ≡ true)
    × HasKnownType h
    × HasGoodPhase h

abbrev Goes : (Hawtio → Type 0) → Progress Hawtio → Type 0
Goes P (stop outcome) = Unit
Goes P (go_on h) = P h

answered-true :
    {W A : Type 0} (text : String) (answer : Result A × W) {b : Bool} {v : W}
    → caught answer (λ x. lift (answered text x true)) ≡ (ok b, v)
    → b ≡ true
answered-true text (ok a, u) e = sym (ok-injective (ap (λ x. x.0) e))
answered-true text (err x, u) e = cc

deleted_if_lem :
    {W V : Type 0} (r : Reconciler W V) (t : Option Time) (m : Act W (Unit {0})) (w v : W)
    (b : Bool)
    → deleted_if r t m w ≡ (ok b, v)
    → b ≡ false
    → t ≡ none
deleted_if_lem r none m w v b e f = refl
deleted_if_lem r (some t) m w v b e f = cc (answered-true "deletion failed" (m w) e, f)

module _ {W V : Type 0} (r : Reconciler W V) (h : Hawtio) where
  handle_deletion-Yields :
      (key : Key)
      → Yields (λ b. b ≡ false → h.metadata.deletion_timestamp ≡ none) (handle_deletion r h key)
  unfolding handle_deletion
  handle_deletion-Yields key w v b =
      deleted_if_lem r h.metadata.deletion_timestamp (deletion r h key) w v b

  add_finalizer-Yields :
      Yields (λ b. b ≡ false → has_finalizer hawtio_finalizer h ≡ true) (add_finalizer r h)
  unfolding add_finalizer
  add_finalizer-Yields w v b done f = elim (Bool-cases (has_finalizer hawtio_finalizer h)) [
    | inl e ↦ e
    | inr e ↦ cc (
      answered-true "failed to update finalizer" (r.hawtios.patch h (with_finalizer h) w)
          (rw e at done),
      f,
    )
  ]

  verify_hawtio_spec_type-Yields :
      Yields (λ b. b ≡ false → HasKnownType h) (verify_hawtio_spec_type r h)
  unfolding verify_hawtio_spec_type
  verify_hawtio_spec_type-Yields w v b done f = elim (Bool-cases (h.spec.kind == "")) [
    | inl e ↦ cc (
      answered-true "failed to update type" (r.hawtios.patch h (with_type cluster_type h) w)
          (rw e at done),
      f,
    )
    | inr e ↦ elim (Bool-cases (h.spec.kind == namespace_type)) [
      | inl n ↦ inr ((eq_iff h.spec.kind namespace_type).0 n)
      | inr n ↦ elim (Bool-cases (h.spec.kind == cluster_type)) [
        | inl c ↦ inl ((eq_iff h.spec.kind cluster_type).0 c)
        | inr c ↦
            let (_, _, _, raised) =
              >>=-eq-ok (set_hawtio_phase r h phase_failed) _ w (rw (e, n, c) at done) in
            cc raised
      ]
    ]
  ]

  unless-Yields :
      (P : Progress Hawtio → Type 0) (o : Option Outcome) (m : Act W (Progress Hawtio))
      → ((outcome : Outcome) → P (stop outcome))
      → (o ≡ none → Yields P m)
      → Yields P (unless r o m)
  unless-Yields P none m s k = k refl
  unless-Yields P (some outcome) m s k = Yields-pure P (stop outcome) (s outcome)

  abbrev Initialized : Progress Hawtio → Type 0
  Initialized = Goes λ g. (g ≡ h) × HasKnownType h × HasGoodPhase h

  good_phase : (h.status.phase == "" || h.status.phase == phase_failed) ≡ false → HasGoodPhase h
  good_phase e = ground (arith, eq_iff h.status.phase "", eq_iff h.status.phase phase_failed)

  phase-Yields :
      HasKnownType h
      → Yields Initialized (
          if h.status.phase == "" || h.status.phase == phase_failed
          then (set_hawtio_phase r h phase_initialized >> pure (stop requeue_now))
          else pure (go_on h))
  phase-Yields known = elim (Bool-cases (h.status.phase == "" || h.status.phase == phase_failed)) [
    | inl e ↦ rw e (
        Yields-after Initialized (set_hawtio_phase r h phase_initialized) _
          λ _. Yields-pure Initialized (stop requeue_now) tt)
    | inr e ↦ rw e (Yields-pure Initialized (go_on h) (refl, known, good_phase e))
  ]

  passed : (o : Outcome) (b : Bool) → (if b then some o else none) ≡ none → b ≡ false
  passed o true e = cc
  passed o false e = refl

  initialize-Yields : (key : Key) → Yields Initialized (initialize r h key)
  unfolding initialize
  initialize-Yields key =
      Yields-bind (λ b. b ≡ false → HasKnownType h) Initialized (verify_hawtio_spec_type r h) _
        verify_hawtio_spec_type-Yields
        λ b known.
          unless-Yields Initialized (if b then some requeue_now else none) _ (λ o. tt)
            λ fresh.
              Yields-after Initialized
                (catch (verify_rbac_config_map r h key) λ valid. lift (checked_rbac r valid)) _
                λ wait.
                  unless-Yields Initialized wait _ (λ o. tt)
                    λ _. phase-Yields (known (passed requeue_now b fresh))

  Initialized-IsReady :
      h.metadata.deletion_timestamp ≡ none
      → has_finalizer hawtio_finalizer h ≡ true
      → (p : Progress Hawtio) → Initialized p
      → Goes IsReady p
  Initialized-IsReady alive finalizer (stop o) i = tt
  Initialized-IsReady alive finalizer (go_on g) (same, known, phase) =
      subst IsReady (sym same) (alive, finalizer, known, phase)

  prepare-Yields : (key : Key) → Yields (Goes IsReady) (prepare r h key)
  unfolding prepare
  prepare-Yields key =
      Yields-bind (λ b. b ≡ false → h.metadata.deletion_timestamp ≡ none) (Goes IsReady)
        (handle_deletion r h key) _ (handle_deletion-Yields key)
        λ b alive.
          unless-Yields (Goes IsReady) (if b then some no_requeue else none) _ (λ o. tt)
            λ kept.
              Yields-bind (λ c. c ≡ false → has_finalizer hawtio_finalizer h ≡ true) (Goes IsReady)
                (add_finalizer r h) _ add_finalizer-Yields
                λ c finalizer.
                  unless-Yields (Goes IsReady) (if c then some requeue_now else none) _ (λ o. tt)
                    λ present. λ w v p done.
                      Initialized-IsReady (alive (passed no_requeue b kept))
                        (finalizer (passed requeue_now c present)) p
                        (initialize-Yields key w v p done)

module _ {W V : Type 0} (r : Reconciler W V) (key : Key) where
  prepare_found-Yields : (found : Option Hawtio) → Yields (Goes IsReady) (prepare_found r found key)
  prepare_found-Yields none = Yields-pure (Goes IsReady) (stop no_requeue) tt
  prepare_found-Yields (some h) = prepare-Yields r h key

  -- The phases before the deployment go on only with a resource that is not being deleted, has the operator's finalizer and
  -- a known type, and whose phase is set and not a failure: no object is made for another one.
  pub set_up-IsReady : (w v : W) (h : Hawtio) → set_up r key w ≡ (ok (go_on h), v) → IsReady h
  unfolding set_up
  set_up-IsReady w v h done =
      Yields-after (Goes IsReady) (fetch_hawtio r key) _ prepare_found-Yields w v (go_on h) done
