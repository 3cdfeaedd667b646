-- ===== src/Updater/Laws.antt =====
-- pkg/updater/poller.go: what the poller's state tells the controller.
use mathlib.Core.Path.{subst}
use hawtio_operator.Base.{
  ℕ, zero, suc, ◌≤◌, String, Bool, false, Option, none, some, ◌≡◌, ◌≢◌, ◌⊎◌, refl, sym, inl, inr,
  arith, eq_iff,
}
use hawtio_operator.Base.{if◌then◌else◌}
use hawtio_operator.Base.Int.{pos}
use hawtio_operator.Base.Errors.{Result, ok, err}
use hawtio_operator.Base.Act.{Act, after, lift, catch}
use hawtio_operator.Updater.{
  RegistryPoller, Registry, Schedule, new_poller, store_digests, digests_checked, check_registry,
  tick, start, start_every, get_latest_digest, head_answer, check_gateway,
}

-- The two digests are known together: both are empty, before the first check that succeeds, or neither is.
unfoldable pub AreSynchronized : RegistryPoller → Type 0
AreSynchronized p =
    ((p.online_digest ≡ "") × (p.gateway_digest ≡ ""))
    ⊎ ((p.online_digest ≢ "") × (p.gateway_digest ≢ ""))

-- The registry never answers with an empty digest.
abbrev pub AnswersDigests : {W R : Type 0} → Registry W R → Type 0
AnswersDigests {W} {R} registry =
    (ref : R) (w : W) (d : String) → (registry.head ref w).0 ≡ ok d → d ≢ ""

abbrev pub IsDigest : Result String → Type 0
IsDigest (ok d) = d ≢ ""
IsDigest (err e) = Unit

digests_checked-AreSynchronized :
    (a b : Result String) (p : RegistryPoller)
    → IsDigest a
    → IsDigest b
    → AreSynchronized p
    → AreSynchronized (digests_checked a b p).0
unfolding AreSynchronized digests_checked store_digests
digests_checked-AreSynchronized (err e) b p ha hb u = u
digests_checked-AreSynchronized (ok d) (err e) p ha hb u = u
digests_checked-AreSynchronized (ok d) (ok g) p ha hb u = inr (ha, hb)

head_answer-IsDigest :
    (r : Result String) → ((d : String) → r ≡ ok d → d ≢ "") → IsDigest (head_answer r)
head_answer-IsDigest (ok d) h = h d refl
head_answer-IsDigest (err e) h = tt

after-IsDigest :
    {W R : Type 0} (r : Result R × W) (f : R → Act W String)
    → ((ref : R) (w : W) → IsDigest (f ref w).0)
    → IsDigest (after r f).0
after-IsDigest (ok ref, w) f h = h ref w
after-IsDigest (err e, w) f h = tt

-- The poller does not panic, and its state is then as told.
abbrev pub Runs :
    {W : Type 0} → (RegistryPoller → Type 0) → Option ((RegistryPoller × ℕ) × W) → Type 0
Runs P none = ⊥
Runs P (some ((p, events), w)) = P p

module _ {W R : Type 0} (registry : Registry W R) (answers : AnswersDigests registry) where
  pub get_latest_digest-IsDigest :
      (url : String) (w : W) → IsDigest (get_latest_digest registry url w).0
  unfolding get_latest_digest
  get_latest_digest-IsDigest url w =
      after-IsDigest (lift (registry.parse_reference url) w)
        (λ ref. catch (registry.head ref) λ answer. lift (head_answer answer))
        (λ ref v. head_answer-IsDigest (registry.head ref v).0 (answers ref v))

  check_gateway-AreSynchronized :
      (s : Schedule) (p : RegistryPoller) (a : Result String × W)
      → IsDigest a.0
      → AreSynchronized p
      → AreSynchronized (check_gateway registry s p a).0.0
  check_gateway-AreSynchronized s p (err e, w) h u =
      digests_checked-AreSynchronized (err e) (err e) p tt tt u
  check_gateway-AreSynchronized s p (ok d, w) h u =
      digests_checked-AreSynchronized (ok d) (get_latest_digest registry s.gateway_image_url w).0 p
        h (get_latest_digest-IsDigest s.gateway_image_url w) u

  check_registry-AreSynchronized :
      (s : Schedule) (p : RegistryPoller) (w : W)
      → AreSynchronized p
      → AreSynchronized (check_registry registry s p w).0.0
  unfolding check_registry
  check_registry-AreSynchronized s p w u =
      check_gateway-AreSynchronized s p (get_latest_digest registry s.online_image_url w)
        (get_latest_digest-IsDigest s.online_image_url w) u

  tick-AreSynchronized :
      (ticks : ℕ) (s : Schedule) (p : RegistryPoller) (events : ℕ) (w : W)
      → AreSynchronized p
      → AreSynchronized (tick registry ticks s p events w).0.0
  unfolding tick
  tick-AreSynchronized zero s p events w u = u
  tick-AreSynchronized (suc ticks) s p events w u =
      let ((p', sent), w') = check_registry registry s p w in
      tick-AreSynchronized ticks s p' (if sent then suc events else events) w'
        (check_registry-AreSynchronized s p w u)

  start_every-AreSynchronized :
      (i ticks : ℕ) (s : Schedule) (w : W)
      → Runs AreSynchronized (start_every registry (pos i) ticks s new_poller w)
  unfolding AreSynchronized
  start_every-AreSynchronized zero ticks s w = inl (refl, refl)
  start_every-AreSynchronized (suc i) ticks s w =
      tick-AreSynchronized (suc ticks) s new_poller 0 w (inl (refl, refl))

  -- From its start, and whatever the registry answers at each tick, the poller runs and knows the digests of
  -- both images or of neither, when its interval is not negative and the registry's digests are not empty.
  pub start-AreSynchronized :
      (ticks i : ℕ) (s : Schedule) (w : W)
      → s.interval ≡ pos i
      → Runs AreSynchronized (start registry ticks s new_poller w)
  unfolding start
  start-AreSynchronized ticks i s w e =
      subst (λ x. Runs AreSynchronized (start_every registry x ticks s new_poller w)) (sym e)
        (start_every-AreSynchronized i ticks s w)

module _ {W R : Type 0} (registry : Registry W R) where
  -- A check that sends no event leaves the digests as they were, and one that sends an event counts it.
  abbrev Noticed : RegistryPoller → RegistryPoller × Bool → Type 0
  Noticed p (q, sent) =
      sent ≡ false → (q.online_digest ≡ p.online_digest) × (q.gateway_digest ≡ p.gateway_digest)

  digests_checked-Noticed :
      (a b : Result String) (p : RegistryPoller) → Noticed p (digests_checked a b p)
  unfolding digests_checked store_digests
  digests_checked-Noticed (err e) b p h = (refl, refl)
  digests_checked-Noticed (ok d) (err e) p h = (refl, refl)
  digests_checked-Noticed (ok d) (ok g) p h =
      ground (arith, eq_iff p.online_digest d, eq_iff p.gateway_digest g)

  check_gateway-Noticed :
      (s : Schedule) (p : RegistryPoller) (a : Result String × W)
      → Noticed p (check_gateway registry s p a).0
  check_gateway-Noticed s p (err e, w) = digests_checked-Noticed (err e) (err e) p
  check_gateway-Noticed s p (ok d, w) =
      digests_checked-Noticed (ok d) (get_latest_digest registry s.gateway_image_url w).0 p

  tick_lem :
      (ticks : ℕ) (s : Schedule) (p : RegistryPoller) (events : ℕ) (w : W)
      → let ((q, sent), _) = tick registry ticks s p events w in
        (events ≤ sent)
        × (sent ≡ events
            → (q.online_digest ≡ p.online_digest) × (q.gateway_digest ≡ p.gateway_digest))
  unfolding tick check_registry
  tick_lem zero s p events w = ground arith
  tick_lem (suc ticks) s p events w =
      let ((p', sent), w') = check_registry registry s p w in
      ground (
        arith,
        check_gateway-Noticed s p (get_latest_digest registry s.online_image_url w),
        tick_lem ticks s p' (if sent then suc events else events) w',
      )

  -- A run of the poller that has sent no further event leaves the digests as they were: a change of
  -- an image is never missed, however the checks succeed and fail.
  pub tick-notices :
      (ticks : ℕ) (s : Schedule) (p : RegistryPoller) (events : ℕ) (w : W)
      → (tick registry ticks s p events w).0.1 ≡ events
      → let q = (tick registry ticks s p events w).0.0 in
        (q.online_digest ≡ p.online_digest) × (q.gateway_digest ≡ p.gateway_digest)
  tick-notices ticks s p events w quiet = (tick_lem ticks s p events w).1 quiet
