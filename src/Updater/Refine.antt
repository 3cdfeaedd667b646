-- ===== src/Updater/Refine.antt =====
-- pkg/updater/poller.go: the poller as a keeper of one pair of digests.
use mathlib.Core.Path.{subst}
use hawtio_operator.Base.{
  ℕ, zero, suc, String, Bool, true, false, not, ◌||◌, ◌≡◌, ◌≢◌, refl, arith, eq_iff, Option, none,
  some,
}
use hawtio_operator.Base.{◌==◌, if◌then◌else◌}
use hawtio_operator.Base.Errors.{Result, ok, err}
use hawtio_operator.Updater.{
  RegistryPoller, Registry, Schedule, store_digests, digests_checked, check_registry, tick,
  get_latest_digest, check_gateway,
}
use hawtio_operator.Updater.Laws.{AnswersDigests, IsDigest, get_latest_digest-IsDigest}

-- What is known of the registry: nothing, or the digests of both images.
abbrev pub Known : Type 0
Known = Option (String × String)

abbrev is_new : Known → String × String → Bool
is_new none pair = true
is_new (some (a, b)) (online, gateway) = not (a == online) || not (b == gateway)

-- A round of the specification: two answers replace what is known, and are told if they are new; else nothing changes.
abbrev pub round : Result String → Result String → Known → Known × Bool
round (ok online) (ok gateway) k = (some (online, gateway), is_new k (online, gateway))
round _ _ k = (k, false)

module _ {W R : Type 0} (registry : Registry W R) where
  abbrev pub gateway_round : Schedule → Known → Result String × W → (Known × Bool) × W
  gateway_round s k (err e, w) = ((k, false), w)
  gateway_round s k (ok online, w) =
      let (answer, v) = get_latest_digest registry s.gateway_image_url w in
      (round (ok online) answer k, v)

  -- The rounds of the specification, one at each tick: what is known, and how often it was told.
  unfoldable pub rounds : ℕ → Schedule → Known → ℕ → W → (Known × ℕ) × W
  rounds zero s k told w = ((k, told), w)
  rounds (suc ticks) s k told w =
      let ((k', new), v) = gateway_round s k (get_latest_digest registry s.online_image_url w) in
      rounds ticks s k' (if new then suc told else told) v

-- A poller stands for what is known if it has both digests, or none where nothing is known.
abbrev pub StandsFor : RegistryPoller → Known → Type 0
StandsFor p none = (p.online_digest ≡ "") × (p.gateway_digest ≡ "")
StandsFor p (some (online, gateway)) =
    (p.online_digest ≡ online) × (p.gateway_digest ≡ gateway) × (online ≢ "") × (gateway ≢ "")

-- Two runs agree: on what is known, on what was told, and on the world that they leave.
abbrev pub Agree : {W A : Type 0} → (RegistryPoller × A) × W → (Known × A) × W → Type 0
Agree ((p, a), w) ((k, b), v) = StandsFor p k × (a ≡ b) × (w ≡ v)

digests_checked_refines :
    {W : Type 0} (a b : Result String) (p : RegistryPoller) (k : Known) (w : W)
    → IsDigest a
    → IsDigest b
    → StandsFor p k
    → Agree (digests_checked a b p, w) (round a b k, w)
unfolding digests_checked store_digests
digests_checked_refines (err e) b p k w ha hb h = (h, refl, refl)
digests_checked_refines (ok online) (err e) p k w ha hb h = (h, refl, refl)
digests_checked_refines (ok online) (ok gateway) p none w ha hb (none_on, none_gw) =
    ((refl, refl, ha, hb), ground (arith, eq_iff p.online_digest online, ha), refl)
digests_checked_refines (ok online) (ok gateway) p (some (a, b)) w ha hb (on, gw, _, _) =
    ((refl, refl, ha, hb), rw (on, gw) refl, refl)

module _ {W R : Type 0} (registry : Registry W R) (answers : AnswersDigests registry) where
  check_gateway_refines :
      (s : Schedule) (p : RegistryPoller) (k : Known) (a : Result String × W)
      → IsDigest a.0
      → StandsFor p k
      → Agree (check_gateway registry s p a) (gateway_round registry s k a)
  unfolding digests_checked
  check_gateway_refines s p k (err e, w) ha h = (h, refl, refl)
  check_gateway_refines s p k (ok online, w) ha h =
      let (answer, v) = get_latest_digest registry s.gateway_image_url w in
      digests_checked_refines (ok online) answer p k v ha
        (get_latest_digest-IsDigest registry answers s.gateway_image_url w) h

  -- A poller that stands for what is known makes the rounds of the specification: at every number of ticks it stands for
  -- what is then known, has sent an event whenever there was something new, and has asked the registry
  -- the same questions, when the registry's digests are not empty.
  pub tick_refines :
      (ticks : ℕ) (s : Schedule) (p : RegistryPoller) (k : Known) (events : ℕ) (w : W)
      → StandsFor p k
      → Agree (tick registry ticks s p events w) (rounds registry ticks s k events w)
  unfolding tick check_registry rounds
  tick_refines zero s p k events w h = (h, refl, refl)
  tick_refines (suc ticks) s p k events w h =
      let ((p', sent), v) = check_registry registry s p w in
      let ((k', new), u) =
        gateway_round registry s k (get_latest_digest registry s.online_image_url w) in
      let (stands, same_event, same_world) =
        check_gateway_refines s p k (get_latest_digest registry s.online_image_url w)
          (get_latest_digest-IsDigest registry answers s.online_image_url w) h in
      subst
        (λ (x : Bool × W).
          Agree (tick registry ticks s p' (if sent then suc events else events) v)
            (rounds registry ticks s k' (if x.0 then suc events else events) x.1))
        (λ i. (same_event i, same_world i))
        (tick_refines ticks s p' k' (if sent then suc events else events) v stands)
