-- ===== src/Updater.antt =====
-- pkg/updater: the poller that keeps the digests of the images of the registry.
pub mod Laws
pub mod Refine
use hawtio_operator.Base.{
  ℕ, zero, suc, ◌+◌, String, Bool, true, false, not, ◌||◌, Option, none, some,
}
use hawtio_operator.Base.{◌==◌, if◌then◌else◌}
use hawtio_operator.Base.Int.{ℤ, pos, negsuc}
use hawtio_operator.Base.Dict.{Dict, lookup}
use hawtio_operator.Base.Errors.{Error, Result, ok, err, formatted}
use hawtio_operator.Base.Act.{Act, lift, catch, ◌>>=◌}

-- The state of a `RegistryPoller` that its lock guards.
pub record RegistryPoller : Type 0 where
  pub online_digest : String
  pub gateway_digest : String
  pub last_error : Option Error

abbrev pub new_poller : RegistryPoller
new_poller = record { online_digest = ""; gateway_digest = ""; last_error = none }

-- `RequestDigests`
abbrev pub request_digests : RegistryPoller → String × String × Option Error
request_digests p = (p.online_digest, p.gateway_digest, p.last_error)

-- The registry as the code sees it: the parser of image references, and the request for a digest.
pub record Registry (W R : Type 0) : Type 0 where
  pub parse_reference : String → Result R
  pub head : R → Act W String

-- What the operator asks of the poller: the images to follow, and the interval (0 for never).
pub record Schedule : Type 0 where
  pub interval : ℤ
  pub online_image_url : String
  pub gateway_image_url : String

-- The state after a check that found both digests, and whether an event was sent.
unfoldable pub store_digests : String → String → RegistryPoller → RegistryPoller × Bool
store_digests online gateway p =
    let online_changed = not (p.online_digest == online) in
    let gateway_changed = not (p.gateway_digest == gateway) in
    (
      record { online_digest = online; gateway_digest = gateway; last_error = none },
      online_changed || gateway_changed,
    )

-- The state after a check, from what the registry answered for the two images. A failure skips the
-- cycle: it keeps the digests, and sends no event.
unfoldable pub digests_checked :
    Result String → Result String → RegistryPoller → RegistryPoller × Bool
unfolding store_digests
digests_checked (err e) _ p = (record p { last_error = some e }, false)
digests_checked (ok online) (err e) p = (record p { last_error = some e }, false)
digests_checked (ok online) (ok gateway) p = store_digests online gateway p

abbrev pub head_answer : Result String → Result String
head_answer (ok digest) = ok digest
head_answer (err e) = err (formatted "registry connection failed or timed out" e)

module _ {W R : Type 0} (registry : Registry W R) where
  -- `GetLatestDigest`
  unfoldable pub get_latest_digest : String → Act W String
  get_latest_digest image_url = do
    ref ← lift (registry.parse_reference image_url)
    catch (registry.head ref) λ answer. lift (head_answer answer)

  -- The second question of a check, which is asked only if the first was answered.
  abbrev pub check_gateway :
      Schedule → RegistryPoller → Result String × W → (RegistryPoller × Bool) × W
  check_gateway s p (err e, w) = (digests_checked (err e) (err e) p, w)
  check_gateway s p (ok online, w) =
      let (answer, w') = get_latest_digest s.gateway_image_url w in
      (digests_checked (ok online) answer p, w')

  -- `checkRegistry`: the poller's state, and whether it sent an event.
  unfoldable pub check_registry : Schedule → RegistryPoller → W → (RegistryPoller × Bool) × W
  unfolding get_latest_digest digests_checked
  check_registry s p w = check_gateway s p (get_latest_digest s.online_image_url w)

  -- The ticks that pass before the context is done, and the number of events.
  unfoldable pub tick : ℕ → Schedule → RegistryPoller → ℕ → W → (RegistryPoller × ℕ) × W
  unfolding check_registry
  tick zero s p events w = ((p, events), w)
  tick (suc ticks) s p events w =
      let ((p', sent), w') = check_registry s p w in
      tick ticks s p' (if sent then suc events else events) w'

  -- `time.NewTicker` panics at a negative interval: `none`.
  abbrev pub start_every : ℤ → ℕ → Schedule → RegistryPoller → W → Option ((RegistryPoller × ℕ) × W)
  start_every (pos zero) ticks s p w = some ((p, 0), w)
  start_every (pos (suc i)) ticks s p w = some (tick (suc ticks) s p 0 w)
  start_every (negsuc i) ticks s p w = none

  -- `Start`, stopped after a number of ticks: the state, and the number of events sent.
  unfoldable pub start : ℕ → Schedule → RegistryPoller → W → Option ((RegistryPoller × ℕ) × W)
  unfolding tick
  start ticks s p w = start_every s.interval ticks s p w

-- A registry's credentials, with the keys of `authn.FromConfig`.
abbrev docker_hub : String
docker_hub = "index.docker.io"

-- `DockerConfigKeychain.Resolve`: `none` is the anonymous authenticator.
unfoldable pub resolve_registry : {A : Type 0} → Dict A → String → Option A
resolve_registry auths registry = elim (lookup registry auths) [
  | some auth ↦ some auth
  | none ↦ if registry == docker_hub then lookup "https://index.docker.io/v1/" auths else none
]
