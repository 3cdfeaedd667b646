-- ===== src/Controller/Timers.antt =====
-- pkg/controller/hawtio/defaults.go and certificate.go: when the next call is due.
use hawtio_operator.Base.{ℕ, zero, suc, ◌*◌, ◌^◌, ◌≤◌, true, ◌≡◌, refl, arith, ◌+◌, ◌-◌}
use hawtio_operator.Base.{leb, if◌then◌else◌}
use hawtio_operator.Base.Int.{ℤ, pos, negsuc, le_int, ◌-ℤ◌, scale, wrap64}
use hawtio_operator.Base.Errors.{ok}
use hawtio_operator.Base.Act.{Yields, Yields-after, Yields-pure}
use hawtio_operator.Api.{Hawtio}
use hawtio_operator.Controller.Cluster.{Reconciler, hour}
use hawtio_operator.Controller.Certificate.{certificate_expiry_period, time_to_rotation}
use hawtio_operator.Controller.Defaults.{
  requeue_timer, max_requeue_time, DeploymentConfiguration, init_deployment_configuration,
  find_console_url, resolve_proxy_client_certificate, resolve_serving_client_certificate,
  resolve_route_certificate,
}

requeue_timer-day :
    (proxying serving : ℤ) → le_int (requeue_timer proxying serving) max_requeue_time ≡ true
unfolding requeue_timer
requeue_timer-day (pos a) (pos b) = ground arith
requeue_timer-day (pos a) (negsuc b) = ground arith
requeue_timer-day (negsuc a) (pos b) = ground arith
requeue_timer-day (negsuc a) (negsuc b) = ground arith

abbrev min_nat : ℕ → ℕ → ℕ
min_nat a b = if leb a b then a else b

-- The earliest of a day and of the rotations that are due, where 0 is a certificate that has none.
abbrev pub soonest : ℕ → ℕ → ℕ
soonest zero zero = 0
soonest zero (suc b) = min_nat (suc b) (24 * hour)
soonest (suc a) zero = min_nat (suc a) (24 * hour)
soonest (suc a) (suc b) = min_nat (min_nat (suc a) (suc b)) (24 * hour)

-- The timer of the next call is the earliest of a day and of the rotations of the proxying and the serving
-- certificate, of those that have a rotation at all.
pub requeue_timer_lem :
    (proxying serving : ℕ)
    → requeue_timer (pos proxying) (pos serving) ≡ pos (soonest proxying serving)
unfolding requeue_timer
requeue_timer_lem zero zero = refl
requeue_timer_lem zero (suc b) = ground arith
requeue_timer_lem (suc a) zero = ground arith
requeue_timer_lem (suc a) (suc b) = ground arith

abbrev pub AtMostDay : DeploymentConfiguration → Type 0
AtMostDay c = le_int c.requeue_after max_requeue_time ≡ true

module _ {W V : Type 0} (r : Reconciler W V) (hawtio : Hawtio) where
  init_deployment_configuration-Yields : Yields AtMostDay (init_deployment_configuration r hawtio)
  unfolding init_deployment_configuration
  init_deployment_configuration-Yields = Yields-after AtMostDay (find_console_url r) _ λ url.
      Yields-after AtMostDay (resolve_proxy_client_certificate r hawtio) _ λ (proxying, a).
        Yields-after AtMostDay (resolve_serving_client_certificate r hawtio) _ λ (serving, b).
          Yields-after AtMostDay (resolve_route_certificate r hawtio hawtio.spec.route.cert_secret)
            _
            λ route.
              Yields-after AtMostDay
                (resolve_route_certificate r hawtio hawtio.spec.route.ca_cert.name) _
                λ ca. Yields-pure AtMostDay _ (requeue_timer-day a b)

  -- A configuration that `initDeploymentConfiguration` returns has a timer of at most a day, whatever the
  -- certificates and the answers of the cluster are.
  pub init_deployment_configuration-AtMostDay :
      (w v : W) (c : DeploymentConfiguration)
      → init_deployment_configuration r hawtio w ≡ (ok c, v)
      → AtMostDay c
  init_deployment_configuration-AtMostDay w v c e = init_deployment_configuration-Yields w v c e

-- The period before the end of a certificate, in hours, is of a size that an int64 of nanoseconds holds.
abbrev pub IsUsualPeriod : Hawtio → ℕ → Type 0
IsUsualPeriod hawtio hours =
    (certificate_expiry_period hawtio ≡ pos hours) × (hours * hour + 1 ≤ 2 ^ 63)

-- A certificate is rotated as soon as no more than the period is left of its validity; before that, the next
-- check falls on the moment at which the period begins. The time left is an int64, and so is the period.
pub time_to_rotation_lem :
    (hawtio : Hawtio) (hours left : ℕ)
    → IsUsualPeriod hawtio hours
    → left + 1 ≤ 2 ^ 63
    → time_to_rotation hawtio (pos left) ≡ pos (left - hours * hour)
unfolding time_to_rotation wrap64 scale ◌-ℤ◌
time_to_rotation_lem hawtio hours left (e, fits) small = rw e (ground arith)
