-- ===== src/Controller/Rotation.antt =====
-- pkg/controller/hawtio/hawtio_controller_kubernetes.go and hawtio_controller_openshift.go: the secret of a
-- certificate that is there already.
pub mod Settles
pub mod Ends
use hawtio_operator.Base.{
  ℕ, ◌+◌, ◌-◌, ◌*◌, ◌^◌, ◌≤◌, String, true, false, ◌≡◌, refl, ◌∙◌, ap, some, arith,
}
use hawtio_operator.Base.Int.{pos}
use hawtio_operator.Base.Dict.{lookup}
use hawtio_operator.Base.Errors.{ok}
use hawtio_operator.Base.Act.{Act}
use hawtio_operator.Kube.{Time, Secret}
use hawtio_operator.Api.{Hawtio}
use hawtio_operator.Controller.Issue.{tls_cert_key, tls_private_key_key, certificate_not_after}
use hawtio_operator.Controller.Cluster.{Reconciler, hour}
use hawtio_operator.Controller.Lifecycle.{is_labelled}
use hawtio_operator.Controller.Certificate.{
  is_zero, time_left, certificate_end, check_certificate_expiry, time_until, time_to_rotation,
  rotated, keep_certificate,
}
use hawtio_operator.Controller.Timers.{IsUsualPeriod, time_to_rotation_lem}

module _ {W V : Type 0} (r : Reconciler W V) (make : String → String → Act W Secret) where
  -- The secret holds a certificate that ends at this time, and has the operator's label.
  abbrev pub HoldsCertificate : Secret → String → Time → Type 0
  HoldsCertificate secret pem end =
      (is_labelled r.secrets.object secret ≡ true)
      × (lookup tls_cert_key secret.contents ≡ some pem)
      × (certificate_not_after r pem ≡ some end)

  until : (now left : Time) → left + 1 ≤ 2 ^ 63 → time_until now (now + left) ≡ pos left
  unfolding time_until
  until now left small = ground arith

  remaining :
      (hawtio : Hawtio) (now left : Time) (hours : ℕ)
      → IsUsualPeriod hawtio hours
      → left + 1 ≤ 2 ^ 63
      → time_left r hawtio now (some (now + left)) ≡ pos (left - hours * hour)
  unfolding time_left
  remaining hawtio now left hours usual small =
      ap (time_to_rotation hawtio) (until now left small)
      ∙ time_to_rotation_lem hawtio hours left usual small

  pub checked :
      (hawtio : Hawtio) (secret : Secret) (pem : String) (now left : Time) (hours : ℕ)
      → HoldsCertificate secret pem (now + left)
      → IsUsualPeriod hawtio hours
      → left + 1 ≤ 2 ^ 63
      → check_certificate_expiry r hawtio secret now ≡ pos (left - hours * hour)
  unfolding check_certificate_expiry
  checked hawtio secret pem now left hours (_, there, ends) usual small =
      ap (λ o. time_left r hawtio now (certificate_end r o)) there
      ∙ ap (time_left r hawtio now) ends
      ∙ remaining hawtio now left hours usual small

  -- A labelled secret whose certificate has more than the period left is kept as it is: the call reads the clock
  -- and writes nothing, and the next check falls on the moment at which the period begins. The time left and the
  -- period are int64 durations.
  pub keep_certificate-fresh :
      (hawtio : Hawtio) (secret : Secret) (pem : String) (now left : Time) (hours : ℕ) (w u : W)
      → HoldsCertificate secret pem (now + left)
      → IsUsualPeriod hawtio hours
      → left + 1 ≤ 2 ^ 63
      → hours * hour + 1 ≤ left
      → r.now w ≡ (ok now, u)
      → keep_certificate r make hawtio secret w ≡ (ok (secret, pos (left - hours * hour)), u)
  unfolding keep_certificate rotated
  keep_certificate-fresh hawtio secret pem now left hours w u holds usual small more clock =
      let expiry = checked hawtio secret pem now left hours holds usual small in
      let later : is_zero (pos (left - hours * hour)) ≡ false = ground arith in
      rw (holds.0, clock, expiry, later) refl
