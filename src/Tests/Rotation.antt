-- ===== src/Tests/Rotation.antt =====
-- The theorems on certificates and on the start of a call, at concrete inputs.
use hawtio_operator.Base.{◌+◌, ◌-◌, ◌*◌, String, ◌==◌, ◌≡◌, refl, sym, ap, none, [], ◌∷◌, arith}
use hawtio_operator.Base.{if◌then◌else◌, nat_eq}
use hawtio_operator.Base.Int.{pos, wrap64, scale}
use hawtio_operator.Base.Dict.{lookup, insert}
use hawtio_operator.Base.Errors.{Result, ok, err, message, ok-injective}
use hawtio_operator.Base.Act.{Act}
use hawtio_operator.Kube.{Time, Secret, named}
use hawtio_operator.Api.{Hawtio}
use hawtio_operator.Resources.Labels.{propagate}
use hawtio_operator.Controller.Crypto.{Crypto, Template}
use hawtio_operator.Controller.Cluster.{Reconciler, hour, second}
use hawtio_operator.Controller.Issue.{generate_certificate_secret}
use hawtio_operator.Controller.Certificate.{
  keep_certificate, certificate_expiry_period, check_certificate_expiry,
}
use hawtio_operator.Controller.Rotation.Settles.{rotation-settles, rotation-repeats}
use hawtio_operator.Controller.Rotation.Ends.{
  KeepsEnds, EndsAt, whole_seconds, generate_certificate_secret-EndsAt,
}
use hawtio_operator.Controller.Lifecycle.{is_labelled}
use hawtio_operator.Controller.Run.{set_up}
use hawtio_operator.Controller.Run.Ready.{IsReady, set_up-IsReady}
use hawtio_operator.Tests.Samples.{sample, openshift, holding, key, secret_object, plain_crypto}

abbrev fifth_second : Time
fifth_second = 5 * second

-- Only certificates that end at the fifth second are created.
abbrev one_end : Crypto Hawtio
one_end = record (plain_crypto λ bytes. fifth_second) {
  create_certificate = λ template parent own signer w. (
    if nat_eq template.not_after fifth_second then ok "certificate" else err (message "refused"),
    w,
  );
}

one_end_time :
    (template : Template) (der : String)
    → ◌≡◌ {A = Result String}
        (if nat_eq template.not_after fifth_second
          then ok "certificate"
          else err (message "refused"))
        (ok der)
    → fifth_second ≡ whole_seconds template.not_after
one_end_time template der e = ground arith

one_end_keeps : KeepsEnds one_end
one_end_keeps = record {
  reads_back = λ kind bytes. refl;
  ends_in_time = λ template parent own signer w v der created. (
    record { der = der; not_after = fifth_second },
    refl,
    one_end_time template der (ap (λ x. x.0) created),
  );
}

abbrev issuing : Reconciler Hawtio String
issuing = record (holding openshift) { crypto = one_end }

abbrev issued_secret : Secret
issued_secret = record {
  metadata = record (named "online-tls-serving" "web") {
    labels = ("app", "hawtio") ∷ ("deployment", "online") ∷ [];
  };
  contents = ("tls.crt", "certificate") ∷ ("tls.key", "key") ∷ [];
  kind = "kubernetes.io/tls";
}

generate_certificate_secret-EndsAt_example :
    EndsAt issuing (whole_seconds fifth_second) issued_secret
unfolding generate_certificate_secret propagate
generate_certificate_secret-EndsAt_example =
    generate_certificate_secret-EndsAt issuing sample "online-tls-serving" "web" none "online"
      fifth_second sample sample issued_secret one_end_keeps refl

abbrev ready_sample : Hawtio
ready_sample = record sample {
  metadata = record sample.metadata { finalizers = "hawt.io/finalizer" ∷ [] };
  spec = record sample.spec { kind = "Cluster" };
  status = record sample.status { phase = "Initialized" };
}

set_up-IsReady_example : IsReady ready_sample
unfolding set_up
set_up-IsReady_example =
    set_up-IsReady (holding openshift) key ready_sample ready_sample ready_sample refl

-- The old certificate has an hour left, and a new one thirty.
abbrev rotating : Reconciler Hawtio String
rotating = record (holding openshift) {
  crypto = plain_crypto λ bytes. if bytes == "old" then 1000 + hour else 1000 + 30 * hour;
}

abbrev secret_with : String → Secret
secret_with pem = record {
  metadata = record (named "online-tls-serving" "web") { labels = ("app", "hawtio") ∷ [] };
  contents = ("tls.crt", pem) ∷ [];
  kind = "kubernetes.io/tls";
}

abbrev made : String → String → Act Hawtio Secret
made name namespace w = (ok (secret_with "new"), w)

abbrev rotated_secret : Secret
rotated_secret = record (secret_with "new") { contents = ("tls.crt", "new") ∷ ("tls.key", "") ∷ [] }

rotation-settles_example :
    keep_certificate rotating made sample rotated_secret sample
    ≡ (ok (rotated_secret, pos (30 * hour - 24 * hour)), sample)
unfolding lookup certificate_expiry_period keep_certificate wrap64 scale insert
rotation-settles_example =
    rotation-settles rotating made sample (secret_with "old") rotated_secret 1000 1000 (30 * hour)
      24 (pos 24) sample sample sample sample sample refl
      (λ a b e.
        ap
          (λ l.
            is_labelled secret_object (record a { metadata = record a.metadata { labels = l } }))
          e)
      (λ a b w v e. (
        ap (λ (x : Secret). x.contents) (sym (ok-injective (ap (λ x. x.0) e))),
        ap (λ (x : Secret). x.metadata.labels) (sym (ok-injective (ap (λ x. x.0) e))),
      ))
      (λ name ns v fresh e. (
        "new",
        ap (λ (x : Secret). lookup "tls.crt" x.contents) (sym (ok-injective (ap (λ x. x.0) e))),
        refl,
      ))
      refl refl refl (refl, ground arith) (ground arith) (ground arith) refl

-- Every certificate ends an hour after the clock's time.
abbrev short_lived : Reconciler Hawtio String
short_lived = record (holding openshift) { crypto = plain_crypto λ bytes. 1000 + hour }

rotation-repeats_example : check_certificate_expiry short_lived sample rotated_secret 1000 ≡ pos 0
unfolding lookup certificate_expiry_period keep_certificate wrap64 scale insert
rotation-repeats_example =
    rotation-repeats short_lived made sample (secret_with "old") rotated_secret 1000 1000 hour 24
      (pos 24) sample sample sample refl
      (λ a b e.
        ap
          (λ l.
            is_labelled secret_object (record a { metadata = record a.metadata { labels = l } }))
          e)
      (λ a b w v e. (
        ap (λ (x : Secret). x.contents) (sym (ok-injective (ap (λ x. x.0) e))),
        ap (λ (x : Secret). x.metadata.labels) (sym (ok-injective (ap (λ x. x.0) e))),
      ))
      (λ name ns v fresh e. (
        "new",
        ap (λ (x : Secret). lookup "tls.crt" x.contents) (sym (ok-injective (ap (λ x. x.0) e))),
        refl,
      ))
      refl refl refl (refl, ground arith) (ground arith) (ground arith)
