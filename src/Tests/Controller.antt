-- ===== src/Tests/Controller.antt =====
-- The theorems on the controller and the poller, at concrete inputs.
use hawtio_operator.Base.{
  ◌*◌, String, Bool, true, false, ℕ, ◌≡◌, ◌≢◌, ◌↔◌, ◌⊎◌, refl, sym, ap, some, [], ◌∷◌, arith,
}
use hawtio_operator.Base.Int.{pos}
use hawtio_operator.Base.Dict.{lookup}
use hawtio_operator.Base.Errors.{Error, requeue, legacy_adopted, wrapped, Result, ok, err}
use hawtio_operator.Kube.{Secret, named}
use hawtio_operator.Api.{Hawtio}
use hawtio_operator.Controller.Cluster.{Reconciler, requeue_now, hour}
use hawtio_operator.Controller.Lifecycle.{
  adopt_legacy_resource, labelled, handle_error, deletion, clean_up, remove_finalizer,
  delete_console_link,
}
use hawtio_operator.Controller.Lifecycle.Laws.{
  Faithful, adopt_legacy_resource-once, deletion-releases, handle_error-reports, AsksFor, after,
}
use hawtio_operator.Controller.Run.Calls.{Serves, changed}
use hawtio_operator.Controller.Lifecycle.{with_phase}
use hawtio_operator.Controller.Timers.{init_deployment_configuration-AtMostDay, AtMostDay}
use hawtio_operator.Controller.Certificate.{certificate_expiry_period}
use hawtio_operator.Controller.Defaults.{init_deployment_configuration}
use hawtio_operator.Controller.Run.{reconcile}
use hawtio_operator.Controller.Run.Deletion.{reconcile-deletion}
use hawtio_operator.Controller.Issue.{certificate_not_after}
use hawtio_operator.Controller.Rotation.{keep_certificate-fresh}
use hawtio_operator.Controller.Certificate.{keep_certificate}
use hawtio_operator.Controller.Cluster.{no_requeue}
use hawtio_operator.Base.{◌*◌, ◌+◌, ◌-◌}
use hawtio_operator.Base.Act.{Act}
use hawtio_operator.Tests.Samples.{
  plain_crypto, sample, openshift, holding, linked, keeping, secret_object, key, test_configuration,
}

-- What a patch makes of the resource, which keeps its deletion and its status, and what one of the status makes.
abbrev part_written : Hawtio → Hawtio → Hawtio
part_written held wanted = record wanted {
  metadata = record wanted.metadata { deletion_timestamp = held.metadata.deletion_timestamp };
  status = held.status;
}

abbrev status_written : Hawtio → Hawtio → Hawtio
status_written held wanted = record held { status = wanted.status }

-- A server on which the status is a subresource.
abbrev serving : Reconciler Hawtio String
serving = record (holding openshift) {
  hawtios = record (holding openshift).hawtios {
    patch = λ held wanted w. (ok (part_written w wanted), part_written w wanted);
  };
  status_patch = λ held wanted w. (ok (status_written w wanted), status_written w wanted);
}

abbrev server : Serves serving key
server = record {
  holds = λ w. w;
  gets = λ w. refl;
  patches = λ finalizers kind w plain known. (_, changed finalizers kind w, refl, refl);
  patches_status = λ phase w plain. (_, with_phase phase w, refl, refl);
}

-- The console link is gone.
abbrev LinkGone : Bool → Type 0
LinkGone w = w ≡ false

deletion-releases_example :
    ((e : Error) × (u : Bool) × (clean_up (linked openshift) sample key true ≡ (err e, u))
      × (deletion (linked openshift) sample key true ≡ (err e, u)))
    ⊎ ((u : Bool) × LinkGone u
        × (deletion (linked openshift) sample key true
            ≡ remove_finalizer (linked openshift) sample u))
unfolding delete_console_link
deletion-releases_example =
    deletion-releases (linked openshift) sample key LinkGone
      (λ w v e. ap (λ (x : Result (Unit {0}) × Bool). x.1) (sym e)) refl refl true

abbrev bare_secret : Secret
bare_secret = record { metadata = named "online-tls-serving" "web"; contents = []; kind = "" }

abbrev faithful : Faithful keeping
faithful = record {
  meta_kept = λ a m. refl;
  reads_written =
      λ b c w v e. (v, refl, ap (λ (x : Result Secret × Secret). x.1.metadata.labels) (sym e));
}

abbrev adopted_secret : Secret
adopted_secret = labelled secret_object bare_secret

adopt_legacy_resource-once_example :
    (adopt_legacy_resource keeping bare_secret bare_secret ≡ (err legacy_adopted, adopted_secret))
    × ((d : Secret) × (adopt_legacy_resource keeping bare_secret adopted_secret
          ≡ (ok d, adopted_secret)))
unfolding lookup
adopt_legacy_resource-once_example =
    adopt_legacy_resource-once keeping faithful bare_secret bare_secret adopted_secret bare_secret
      bare_secret adopted_secret refl refl refl refl

handle_error-reports_example :
    let e = wrapped "reconciling" (requeue "waiting" 5) in
    ((n : ℕ) → (handle_error e ≡ ok (after n)) ↔ AsksFor n e)
    × ((handle_error e ≡ ok requeue_now) ↔ (e ≡ legacy_adopted))
    × (((n : ℕ) → ¬ AsksFor n e) → e ≢ legacy_adopted → handle_error e ≡ err e)
handle_error-reports_example = handle_error-reports (wrapped "reconciling" (requeue "waiting" 5))

-- The configuration on OpenShift, where the proxying certificate is not made in tests.
abbrev under_test : Reconciler Hawtio String
under_test = record (holding openshift) { under_test = true }

init_deployment_configuration-AtMostDay_example : AtMostDay test_configuration
unfolding init_deployment_configuration
init_deployment_configuration-AtMostDay_example =
    init_deployment_configuration-AtMostDay under_test sample sample sample test_configuration refl

abbrev deleted_sample : Hawtio
deleted_sample = record sample { metadata = record sample.metadata { deletion_timestamp = some 5 } }

reconcile-deletion_example :
    reconcile (holding openshift) key deleted_sample ≡ (ok no_requeue, deleted_sample)
unfolding deletion
reconcile-deletion_example =
    reconcile-deletion (holding openshift) key deleted_sample 5 deleted_sample deleted_sample
      deleted_sample (ok tt) refl refl refl

-- A certificate that is valid for thirty hours from now on.
abbrev valid : Reconciler Hawtio String
valid = record (holding openshift) { crypto = plain_crypto λ bytes. 1000 + 30 * hour }

abbrev certified_secret : Secret
certified_secret = record {
  metadata = record (named "online-tls-serving" "web") { labels = ("app", "hawtio") ∷ [] };
  contents = ("tls.crt", "certificate") ∷ [];
  kind = "kubernetes.io/tls";
}

abbrev no_maker : String → String → Act Hawtio Secret
no_maker name namespace w = (ok bare_secret, w)

keep_certificate-fresh_example :
    keep_certificate valid no_maker sample certified_secret sample
    ≡ (ok (certified_secret, pos (30 * hour - 24 * hour)), sample)
unfolding lookup certificate_expiry_period certificate_not_after
keep_certificate-fresh_example =
    keep_certificate-fresh valid no_maker sample certified_secret "certificate" 1000 (30 * hour) 24
      sample sample (refl, refl, refl) (refl, ground arith) (ground arith) (ground arith) refl
