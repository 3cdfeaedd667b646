-- ===== src/Controller/Rotation/Settles.antt =====
-- pkg/controller/hawtio/hawtio_controller_kubernetes.go and hawtio_controller_openshift.go: a certificate that
-- has been rotated.
use mathlib.Core.Path.{subst}
use hawtio_operator.Base.{arith, ℕ, ◌+◌, ◌-◌, ◌*◌, ◌^◌, ◌≤◌, String, true, ◌≡◌, ◌∙◌, ap, some, none}
use hawtio_operator.Base.Int.{ℤ, pos}
use hawtio_operator.Base.Dict.{lookup, lookup-insert}
use hawtio_operator.Base.Errors.{ok, ok-injective}
use hawtio_operator.Base.Act.{Act, >>=-eq-ok}
use hawtio_operator.Kube.{Time, Secret, Object}
use hawtio_operator.Api.{Hawtio}
use hawtio_operator.Controller.Issue.{tls_cert_key, tls_private_key_key, certificate_not_after}
use hawtio_operator.Controller.Cluster.{Reconciler, hour}
use hawtio_operator.Controller.Lifecycle.{is_labelled}
use hawtio_operator.Controller.Certificate.{
  check_certificate_expiry, transplanted, rotated, keep_certificate,
}
use hawtio_operator.Controller.Timers.{IsUsualPeriod}
use hawtio_operator.Controller.Rotation.{HoldsCertificate, checked, keep_certificate-fresh}

module _ {W V : Type 0} (r : Reconciler W V) (make : String → String → Act W Secret) where
  -- A secret that is made in this world holds a certificate that ends at this time.
  abbrev pub Issues : W → Time → Type 0
  Issues w end =
      (name namespace : String) (v : W) (fresh : Secret)
      → make name namespace w ≡ (ok fresh, v)
      → (pem : String) × (lookup tls_cert_key fresh.contents ≡ some pem)
        × (certificate_not_after r pem ≡ some end)

  -- An update of a secret that succeeds returns the data and the labels that were sent; the rest, as the resource
  -- version, is the server's.
  abbrev pub StoresSecrets : Type 0
  StoresSecrets =
      (wanted stored : Secret) (w v : W)
      → r.secrets.update wanted w ≡ (ok stored, v)
      → (stored.contents ≡ wanted.contents) × (stored.metadata.labels ≡ wanted.metadata.labels)

  -- The label of a secret is read from the labels of its metadata.
  abbrev pub ReadsLabels : Object Secret → Type 0
  ReadsLabels o =
      (a b : Secret) → a.metadata.labels ≡ b.metadata.labels → is_labelled o a ≡ is_labelled o b

  certificate-transplanted :
      (secret fresh : Secret) (pem : String)
      → lookup tls_cert_key fresh.contents ≡ some pem
      → lookup tls_cert_key (transplanted r secret fresh).contents ≡ some pem
  certificate-transplanted secret fresh pem e =
      lookup-insert tls_private_key_key tls_cert_key _ _
      ∙ lookup-insert tls_cert_key tls_cert_key _ secret.contents
      ∙ ap (λ o. some (elim o [ none ↦ "" | some v ↦ v ])) e

  stored-HoldsCertificate :
      (secret fresh stored : Secret) (end : Time)
      → is_labelled r.secrets.object secret ≡ true
      → ReadsLabels r.secrets.object
      → stored.contents ≡ (transplanted r secret fresh).contents
      → stored.metadata.labels ≡ secret.metadata.labels
      → (pem : String) × (lookup tls_cert_key fresh.contents ≡ some pem)
        × (certificate_not_after r pem ≡ some end)
      → (pem : String) × HoldsCertificate r make stored pem end
  stored-HoldsCertificate secret fresh stored end label reads contents labels (pem, there, ends) = (
    pem,
    (
      reads stored secret labels ∙ label,
      ap (lookup tls_cert_key) contents ∙ certificate-transplanted secret fresh pem there,
      ends,
    ),
  )

  rotated-HoldsCertificate :
      (hawtio : Hawtio) (secret stored : Secret) (now end : Time) (timer : ℤ) (w u v : W)
      → is_labelled r.secrets.object secret ≡ true
      → ReadsLabels r.secrets.object
      → StoresSecrets
      → Issues u end
      → r.now w ≡ (ok now, u)
      → check_certificate_expiry r hawtio secret now ≡ pos 0
      → keep_certificate r make hawtio secret w ≡ (ok (stored, timer), v)
      → (pem : String) × HoldsCertificate r make stored pem end
  unfolding keep_certificate rotated
  rotated-HoldsCertificate hawtio secret stored now end timer w u v label reads stores issues clock
        due done =
      let step = rw (label, clock, due) at done in
      let (fresh, _, made, e1) =
        >>=-eq-ok (make secret.metadata.name secret.metadata.namespace) _ u step in
      let (kept, _, e2, e3) = >>=-eq-ok (r.secrets.update (transplanted r secret fresh)) _ _ e1 in
      let same : kept ≡ stored = ap (λ x. x.0) (ok-injective (ap (λ x. x.0) e3)) in
      let (contents, labels) = stores (transplanted r secret fresh) kept _ _ e2 in
      subst (λ s. (pem : String) × HoldsCertificate r make s pem end) same
        (stored-HoldsCertificate secret fresh kept end label reads contents labels
          (issues _ _ _ fresh made))

  -- A rotation settles: the call that rotates a certificate whose period has begun leaves a secret that the next call keeps
  -- as it is, as long as the new certificate has more than the period left then. An update that
  -- succeeds keeps the data and the labels that were sent.
  pub rotation-settles :
      (hawtio : Hawtio) (secret stored : Secret) (now later left : Time) (hours : ℕ) (timer : ℤ)
      (w u v w' u' : W)
      → is_labelled r.secrets.object secret ≡ true
      → ReadsLabels r.secrets.object
      → StoresSecrets
      → Issues u (later + left)
      → r.now w ≡ (ok now, u)
      → check_certificate_expiry r hawtio secret now ≡ pos 0
      → keep_certificate r make hawtio secret w ≡ (ok (stored, timer), v)
      → IsUsualPeriod hawtio hours
      → left + 1 ≤ 2 ^ 63
      → hours * hour + 1 ≤ left
      → r.now w' ≡ (ok later, u')
      → keep_certificate r make hawtio stored w' ≡ (ok (stored, pos (left - hours * hour)), u')
  rotation-settles hawtio secret stored now later left hours timer w u v w' u' label reads stores
        issues clock due done usual small more clock' =
      let (pem, holds) =
        rotated-HoldsCertificate hawtio secret stored now (later + left) timer w u v label reads
          stores issues clock due done in
      keep_certificate-fresh r make hawtio stored pem later left hours w' u' holds usual small more
        clock'

  -- A rotation repeats where the new certificate ends within the period too, as with a date of the custom resource that
  -- is near: the next call finds the certificate that was just made due again.
  pub rotation-repeats :
      (hawtio : Hawtio) (secret stored : Secret) (now later left : Time) (hours : ℕ) (timer : ℤ)
      (w u v : W)
      → is_labelled r.secrets.object secret ≡ true
      → ReadsLabels r.secrets.object
      → StoresSecrets
      → Issues u (later + left)
      → r.now w ≡ (ok now, u)
      → check_certificate_expiry r hawtio secret now ≡ pos 0
      → keep_certificate r make hawtio secret w ≡ (ok (stored, timer), v)
      → IsUsualPeriod hawtio hours
      → left + 1 ≤ 2 ^ 63
      → left ≤ hours * hour
      → check_certificate_expiry r hawtio stored later ≡ pos 0
  rotation-repeats hawtio secret stored now later left hours timer w u v label reads stores issues
        clock due done usual small near =
      let (pem, holds) =
        rotated-HoldsCertificate hawtio secret stored now (later + left) timer w u v label reads
          stores issues clock due done in
      checked r make hawtio stored pem later left hours holds usual small ∙ ap pos (omega arith)
