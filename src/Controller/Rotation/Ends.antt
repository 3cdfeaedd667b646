-- ===== src/Controller/Rotation/Ends.antt =====
-- pkg/controller/hawtio/certificate.go: when a certificate ends that is made.
use mathlib.Core.Path.{subst}
use hawtio_operator.Base.{◌-◌, ◌%◌, String, ◌≡◌, refl, ◌∙◌, ap, Option, none, some}
use hawtio_operator.Base.Dict.{lookup}
use hawtio_operator.Base.Errors.{Result, ok, err, wrap, ok-injective}
use hawtio_operator.Base.Act.{Yields, Yields-after, lift, caught, >>=-eq-ok}
use hawtio_operator.Kube.{Time, Secret}
use hawtio_operator.Api.{Hawtio}
use hawtio_operator.Controller.Crypto.{Crypto, X509, PrivateKey, Template, Parent}
use hawtio_operator.Controller.Cluster.{Reconciler, second}
use hawtio_operator.Controller.Issue.{
  Signer, parent_of, signing_key, certificate_secret, end_in, end_of, tls_cert_key,
  certificate_not_after, generate_certificate_secret, read_authority, sign,
}
use hawtio_operator.Controller.Certificate.{
  new_self_certificate_secret, certificate_common_name, expiration_date,
}
use hawtio_operator.Controller.Rotation.Settles.{Issues}

-- The times of a certificate have whole seconds.
abbrev pub whole_seconds : Time → Time
whole_seconds t = t - t % second

-- What PEM and X.509 document: a printed block is read back, and a certificate that is created parses, and ends
-- at the whole second of the end that its template gives.
pub record KeepsEnds {W : Type 0} (crypto : Crypto W) : Type 0 where
  pub reads_back :
      (kind bytes : String) → crypto.pem_decode (crypto.pem_encode kind bytes) ≡ some bytes
  pub ends_in_time :
      (template : Template) (parent : Parent) (own signer : PrivateKey) (w v : W) (der : String)
      → crypto.create_certificate template parent own signer w ≡ (ok der, v)
      → (cert : X509) × (crypto.parse_certificate der ≡ ok cert)
        × (cert.not_after ≡ whole_seconds template.not_after)

module _ {W V : Type 0} (r : Reconciler W V) where
  -- The secret holds a certificate that ends at this time.
  abbrev pub EndsAt : Time → Secret → Type 0
  EndsAt end secret =
      (pem : String) × (lookup tls_cert_key secret.contents ≡ some pem)
      × (certificate_not_after r pem ≡ some end)

  printed_end :
      (keeps : KeepsEnds r.crypto) (kind der : String) (cert : X509)
      → r.crypto.parse_certificate der ≡ ok cert
      → certificate_not_after r (r.crypto.pem_encode kind der) ≡ some cert.not_after
  unfolding certificate_not_after
  printed_end keeps kind der cert e = ap (end_in r) (keeps.reads_back kind der) ∙ ap (end_of r) e

  sign-EndsAt :
      (keeps : KeepsEnds r.crypto) (hawtio : Hawtio) (name namespace : String)
      (signer : Option Signer) (template : Template) (key : PrivateKey)
      → Yields
          (EndsAt (whole_seconds template.not_after))
          (sign r hawtio name namespace signer template key)
  unfolding lookup
  sign-EndsAt keeps hawtio name namespace signer template key w v secret done =
      let (der, u, created, stored) =
        >>=-eq-ok
          (r.crypto.create_certificate template (parent_of signer) key (signing_key signer key)) _ w
          done in
      let (cert, parsed, ends) = keeps.ends_in_time template _ key _ w u der created in
      let same : certificate_secret r hawtio name namespace key der ≡ secret =
        ok-injective (ap (λ x. x.0) stored) in
      subst (EndsAt (whole_seconds template.not_after)) same (
        r.crypto.pem_encode "CERTIFICATE" der,
        refl,
        printed_end keeps "CERTIFICATE" der cert parsed ∙ ap some ends,
      )

  -- A secret that is made, signed by itself or by an authority, holds a certificate that reads back from it and ends
  -- at the whole second of the date that was asked for.
  pub generate_certificate_secret-EndsAt :
      (hawtio : Hawtio) (name namespace : String) (ca : Option Secret) (common_name : String)
      (date : Time) (w v : W) (fresh : Secret)
      → KeepsEnds r.crypto
      → generate_certificate_secret r hawtio name namespace ca common_name date w ≡ (ok fresh, v)
      → EndsAt (whole_seconds date) fresh
  unfolding generate_certificate_secret
  generate_certificate_secret-EndsAt hawtio name namespace ca common_name date w v fresh keeps
        done =
      let P : Secret → Type 0 = EndsAt (whole_seconds date) in
      Yields-after P (lift (read_authority r ca)) _
        (λ signer. Yields-after P r.crypto.serial_number _ λ serial_number.
          Yields-after P r.now _ λ now. Yields-after P r.crypto.generate_key _ λ key.
            sign-EndsAt keeps hawtio name namespace signer
              (record {
                serial_number = serial_number;
                common_name = common_name;
                not_before = now;
                not_after = date;
              })
              key)
        w v fresh done

  wrapped_ok :
      {A : Type 0} (text : String) (m : Result A × W) {a : A} {v : W}
      → caught m (λ made. lift (wrap text made)) ≡ (ok a, v)
      → m ≡ (ok a, v)
  wrapped_ok text (ok b, u) e = e
  wrapped_ok text (err x, u) e = cc

  -- The maker of the serving certificate: what it issues ends at the date of the custom resource, or a year from now.
  pub new_self_certificate_secret-Issues :
      (hawtio : Hawtio) (now : Time) (w u : W)
      → KeepsEnds r.crypto
      → r.now w ≡ (ok now, u)
      → Issues r
          (new_self_certificate_secret r hawtio)
          w
          (whole_seconds (expiration_date r hawtio now))
  unfolding new_self_certificate_secret
  new_self_certificate_secret-Issues hawtio now w u keeps clock name namespace v fresh done =
      generate_certificate_secret-EndsAt hawtio name namespace none
        (certificate_common_name r hawtio) (expiration_date r hawtio now) u v fresh keeps
        (wrapped_ok "Generating the serving certificate failed" _ (rw clock at done))
