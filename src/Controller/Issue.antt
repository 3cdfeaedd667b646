-- ===== src/Controller/Issue.antt =====
-- pkg/controller/hawtio/certificate.go: the making of a certificate's secret.
use hawtio_operator.Base.{String, Option, none, some, [], ◌∷◌}
use hawtio_operator.Base.Dict.{text_at}
use hawtio_operator.Base.Errors.{Result, ok, err, message}
use hawtio_operator.Base.Act.{Act, pure, raise, lift, ◌>>=◌}
use hawtio_operator.Kube.{Time, Secret, named}
use hawtio_operator.Api.{Hawtio}
use hawtio_operator.Resources.Labels.{resource_labels}
use hawtio_operator.Controller.Crypto.{X509, PrivateKey, Template, Parent, itself, authority}
use hawtio_operator.Controller.Cluster.{Reconciler}

abbrev pub tls_cert_key : String
tls_cert_key = "tls.crt"

abbrev pub tls_private_key_key : String
tls_private_key_key = "tls.key"

-- A certificate and the key that belongs to it.
abbrev pub Signer : Type 0
Signer = X509 × PrivateKey

abbrev pub parent_of : Option Signer → Parent
parent_of none = itself
parent_of (some (cert, key)) = authority cert

-- Without an authority, the new key signs its own certificate.
abbrev pub signing_key : Option Signer → PrivateKey → PrivateKey
signing_key none own = own
signing_key (some (cert, key)) own = key

module _ {W V : Type 0} (r : Reconciler W V) where
  abbrev decoded : {A : Type 0} → String → (String → Result A) → Option String → Result A
  decoded text parse none = err (message text)
  decoded text parse (some bytes) = parse bytes

  abbrev with_key : X509 → Result PrivateKey → Result (Option Signer)
  with_key cert (err e) = err e
  with_key cert (ok key) = ok (some (cert, key))

  -- The authority's key, read after its certificate.
  abbrev authority_key : Secret → Result X509 → Result (Option Signer)
  authority_key secret (err e) = err e
  authority_key secret (ok cert) = with_key cert (
      decoded "failed to decode CA certificate signing key" r.crypto.parse_private_key
        (r.crypto.pem_decode (text_at tls_private_key_key secret.contents)))

  -- The authority that a secret holds.
  unfoldable pub read_authority : Option Secret → Result (Option Signer)
  read_authority none = ok none
  read_authority (some secret) = authority_key secret (
      decoded "failed to decode CA certificate" r.crypto.parse_certificate
        (r.crypto.pem_decode (text_at tls_cert_key secret.contents)))

  abbrev pub certificate_secret : Hawtio → String → String → PrivateKey → String → Secret
  certificate_secret hawtio name namespace key der = record {
    metadata = record (named name namespace) { labels = resource_labels hawtio };
    contents =
        (tls_cert_key, r.crypto.pem_encode "CERTIFICATE" der)
        ∷ (tls_private_key_key, r.crypto.pem_encode "RSA PRIVATE KEY" key.pkcs1)
        ∷ [];
    kind = "kubernetes.io/tls";
  }

  abbrev pub sign : Hawtio → String → String → Option Signer → Template → PrivateKey → Act W Secret
  sign hawtio name namespace signer template key = do
    der ← r.crypto.create_certificate template (parent_of signer) key (signing_key signer key)
    pure (certificate_secret hawtio name namespace key der)

  -- `generateCertificateSecret`
  unfoldable pub generate_certificate_secret :
      Hawtio → String → String → Option Secret → String → Time → Act W Secret
  unfolding read_authority
  generate_certificate_secret hawtio name namespace ca common_name expiration_date = do
    signer ← lift (read_authority ca)
    serial_number ← r.crypto.serial_number
    now ← r.now
    key ← r.crypto.generate_key
    sign hawtio name namespace signer
        (record {
          serial_number = serial_number;
          common_name = common_name;
          not_before = now;
          not_after = expiration_date;
        })
        key

  -- `generateSelfSignedCertSecret`
  abbrev pub generate_self_signed_cert_secret :
      Hawtio → String → String → String → Time → Act W Secret
  generate_self_signed_cert_secret hawtio name namespace =
      generate_certificate_secret hawtio name namespace none

  -- `generateCASignedCertSecret`
  unfoldable pub generate_ca_signed_cert_secret :
      Hawtio → String → String → Option Secret → String → Time → Act W Secret
  unfolding generate_certificate_secret
  generate_ca_signed_cert_secret hawtio name namespace none common_name expiration_date =
      raise (message "Generating a CA-signed certificate requires the CA Secret")
  generate_ca_signed_cert_secret hawtio name namespace (some ca) common_name expiration_date =
      generate_certificate_secret hawtio name namespace (some ca) common_name expiration_date

  -- The end of the certificate that a PEM text holds, if it holds one.
  abbrev pub end_of : Result X509 → Option Time
  end_of (ok cert) = some cert.not_after
  end_of (err e) = none

  abbrev pub end_in : Option String → Option Time
  end_in none = none
  end_in (some bytes) = end_of (r.crypto.parse_certificate bytes)

  unfoldable pub certificate_not_after : String → Option Time
  certificate_not_after pem = end_in (r.crypto.pem_decode pem)
