-- ===== src/Controller/Crypto.antt =====
-- Go's cryptography, as pkg/controller/hawtio/certificate.go uses it: a parameter. A parsed certificate is what the
-- code reads of one, a private key stands for its PKCS #1 bytes, and bytes are texts.
use hawtio_operator.Base.{ℕ, String, Option}
use hawtio_operator.Base.Errors.{Result}
use hawtio_operator.Base.Act.{Act}
use hawtio_operator.Kube.{Time}

-- `x509.Certificate`, parsed.
pub record X509 : Type 0 where
  pub der : String
  pub not_after : Time

pub record PrivateKey : Type 0 where
  pub pkcs1 : String

-- The fields of the certificate that is to be made; its uses are constants of the code.
pub record Template : Type 0 where
  pub serial_number : ℕ
  pub common_name : String
  pub not_before : Time
  pub not_after : Time

-- The certificate that signs: itself, or the authority's.
pub data Parent : Type 0 where
  itself : Parent
  authority : X509 → Parent

pub record Crypto (W : Type 0) : Type 0 where
  -- The bytes of the first block of a PEM text, if there is one.
  pub pem_decode : String → Option String
  -- A block of a type, printed.
  pub pem_encode : String → String → String
  pub parse_certificate : String → Result X509
  pub parse_private_key : String → Result PrivateKey
  pub serial_number : Act W ℕ
  pub generate_key : Act W PrivateKey
  -- The bytes of a certificate, from its template, its parent, its own key and the key that signs.
  pub create_certificate : Template → Parent → PrivateKey → PrivateKey → Act W String
