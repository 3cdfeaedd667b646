-- ===== src/Controller/Certificate.antt =====
-- pkg/controller/hawtio/certificate.go, hawtio_controller_kubernetes.go and hawtio_controller_openshift.go.
-- A duration is an int64 of nanoseconds.
use hawtio_operator.Base.{String, ◌<>◌, Bool, ◌&&◌, Option, none, some}
use hawtio_operator.Base.{◌==◌, nat_eq, if◌then◌else◌}
use hawtio_operator.Base.Int.{ℤ, pos, negsuc, sub_ℕ, ◌-ℤ◌, scale, le_int, wrap64}
use hawtio_operator.Base.Dict.{lookup, insert, text_at}
use hawtio_operator.Base.Errors.{Result, ok, err, wrap, is_not_found}
use hawtio_operator.Base.Act.{Act, pure, raise, lift, catch, ◌>>=◌}
use hawtio_operator.Kube.{Time, Secret}
use hawtio_operator.Api.{Hawtio}
use hawtio_operator.Controller.Issue.{
  tls_cert_key, tls_private_key_key, certificate_not_after, generate_certificate_secret,
  generate_self_signed_cert_secret, generate_ca_signed_cert_secret,
}
use hawtio_operator.Controller.Cluster.{Reconciler, hour}
use hawtio_operator.Controller.Lifecycle.{is_labelled, adopt_legacy_resource}

abbrev pub is_zero : ℤ → Bool
is_zero a = le_int a (pos 0) && le_int (pos 0) a

-- `certificateExpiryPeriod`: the number of hours, as a duration.
unfoldable pub certificate_expiry_period : Hawtio → ℤ
certificate_expiry_period hawtio =
    let period_hours = hawtio.spec.auth.client_cert_expiration_period in
    if is_zero period_hours then pos 24 else period_hours

-- What remains until the period before the end of a certificate begins; 0 where it has begun.
unfoldable pub time_to_rotation : Hawtio → ℤ → ℤ
unfolding certificate_expiry_period
time_to_rotation hawtio time_until_expiry =
    let threshold = wrap64 (scale (certificate_expiry_period hawtio) hour) in
    if le_int time_until_expiry threshold then pos 0 else wrap64 (time_until_expiry -ℤ threshold)

-- `time.Until` stops at the largest and the smallest duration.
abbrev max_duration : ℤ
max_duration = pos 9223372036854775807

abbrev min_duration : ℤ
min_duration = negsuc 9223372036854775807

unfoldable pub time_until : Time → Time → ℤ
time_until now t =
    let d = sub_ℕ t now in
    if le_int max_duration d
    then max_duration
    else if le_int d min_duration
    then min_duration
    else d

module _ {W V : Type 0} (r : Reconciler W V) where
  abbrev pub certificate_end : Option String → Option Time
  certificate_end none = none
  certificate_end (some pem) = certificate_not_after r pem

  unfoldable pub time_left : Hawtio → Time → Option Time → ℤ
  unfolding time_to_rotation time_until
  time_left hawtio now none = pos 0
  time_left hawtio now (some end) = time_to_rotation hawtio (time_until now end)

  -- `checkCertificateExpiry`; a PEM text without a certificate in it has no end.
  unfoldable pub check_certificate_expiry : Hawtio → Secret → Time → ℤ
  unfolding time_left certificate_not_after
  check_certificate_expiry hawtio secret now =
      time_left hawtio now (certificate_end (lookup tls_cert_key secret.contents))

  unfoldable pub certificate_common_name : Hawtio → String
  certificate_common_name hawtio =
      let own = hawtio.spec.auth.client_cert_common_name in
      if own == ""
      then (if r.build_variables.client_cert_common_name == ""
          then "hawtio-online.hawtio.svc"
          else r.build_variables.client_cert_common_name)
      else own

  abbrev pub expiration_date : Hawtio → Time → Time
  expiration_date hawtio now = elim hawtio.spec.auth.client_cert_expiration_date [
    | none ↦ r.add_year now
    | some date ↦ if nat_eq date 0 then r.add_year now else date
  ]

  -- `newSelfCertificateSecret`
  unfoldable pub new_self_certificate_secret : Hawtio → String → String → Act W Secret
  unfolding generate_certificate_secret certificate_common_name
  new_self_certificate_secret hawtio name namespace = do
    now ← r.now
    catch
        (generate_self_signed_cert_secret r hawtio name namespace (certificate_common_name hawtio)
          (expiration_date hawtio now))
        λ made. lift (wrap "Generating the serving certificate failed" made)

  -- `newSignedCertificateSecret`
  unfoldable pub new_signed_certificate_secret : Hawtio → String → String → Act W Secret
  unfolding generate_ca_signed_cert_secret certificate_common_name
  new_signed_certificate_secret hawtio name namespace = do
    ca ←
        catch (r.secrets.read (record { namespace = "openshift-service-ca"; name = "signing-key" }))
          λ found. lift (wrap "Reading certificate authority signing key failed" found)
    now ← r.now
    catch
        (generate_ca_signed_cert_secret r hawtio name namespace (some ca)
          (certificate_common_name hawtio) (expiration_date hawtio now))
        λ made. lift (wrap "Generating the client certificate failed" made)

  -- The existing secret with the fresh certificate and key.
  abbrev pub transplanted : Secret → Secret → Secret
  transplanted secret fresh = record secret {
    contents =
        insert tls_private_key_key (text_at tls_private_key_key fresh.contents)
          (insert tls_cert_key (text_at tls_cert_key fresh.contents) secret.contents);
  }

  -- The maker of a certificate's secret, from its name and namespace.
  module _ (make : String → String → Act W Secret) where
    -- The secret whose certificate may be near its end, with the time until the next check. The clock is read first,
    -- also for a secret without a certificate, where the code does not ask for the time.
    unfoldable pub rotated : Hawtio → Secret → Act W (Secret × ℤ)
    unfolding check_certificate_expiry
    rotated hawtio secret = do
      now ← r.now
      let expiry_in = check_certificate_expiry hawtio secret now
      if is_zero expiry_in
          then (do
            fresh ← make secret.metadata.name secret.metadata.namespace
            stored ← r.secrets.update (transplanted secret fresh)
            pure (stored, certificate_expiry_period hawtio))
          else pure (secret, expiry_in)

    -- The branch for a secret that was found.
    unfoldable pub keep_certificate : Hawtio → Secret → Act W (Secret × ℤ)
    unfolding rotated
    keep_certificate hawtio secret =
        (if is_labelled r.secrets.object secret
          then pure secret
          else adopt_legacy_resource r.secrets secret)
        >>= rotated hawtio

    -- The branch for a secret that is missing; `keep` chooses what is returned of the secret before and after
    -- its creation.
    unfoldable pub create_certificate :
        Hawtio → String → String → (Secret → Secret → Secret) → Act W (Secret × ℤ)
    create_certificate hawtio text name keep = do
      made ← make name hawtio.metadata.namespace
      owned ← lift (r.secrets.set_controller_reference hawtio made)
      stored ← catch (r.secrets.create owned) λ answer. lift (wrap text answer)
      pure (keep owned stored, certificate_expiry_period hawtio)

  abbrev pub ensure_certificate :
      (String → String → Act W Secret)
      → Hawtio
      → String
      → String
      → (Secret → Secret → Secret)
      → Result Secret
      → Act W (Secret × ℤ)
  ensure_certificate make hawtio text name keep (ok secret) = keep_certificate make hawtio secret
  ensure_certificate make hawtio text name keep (err e) =
      if is_not_found e then create_certificate make hawtio text name keep else raise e

  -- `kubeCreateServingCertificate`
  unfoldable pub kube_create_serving_certificate : Hawtio → Act W (Secret × ℤ)
  unfolding keep_certificate create_certificate new_self_certificate_secret
  kube_create_serving_certificate hawtio =
      let name = hawtio.metadata.name <> "-tls-serving" in
      catch (r.secrets.read (record { namespace = hawtio.metadata.namespace; name = name })) (
        ensure_certificate (new_self_certificate_secret hawtio) hawtio
          "Creating the serving certificate secret failed" name (λ owned stored. owned))

  -- `osCreateClientCertificate`
  unfoldable pub os_create_client_certificate : Hawtio → Act W (Option Secret × ℤ)
  unfolding keep_certificate create_certificate new_signed_certificate_secret
  os_create_client_certificate hawtio =
      let name = hawtio.metadata.name <> "-tls-proxying" in
      if r.under_test then pure (none, pos 0) else (do
        (secret, expiry_in) ←
            catch (r.secrets.read (record { namespace = hawtio.metadata.namespace; name = name })) (
              ensure_certificate (new_signed_certificate_secret hawtio) hawtio
                "Creating the client certificate secret failed" name (λ owned stored. stored))
        pure (some secret, expiry_in))
