-- ===== src/Controller/Defaults.antt =====
-- pkg/controller/hawtio/defaults.go, and `verifyRBACConfigMap` of reconcile_security.go.
use hawtio_operator.Base.{
  ◌*◌, String, ◌<>◌, Bool, true, false, not, ◌&&◌, ◌||◌, Option, none, some, [],
}
use hawtio_operator.Base.{◌==◌, if◌then◌else◌}
use hawtio_operator.Base.Int.{ℤ, pos, le_int, lt_int}
use hawtio_operator.Base.Dict.{has_key, text_at}
use hawtio_operator.Base.Errors.{message, Result, ok, err, wrap, is_not_found, is_forbidden}
use hawtio_operator.Base.Act.{Act, pure, raise, lift, catch, or_fail, ◌>>=◌, ◌>>◌}
use hawtio_operator.Kube.{Key, ConfigMap, Secret}
use hawtio_operator.Api.{Hawtio, cluster_type, namespace_type, phase_failed}
use hawtio_operator.Resources.Environment.{rbac_config_map_key}
use hawtio_operator.Controller.Cluster.{Client, Reconciler, hour}
use hawtio_operator.Controller.Lifecycle.{set_hawtio_phase}
use hawtio_operator.Controller.Issue.{tls_cert_key, tls_private_key_key}
use hawtio_operator.Controller.Certificate.{
  os_create_client_certificate, kube_create_serving_certificate,
}

-- `maxRequeueTime`
abbrev pub max_requeue_time : ℤ
max_requeue_time = pos (24 * hour)

abbrev min_int : ℤ → ℤ → ℤ
min_int a b = if le_int a b then a else b

abbrev pub with_type : String → Hawtio → Hawtio
with_type kind hawtio = record hawtio { spec = record hawtio.spec { kind = kind } }

pub record DeploymentConfiguration : Type 0 where
  pub openshift_console_url : String
  pub client_cert_secret : Option Secret
  pub tls_route_secret : Option Secret
  pub ca_cert_route_secret : Option Secret
  pub serving_cert_secret : Option Secret
  pub requeue_after : ℤ

-- The timer, from the times to the rotations of the two certificates.
unfoldable pub requeue_timer : ℤ → ℤ → ℤ
requeue_timer proxying serving =
    let first = min_int proxying max_requeue_time in
    let sooner = le_int first (pos 0) && le_int (pos 0) first || lt_int serving first in
    if lt_int (pos 0) serving && sooner then min_int serving max_requeue_time else first

abbrev console_url : Result ConfigMap → Result String
console_url (ok cm) = ok (text_at "consoleURL" cm.contents)
console_url (err e) = if is_not_found e || is_forbidden e then ok "" else err e

-- A secret of the user's: it has both parts of a certificate.
abbrev complete_secret : String → Secret → Result (Option Secret)
complete_secret name secret =
    if text_at tls_private_key_key secret.contents == ""
      || text_at tls_cert_key secret.contents == ""
    then err (
        message
          ("custom route secret " <> name <> " is missing required keys: tls.crt and/or tls.key"))
    else ok (some secret)

-- `hydrateDefaults`: the blueprint as the server would create it, under a temporary name.
module _ {W A : Type 0} (client : Client W A) (temporary_suffix : Act W String) where
  abbrev pub stripped : String → A → A
  stripped suffix a =
      let m = client.object.meta a in
      client.object.with_meta a (record m {
        generate_name = "";
        name = "t" <> suffix;
        resource_version = "";
        uid = "";
        self_link = "";
        creation_timestamp = 0;
        owner_references = [];
      })

  unfoldable pub hydrate_defaults : A → (A → A → A) → Act W A
  hydrate_defaults blueprint ensure_spec_integrity = do
    suffix ← temporary_suffix
    hydrated ←
        catch (client.dry_run (stripped suffix blueprint))
          λ answer. lift (wrap "failed to hydrate defaults via dry-run" answer)
    pure (ensure_spec_integrity blueprint hydrated)

module _ {W V : Type 0} (r : Reconciler W V) where
  -- `verifyHawtioSpecType`: whether the resource was changed.
  unfoldable pub verify_hawtio_spec_type : Hawtio → Act W Bool
  verify_hawtio_spec_type hawtio =
      if hawtio.spec.kind == ""
      then or_fail "failed to update type" (r.hawtios.patch hawtio (with_type cluster_type hawtio))
          true
      else (if not (hawtio.spec.kind == namespace_type) && not (hawtio.spec.kind == cluster_type)
          then set_hawtio_phase r hawtio phase_failed
            >> raise (message ("unsupported type: " <> hawtio.spec.kind))
          else pure false)

  -- `verifyRBACConfigMap`
  unfoldable pub verify_rbac_config_map : Hawtio → Key → Act W Bool
  verify_rbac_config_map hawtio key =
      let cm = hawtio.spec.rbac.config_map in
      if cm == "" then pure true else (do
        found ← r.config_maps.read (record { namespace = key.namespace; name = cm })
        pure (has_key rbac_config_map_key found.contents))

  -- `findConsoleURL`
  unfoldable pub find_console_url : Act W String
  find_console_url =
      if r.api_spec.is_openshift4
      then catch
          (r.config_maps.read
            (record { namespace = "openshift-config-managed"; name = "console-public" }))
          (λ found. lift (console_url found))
      else pure ""

  abbrev pub owned : Hawtio → Option Secret × ℤ → Act W (Option Secret × ℤ)
  owned hawtio (none, expiry_in) = pure (none, expiry_in)
  owned hawtio (some secret, expiry_in) = do
    secret' ← lift (r.secrets.set_controller_reference hawtio secret)
    pure (some secret', expiry_in)

  -- `resolveProxyClientCertificate`
  unfoldable pub resolve_proxy_client_certificate : Hawtio → Act W (Option Secret × ℤ)
  unfolding os_create_client_certificate
  resolve_proxy_client_certificate hawtio =
      if r.api_spec.is_openshift4
      then (os_create_client_certificate r hawtio >>= owned hawtio)
      else pure (none, pos 0)

  -- `resolveServingClientCertificate`
  unfoldable pub resolve_serving_client_certificate : Hawtio → Act W (Option Secret × ℤ)
  unfolding kube_create_serving_certificate
  resolve_serving_client_certificate hawtio =
      if r.api_spec.is_openshift4
      then pure (none, pos 0)
      else (kube_create_serving_certificate r hawtio >>= λ (secret, expiry_in).
          owned hawtio (some secret, expiry_in))

  -- `resolveRouteCertificate` and `resolveRouteCACertificate`, of the name of the secret
  unfoldable pub resolve_route_certificate : Hawtio → String → Act W (Option Secret)
  resolve_route_certificate hawtio name =
      if name == ""
      then pure none
      else (r.secrets.read (record { namespace = hawtio.metadata.namespace; name = name })
          >>= λ secret. lift (complete_secret name secret))

  -- `initDeploymentConfiguration`
  unfoldable pub init_deployment_configuration : Hawtio → Act W DeploymentConfiguration
  unfolding find_console_url resolve_proxy_client_certificate resolve_serving_client_certificate
      resolve_route_certificate requeue_timer
  init_deployment_configuration hawtio = do
    url ← find_console_url
    (proxying, proxying_expiry) ← resolve_proxy_client_certificate hawtio
    (serving, serving_expiry) ← resolve_serving_client_certificate hawtio
    route ← resolve_route_certificate hawtio hawtio.spec.route.cert_secret
    ca ← resolve_route_certificate hawtio hawtio.spec.route.ca_cert.name
    pure (record {
      openshift_console_url = url;
      client_cert_secret = proxying;
      tls_route_secret = route;
      ca_cert_route_secret = ca;
      serving_cert_secret = serving;
      requeue_after = requeue_timer proxying_expiry serving_expiry;
    })
