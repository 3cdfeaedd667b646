-- ===== src/Controller/Run/Issues.antt =====
-- pkg/controller/hawtio: the certificates and the deployment's configuration on a cluster that accepts
-- the operator's requests.
use hawtio_operator.Base.{String, true, ◌≡◌, refl, Option, none, some, inl, inr, Bool-cases}
use hawtio_operator.Base.Int.{ℤ, pos}
use hawtio_operator.Base.Errors.{Result, ok, err}
use hawtio_operator.Base.Act.{Act, pure, ◌>>=◌}
use hawtio_operator.Base.Succeeds.{SucceedsIn, Returns, Succeeds, Succeeds-else}
use hawtio_operator.Kube.{Time, Secret}
use hawtio_operator.Api.{Hawtio}
use hawtio_operator.Controller.Cluster.{Reconciler}
use hawtio_operator.Controller.Issue.{generate_certificate_secret, certificate_secret}
use hawtio_operator.Controller.Certificate.{
  certificate_expiry_period, new_self_certificate_secret, certificate_common_name, expiration_date,
  rotated, keep_certificate, create_certificate, ensure_certificate,
  kube_create_serving_certificate, check_certificate_expiry, is_zero,
}
use hawtio_operator.Controller.Defaults.{
  owned, find_console_url, resolve_proxy_client_certificate, resolve_serving_client_certificate,
  resolve_route_certificate, init_deployment_configuration,
}
use mathlib.Core.Path.{subst}
use hawtio_operator.Base.{sym}
use hawtio_operator.Base.Errors.{Error, is_not_found}
use hawtio_operator.Base.Succeeds.{Returns-bind}
use hawtio_operator.Controller.Crypto.{PrivateKey}
use hawtio_operator.Controller.Run.Works.{Works, serving_key, make, IsOwnOrMissing}

module _ {W V : Type 0} (r : Reconciler W V) (hawtio : Hawtio) (works : Works r hawtio) where
  -- The secret holds a certificate that has just been signed.
  abbrev IsIssued : String → String → Secret → Type 0
  IsIssued name namespace secret =
      (key : PrivateKey) × (der : String) × (secret
        ≡ certificate_secret r hawtio name namespace key der)

  generate_certificate_secret-IsIssued :
      (name namespace : String) (now : Time)
      → Returns (IsIssued name namespace) (
          generate_certificate_secret r hawtio name namespace none
            (certificate_common_name r hawtio)
            (expiration_date r hawtio now))
  unfolding generate_certificate_secret
  generate_certificate_secret-IsIssued name namespace now w =
      let (serial, w1, e1, _) = works.serials w in
      let (before, w2, e2, _) = works.clock w1 in
      let (key, w3, e3, _) = works.keys w2 in
      let (der, w4, e4, _) = works.signs serial before now key w3 in
      rw (e1, e2, e3, e4)
        (certificate_secret r hawtio name namespace key der, w4, refl, (key, der, refl))

  new_self_certificate_secret-IsIssued :
      (name namespace : String) → Returns (IsIssued name namespace) (make r hawtio name namespace)
  unfolding new_self_certificate_secret
  new_self_certificate_secret-IsIssued name namespace w =
      let (now, v, e, _) = works.clock w in
      let (secret, u, e', issued) = generate_certificate_secret-IsIssued name namespace now v in
      rw (e, e') (secret, u, refl, issued)

  -- The secret may be owned by the resource.
  abbrev IsFit : Secret × ℤ → Type 0
  IsFit (secret, expiry_in) = works.secrets.IsOurs secret

  -- And the time to the next check is that of a certificate that has just been made.
  abbrev pub IsPeriod : Secret × ℤ → Type 0
  IsPeriod (secret, expiry_in) =
      works.secrets.IsOurs secret × (expiry_in ≡ certificate_expiry_period hawtio)

  rotated-IsFit :
      (secret : Secret) (w v : W)
      → r.secrets.read (serving_key r hawtio) w ≡ (ok secret, v)
      → works.secrets.IsOurs secret
      → SucceedsIn IsFit (rotated r (make r hawtio) hawtio secret) v
  unfolding rotated
  rotated-IsFit secret w v found ours =
      let (now, x, e, _) = works.clock v in
      let expiry_in = check_certificate_expiry r hawtio secret now in
      elim (Bool-cases (is_zero expiry_in)) [
        | inl z ↦
            let (fresh, u, e', _) =
              new_self_certificate_secret-IsIssued secret.metadata.name secret.metadata.namespace
                x in
            let (stored, y, e'', ours') =
              works.secrets.updates w v x u secret fresh now found e e' in
            rw (e, z, e', e'') (_, y, refl, ours')
        | inr z ↦ rw (e, z) (_, x, refl, ours)
      ]

  pub create_certificate-IsPeriod :
      (text : String) (w v : W) (e : Error)
      → r.secrets.read (serving_key r hawtio) w ≡ (err e, v)
      → is_not_found e ≡ true
      → SucceedsIn IsPeriod
          (create_certificate r
            (make r hawtio)
            hawtio
            text
            (serving_key r hawtio).name
            (λ owned stored. owned))
          v
  unfolding create_certificate
  create_certificate-IsPeriod text w v e missing not_found =
      let k = serving_key r hawtio in
      let (made, u, e', (key, der, same)) =
        new_self_certificate_secret-IsIssued k.name k.namespace v in
      let fit = subst works.secrets.IsOurs (sym same) (works.secrets.issued key der) in
      let (owned, e'', ours) = works.secrets.owns made fit in
      let (stored, x, e3, _) = works.secrets.creates w v u e made owned missing not_found e' e'' in
      rw (e', e'', e3) (_, x, refl, (ours, refl))

  ensured :
      (text : String) (found : Result Secret) (w v : W)
      → r.secrets.read (serving_key r hawtio) w ≡ (found, v)
      → IsOwnOrMissing r hawtio works.secrets.IsOurs found
      → SucceedsIn IsFit
          (ensure_certificate r
            (make r hawtio)
            hawtio
            text
            (serving_key r hawtio).name
            (λ owned stored. owned)
            found)
          v
  unfolding keep_certificate
  ensured text (ok secret) w v found (label, ours) = rw label (rotated-IsFit secret w v found ours)
  ensured text (err e) w v found missing =
      let (pair, u, made, (ours, _)) = create_certificate-IsPeriod text w v e found missing in
      rw (missing, made) (pair, u, refl, ours)

  kube_create_serving_certificate-IsFit : Returns IsFit (kube_create_serving_certificate r hawtio)
  unfolding kube_create_serving_certificate
  kube_create_serving_certificate-IsFit w =
      let (found, v, e, l) = works.secrets.reads w in
      rw e (ensured "Creating the serving certificate secret failed" found w v e l)

  owned-Succeeds :
      (pair : Secret × ℤ) → IsFit pair → Succeeds (owned r hawtio (some pair.0, pair.1))
  owned-Succeeds (secret, expiry_in) ours w =
      let (secret', e, _) = works.secrets.owns secret ours in
      rw e ((some secret', expiry_in), w, refl, tt)

  resolve_serving-Succeeds : Succeeds (resolve_serving_client_certificate r hawtio)
  unfolding resolve_serving_client_certificate
  resolve_serving-Succeeds =
      let create = kube_create_serving_certificate r hawtio in
      let next : Secret × ℤ → Act W (Option Secret × ℤ) =
        λ (secret, expiry_in). owned r hawtio (some secret, expiry_in) in
      Succeeds-else r.api_spec.is_openshift4 (pure (none, pos 0)) (create >>= next)
        works.on_kubernetes
        (Returns-bind IsFit (λ a. Unit {0}) create next kube_create_serving_certificate-IsFit
          owned-Succeeds)

  pub find_console_url-eq : (w : W) → find_console_url r w ≡ (ok "", w)
  unfolding find_console_url
  find_console_url-eq w = rw works.on_kubernetes refl

  pub resolve_proxy-eq :
      (w : W) → resolve_proxy_client_certificate r hawtio w ≡ (ok (none, pos 0), w)
  unfolding resolve_proxy_client_certificate
  resolve_proxy-eq w = rw works.on_kubernetes refl

  pub resolve_route-eq :
      (name : String) (w : W) → name ≡ "" → resolve_route_certificate r hawtio name w ≡ (ok none, w)
  unfolding resolve_route_certificate
  resolve_route-eq name w e = rw e refl

  pub init_deployment_configuration-Succeeds : Succeeds (init_deployment_configuration r hawtio)
  unfolding init_deployment_configuration
  init_deployment_configuration-Succeeds w =
      let ((serving, expiry_in), v, e, _) = resolve_serving-Succeeds w in
      rw
        (
          find_console_url-eq w,
          resolve_proxy-eq w,
          e,
          resolve_route-eq hawtio.spec.route.cert_secret v works.no_certificate,
          resolve_route-eq hawtio.spec.route.ca_cert.name v works.no_authority,
        )
        (_, v, refl, tt)
