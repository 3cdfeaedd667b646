-- ===== src/Controller/Reconcile/Deployment/Same.antt =====
-- pkg/controller/hawtio/reconcile_deployment.go: what the specification of the written deployment depends on.
use mathlib.Core.Path.{subst}
use hawtio_operator.Base.{String, ◌≡◌, refl, sym, ap, ◌∙◌, ◌||◌, inl, inr, Option-cases, Bool-cases}
use hawtio_operator.Base.{◌==◌}
use hawtio_operator.Base.Errors.{wrap, Result, ok, err, ok-injective}
use hawtio_operator.Base.Act.{lift, catch, caught, >>=-eq-ok}
use hawtio_operator.Kube.{ConfigMap}
use hawtio_operator.Kube.Workload.{Deployment}
use hawtio_operator.Api.{Hawtio}
use hawtio_operator.Resources.Deployment.{new_deployment}
use hawtio_operator.Controller.Cluster.{Reconciler}
use hawtio_operator.Controller.Defaults.{DeploymentConfiguration, stripped, hydrate_defaults}
use hawtio_operator.Controller.Reconcile.Deployment.{
  add_image_digests, deployment_integrity, deployment_mutated, pinned, secret_version,
}

wrapped-ok :
    {W A : Type 0} (text : String) (x : Result A × W) (a : A) (v : W)
    → caught x (λ answer. lift (wrap text answer)) ≡ (ok a, v)
    → x ≡ (ok a, v)
wrapped-ok text (ok b, w) a v e = e
wrapped-ok text (err f, w) a v e = cc

module _ {W V : Type 0} (r : Reconciler W V) where
  -- The server fills in the same defaults of a blueprint each time, whatever its temporary name.
  abbrev pub DefaultsAlike : Type 0
  DefaultsAlike =
      (b d d' : Deployment) (s s' : String) (w w' v v' : W)
      → r.deployments.dry_run (stripped r.deployments r.temporary_suffix s b) w ≡ (ok d, v)
      → r.deployments.dry_run (stripped r.deployments r.temporary_suffix s' b) w' ≡ (ok d', v')
      → d.spec ≡ d'.spec

  -- A hydrated blueprint is the server's answer, with what it stripped put back.
  abbrev IsHydrated : Deployment → Deployment → Type 0
  IsHydrated b h =
      (s : String) × (d : Deployment) × (w : W) × (v : W) × (r.deployments.dry_run
          (stripped r.deployments r.temporary_suffix s b) w
        ≡ (ok d, v))
      × (h ≡ deployment_integrity b d)

  hydrated_lem :
      (b h : Deployment) (w v : W)
      → hydrate_defaults r.deployments r.temporary_suffix b deployment_integrity w ≡ (ok h, v)
      → IsHydrated b h
  unfolding hydrate_defaults
  hydrated_lem b h w v e =
      let (s, w1, e1, f1) = >>=-eq-ok r.temporary_suffix _ w e in
      let dry = r.deployments.dry_run (stripped r.deployments r.temporary_suffix s b) in
      let (d, w2, e2, f2) =
        >>=-eq-ok
          (catch dry (λ answer. lift (wrap "failed to hydrate defaults via dry-run" answer))) _ w1
          f1 in
      (
        s,
        d,
        w1,
        w2,
        wrapped-ok "failed to hydrate defaults via dry-run" (dry w1) d w2 e2,
        sym (ok-injective (ap (λ x. x.0) f2)),
      )

  integrity-spec :
      (b a a' : Deployment)
      → a.spec ≡ a'.spec
      → (deployment_integrity b a).spec ≡ (deployment_integrity b a').spec
  unfolding deployment_integrity
  integrity-spec b a a' e = rw e refl

  pinned-spec :
      (hawtio : Hawtio) (online gateway : String) (a b : Deployment)
      → a.spec ≡ b.spec
      → (pinned r hawtio a online gateway).spec ≡ (pinned r hawtio b online gateway).spec
  unfolding add_image_digests
  pinned-spec hawtio online gateway a b e = elim (Option-cases r.update_poller) [
    | inl h ↦ rw h e
    | inr (request, h) ↦ elim (Bool-cases (online == "" || gateway == "")) [
      | inl t ↦ rw (h, t) e
      | inr t ↦ rw (h, t, e) refl
    ]
  ]

  -- What the specification of a mutated deployment is made of.
  abbrev IsRendered :
      Hawtio → DeploymentConfiguration → ConfigMap → String → String → Deployment → Type 0
  IsRendered hawtio config config_map online gateway d =
      (b : Deployment) × (h : Deployment) × (a : Deployment) × (new_deployment r.platform hawtio
          r.api_spec config.openshift_console_url config_map.metadata.resource_version
          (secret_version r config.client_cert_secret) r.build_variables
        ≡ ok b)
      × IsHydrated b h
      × (a.spec ≡ h.spec)
      × (d ≡ pinned r hawtio a online gateway)

  mutated_lem :
      (hawtio : Hawtio) (config : DeploymentConfiguration) (config_map : ConfigMap)
      (online gateway : String) (live d : Deployment) (w v : W)
      → deployment_mutated r hawtio config config_map online gateway live w ≡ (ok d, v)
      → IsRendered hawtio config config_map online gateway d
  unfolding deployment_mutated
  mutated_lem hawtio config config_map online gateway live d w v e =
      let (l, w1, e1, f1) =
        >>=-eq-ok (lift (r.deployments.set_controller_reference hawtio live)) _ w e in
      let (b, w2, e2, f2) =
        >>=-eq-ok
          (lift (
            new_deployment r.platform hawtio r.api_spec config.openshift_console_url
              config_map.metadata.resource_version (secret_version r config.client_cert_secret)
              r.build_variables))
          _ w1 f1 in
      let (h, w3, e3, f3) =
        >>=-eq-ok (hydrate_defaults r.deployments r.temporary_suffix b deployment_integrity) _ w2
          f2 in
      (
        b,
        h,
        _,
        ap (λ x. x.0) e2,
        hydrated_lem b h w2 w3 e3,
        refl,
        sym (ok-injective (ap (λ x. x.0) f3)),
      )

  -- Two reconciliations of a resource with the same configuration and the same digests write the same specification,
  -- whatever deployments they find: on a server that fills in the same defaults each time, a repeated
  -- reconciliation rolls nothing out.
  pub deployment_mutated-same :
      (hawtio : Hawtio) (config : DeploymentConfiguration) (config_map : ConfigMap)
      (online gateway : String) (live d live' d' : Deployment) (w v w' v' : W)
      → DefaultsAlike
      → deployment_mutated r hawtio config config_map online gateway live w ≡ (ok d, v)
      → deployment_mutated r hawtio config config_map online gateway live' w' ≡ (ok d', v')
      → d'.spec ≡ d.spec
  deployment_mutated-same hawtio config config_map online gateway live d live' d' w v w' v' alike e
        e' =
      let (b, h, a, made, (s, o, x, y, dry, integral), spec, same) =
        mutated_lem hawtio config config_map online gateway live d w v e in
      let (b', h', a', made', (s', o', x', y', dry', integral'), spec', same') =
        mutated_lem hawtio config config_map online gateway live' d' w' v' e' in
      let blueprint : b' ≡ b = ok-injective (sym made' ∙ made) in
      let dry'' : r.deployments.dry_run (stripped r.deployments r.temporary_suffix s' b) x'
          ≡ (ok o', y') =
        subst
          (λ c.
            r.deployments.dry_run (stripped r.deployments r.temporary_suffix s' c) x' ≡ (ok o', y'))
          blueprint dry' in
      let server : o'.spec ≡ o.spec = alike b o' o s' s x' x y' y dry'' dry in
      let hydrated : h'.spec ≡ h.spec =
        ap (λ (c : Deployment). c.spec) integral'
        ∙ ap (λ c. (deployment_integrity c o').spec) blueprint
        ∙ integrity-spec b o' o server
        ∙ sym (ap (λ (c : Deployment). c.spec) integral) in
      ap (λ (c : Deployment). c.spec) same'
      ∙ pinned-spec hawtio online gateway a' a (spec' ∙ hydrated ∙ sym spec)
      ∙ sym (ap (λ (c : Deployment). c.spec) same)
