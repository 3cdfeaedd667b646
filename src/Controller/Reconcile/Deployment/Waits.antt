-- ===== src/Controller/Reconcile/Deployment/Waits.antt =====
-- pkg/controller/hawtio/reconcile_deployment.go: what the reconciler takes from the poller.
use hawtio_operator.Base.{
  ◌*◌, String, false, ◌||◌, ◌≡◌, ◌≢◌, ◌⊎◌, inl, inr, refl, Option, none, some, arith, eq_iff,
}
use hawtio_operator.Base.{◌==◌, Bool-cases}
use hawtio_operator.Base.Int.{pos}
use hawtio_operator.Base.Errors.{Error, ok, err}
use hawtio_operator.Base.Act.{Act}
use hawtio_operator.Kube.{ConfigMap}
use hawtio_operator.Api.{Hawtio}
use hawtio_operator.Resources.Deployment.{new_default_deployment}
use hawtio_operator.Controller.Cluster.{Outcome, Reconciler, second}
use hawtio_operator.Controller.Lifecycle.{handle_error}
use hawtio_operator.Controller.Defaults.{DeploymentConfiguration}
use hawtio_operator.Controller.Reconcile.Config.{create_or_adopt}
use hawtio_operator.Controller.Reconcile.Deployment.{
  digests_or_wait, deployment_mutated, reconcile_deployment,
}

abbrev pub soon : Outcome
soon = record { requeue = false; requeue_after = pos (2 * second) }

-- A digest is missing, and no check has failed: the first check is still to come.
abbrev pub IsPending : String → String → Option Error → Type 0
IsPending online gateway error = (error ≡ none) × ((online ≡ "") ⊎ (gateway ≡ ""))

-- Both digests are known, or the last check failed.
abbrev pub IsSettled : String → String → Option Error → Type 0
IsSettled online gateway error = ((online ≢ "") × (gateway ≢ "")) ⊎ ((e : Error) × (error ≡ some e))

-- What the poller's answer comes to: an error that asks for a call after two seconds, or both digests.
abbrev Answered : String → String → Option Error → Type 0
Answered online gateway error =
    (IsPending online gateway error
      × ((e : Error) × (digests_or_wait (online, gateway, error) ≡ err e)
          × (handle_error e ≡ ok soon)))
    ⊎ (IsSettled online gateway error
        × (digests_or_wait (online, gateway, error) ≡ ok (online, gateway)))

answered : (online gateway : String) (error : Option Error) → Answered online gateway error
unfolding digests_or_wait handle_error
answered online gateway (some e) = inr (inr (e, refl), refl)
answered online gateway none = elim (Bool-cases (online == "" || gateway == "")) [
  | inl h ↦ inl ((refl, ground (arith, eq_iff online "", eq_iff gateway "")), rw h (_, refl, refl))
  | inr h ↦ inr (ground (arith, eq_iff online "", eq_iff gateway ""), rw h refl)
]

module _ {W V : Type 0} (r : Reconciler W V) where
  -- With a poller, the deployment is not touched before the first check: while a digest is missing and no check has
  -- failed, its reconciliation ends where the poller left it, with an error that asks for a call after two
  -- seconds. Otherwise, with both digests or after a check that failed, it goes on with just the digests that
  -- the poller gave.
  pub reconcile_deployment-waits :
      (request : Act W (String × String × Option Error)) (online gateway : String)
      (error : Option Error) (hawtio : Hawtio) (config : DeploymentConfiguration)
      (config_map : ConfigMap) (w v : W)
      → r.update_poller ≡ some request
      → request w ≡ (ok (online, gateway, error), v)
      → (IsPending online gateway error
          × ((e : Error) × (reconcile_deployment r hawtio config config_map w ≡ (err e, v))
              × (handle_error e ≡ ok soon)))
        ⊎ (IsSettled online gateway error
            × (reconcile_deployment r hawtio config config_map w
                ≡ create_or_adopt r.deployments
                    (new_default_deployment hawtio)
                    (deployment_mutated r hawtio config config_map online gateway)
                    v))
  unfolding reconcile_deployment
  reconcile_deployment-waits request online gateway error hawtio config config_map w v there asked =
      elim (answered online gateway error) [
        | inl (pending, (e, waits, report)) ↦
            inl (pending, (e, rw (there, asked, waits) refl, report))
        | inr (settled, goes_on) ↦ inr (settled, rw (there, asked, goes_on) refl)
      ]
