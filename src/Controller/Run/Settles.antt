-- ===== src/Controller/Run/Settles.antt =====
-- pkg/controller/hawtio/hawtio_controller.go: the phases before the deployment, over several calls.
use hawtio_operator.Base.{ℕ, suc, ◌≡◌, ◌⊎◌}
use hawtio_operator.Base.Errors.{ok}
use hawtio_operator.Kube.{Key}
use hawtio_operator.Controller.Cluster.{Reconciler, requeue_now}
use hawtio_operator.Controller.Run.{stop, go_on, set_up}
use hawtio_operator.Controller.Run.Calls.{calls, Seen, seen, IsPlain, missing, Serves}

module _ {W V : Type 0} (r : Reconciler W V) (key : Key) (server : Serves r key) where
  abbrev view : W → Seen
  view w = seen (server.holds w)

  abbrev Step : W → Type 0
  Step w =
      (set_up r key w ≡ (ok (go_on (server.holds w)), w))
      ⊎ ((v : W) × (set_up r key w ≡ (ok (stop requeue_now), v))
          × IsPlain (view v)
          × (suc (missing (view v)) ≡ missing (view w)))

  -- The calls end with the resource going on to its deployment.
  abbrev pub GoesOn : ℕ → W → Type 0
  GoesOn n w = (v : W) × (calls r n key w ≡ (ok (go_on (server.holds v)), v))
