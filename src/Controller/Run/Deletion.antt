-- ===== src/Controller/Run/Deletion.antt =====
-- pkg/controller/hawtio/hawtio_controller.go: a call for a resource that is being deleted.
use hawtio_operator.Base.{true, ◌≡◌, refl, ap, ◌∙◌, Option, some}
use hawtio_operator.Base.Errors.{Result, ok, err}
use hawtio_operator.Base.Act.{answered}
use hawtio_operator.Kube.{Key, Time}
use hawtio_operator.Api.{Hawtio}
use hawtio_operator.Controller.Cluster.{Reconciler, no_requeue}
use hawtio_operator.Controller.Lifecycle.{deleted_if, fetch_hawtio, handle_deletion, deletion}
use hawtio_operator.Controller.Run.{stop, set_up, prepare, reconcile}

module _ {W V : Type 0} (r : Reconciler W V) (key : Key) where
  handled :
      (h : Hawtio) (t : Time) (u v : W) (done : Result (Unit {0}))
      → h.metadata.deletion_timestamp ≡ some t
      → deletion r h key u ≡ (done, v)
      → handle_deletion r h key u ≡ (answered "deletion failed" done true, v)
  unfolding handle_deletion
  handled h t u v done marked ended =
      ap (λ (o : Option Time). deleted_if r o (deletion r h key) u) marked
      ∙ ap (λ (x : Result (Unit {0}) × W). (answered "deletion failed" x.0 true, x.1)) ended

  prepared :
      (h : Hawtio) (u v : W) (done : Result (Unit {0}))
      → handle_deletion r h key u ≡ (answered "deletion failed" done true, v)
      → prepare r h key u ≡ (answered "deletion failed" done (stop no_requeue), v)
  unfolding prepare
  prepared h u v (ok x) e = rw e refl
  prepared h u v (err x) e = rw e refl

  set_up_deleted :
      (h : Hawtio) (w u v : W) (done : Result (Unit {0}))
      → r.hawtios.get key w ≡ (ok h, u)
      → prepare r h key u ≡ (answered "deletion failed" done (stop no_requeue), v)
      → set_up r key w ≡ (answered "deletion failed" done (stop no_requeue), v)
  unfolding set_up fetch_hawtio
  set_up_deleted h w u v done found e = rw found e

  ended_call :
      (w v : W) (done : Result (Unit {0}))
      → set_up r key w ≡ (answered "deletion failed" done (stop no_requeue), v)
      → reconcile r key w ≡ (answered "deletion failed" done no_requeue, v)
  unfolding reconcile
  ended_call w v (ok x) e = rw e refl
  ended_call w v (err x) e = rw e refl

  -- A call for a resource that is being deleted does nothing but its deletion: it makes no object, leaves the
  -- world as the deletion leaves it, and ends without another call, or with the deletion's error.
  pub reconcile-deletion :
      (h : Hawtio) (t : Time) (w u v : W) (done : Result (Unit {0}))
      → r.hawtios.get key w ≡ (ok h, u)
      → h.metadata.deletion_timestamp ≡ some t
      → deletion r h key u ≡ (done, v)
      → reconcile r key w ≡ (answered "deletion failed" done no_requeue, v)
  reconcile-deletion h t w u v done found marked ended =
      ended_call w v done (
        set_up_deleted h w u v done found (prepared h u v done (handled h t u v done marked ended)))
