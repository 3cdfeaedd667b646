-- ===== src/Controller/Watches/Laws.antt =====
-- pkg/controller/hawtio/hawtio_controller.go: the events that the watches leave out.
use hawtio_operator.Base.{String, Bool, true, false, not, ◌||◌, ◌≡◌, refl, ap, arith}
use hawtio_operator.Base.Int.{ℤ, pos, negsuc}
use hawtio_operator.Base.Errors.{Result, ok}
use hawtio_operator.Base.Act.{Act, lift, ◌>>=◌}
use hawtio_operator.Api.{HawtioStatus}
use hawtio_operator.Kube.{Key}
use hawtio_operator.Kube.Workload.{Deployment}
use hawtio_operator.Controller.Cluster.{Reconciler, Outcome}
use hawtio_operator.Controller.Lifecycle.{is_deployment_failed}
use hawtio_operator.Controller.Status.{Deployed, same_int, new_status, phase_of}
use hawtio_operator.Controller.Run.{update_from, images_of, selector_of, write_status}
use hawtio_operator.Controller.Watches.{deployment_update_wanted}

same_int-eq : (a b : ℤ) → same_int a b ≡ true → a ≡ b
same_int-eq (pos a) (pos b) e = ap pos (ground arith)
same_int-eq (pos a) (negsuc b) e = ground arith
same_int-eq (negsuc a) (pos b) e = ground arith
same_int-eq (negsuc a) (negsuc b) e = ap negsuc (ground arith)

-- What the tests of an update that was ignored have in common.
abbrev LooksSame : Deployment → Deployment → Type 0
LooksSame old new =
    (old.status.replicas ≡ new.status.replicas)
    × (old.status.ready_replicas ≡ new.status.ready_replicas)
    × (old.metadata.generation ≡ new.metadata.generation)

none_of : (a b c : Bool) → (not a || not b || not c) ≡ false → (a ≡ true) × (b ≡ true) × (c ≡ true)
none_of a b c e = ground arith

ignored-LooksSame :
    (old new : Deployment) → deployment_update_wanted old new ≡ false → LooksSame old new
unfolding deployment_update_wanted
ignored-LooksSame old new e =
    let (replicas, ready, generation) =
      none_of (same_int old.status.replicas new.status.replicas)
        (same_int old.status.ready_replicas new.status.ready_replicas) _ e in
    (same_int-eq _ _ replicas, same_int-eq _ _ ready, ground arith)

-- A server raises the generation of a deployment when it changes its specification.
abbrev pub CountsGenerations : Deployment → Deployment → Type 0
CountsGenerations old new = old.metadata.generation ≡ new.metadata.generation → old.spec ≡ new.spec

abbrev pub FailsAlike : Deployment → Deployment → Type 0
FailsAlike old new =
    is_deployment_failed old.status.conditions ≡ is_deployment_failed new.status.conditions

same_phase :
    (old new : Deployment) → LooksSame old new → FailsAlike old new → phase_of old ≡ phase_of new
unfolding phase_of
same_phase old new (_, ready, _) fails = rw (ready, fails) refl

same_status :
    (routes : Bool) (d : Deployed) (old new : Deployment)
    → LooksSame old new
    → FailsAlike old new
    → (pair : String × String) (selector : String) (status : HawtioStatus)
    → new_status routes d old pair selector status ≡ new_status routes d new pair selector status
unfolding new_status
same_status routes d old new looks fails (online, gateway) selector status =
    rw (same_phase old new looks fails, looks.0) refl

module _ {W V : Type 0} (r : Reconciler W V) (d : Deployed) (key : Key) where
  -- The last phase, from what it takes of the deployment.
  abbrev updated_with :
      Result (String × String)
      → Result String
      → (String × String → String → HawtioStatus → HawtioStatus)
      → Act W Outcome
  updated_with images selector status = do
    hawtio ← r.hawtios.get key
    pair ← lift images
    text ← lift selector
    write_status r (status pair text hawtio.status) hawtio d.config.requeue_after

  -- An update of a deployment that the watch ignores would not have changed what the last phase of `Reconcile` does, from
  -- a server that counts generations, as long as the deployment's conditions tell of a failure neither less nor more.
  pub ignored_update-same :
      (old new : Deployment) (w : W)
      → deployment_update_wanted old new ≡ false
      → CountsGenerations old new
      → FailsAlike old new
      → update_from r d key (ok old) w ≡ update_from r d key (ok new) w
  ignored_update-same old new w ignored counts fails =
      let looks = ignored-LooksSame old new ignored in
      let spec = counts looks.2 in
      let images : images_of r old ≡ images_of r new =
        ap (λ s. images_of r (record old { spec = s })) spec in
      let selector : selector_of r old ≡ selector_of r new =
        ap (λ s. selector_of r (record old { spec = s })) spec in
      λ i.
        updated_with (images i) (selector i)
          (λ pair text status.
            same_status r.api_spec.routes d old new looks fails pair text status i)
          w
