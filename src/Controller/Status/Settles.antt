-- ===== src/Controller/Status/Settles.antt =====
-- pkg/controller/hawtio/hawtio_controller.go: the last phase, over two calls.
use mathlib.Core.Path.{subst}
use hawtio_operator.Base.{
  String, Bool, true, false, ◌≡◌, inl, inr, refl, sym, ap, ◌∙◌, Option, none, some, arith, eq_refl,
}
use hawtio_operator.Base.{Bool-cases}
use hawtio_operator.Base.Int.{ℤ, pos, negsuc}
use hawtio_operator.Base.Errors.{Result, ok}
use hawtio_operator.Base.Act.{>>=-eq-ok}
use hawtio_operator.Kube.{Key}
use hawtio_operator.Kube.Workload.{Deployment}
use hawtio_operator.Kube.Network.{Route, Ingress}
use hawtio_operator.Api.{Hawtio, HawtioStatus}
use hawtio_operator.Controller.Cluster.{Reconciler, Outcome}
use hawtio_operator.Controller.Status.{
  Deployed, new_status, chosen_url, same_int, same_status, with_status,
}
use hawtio_operator.Controller.Run.{
  update_from, images_of, selector_of, write_status, final_outcome,
}

same_int_refl : (a : ℤ) → same_int a a ≡ true
same_int_refl (pos a) = ground arith
same_int_refl (negsuc a) = ground arith

same_status_refl : (s : HawtioStatus) → same_status s s ≡ true
same_status_refl s =
    rw
      (
        eq_refl s.image,
        eq_refl s.gateway_image,
        eq_refl s.phase,
        eq_refl s.url,
        same_int_refl s.replicas,
        eq_refl s.selector,
      )
      refl

chosen_url_twice :
    (routes : Bool) (ingress : Option Ingress) (route : Option Route) (url old : String)
    → chosen_url routes ingress route url (chosen_url routes ingress route url old)
      ≡ chosen_url routes ingress route url old
chosen_url_twice routes (some i) route url old = refl
chosen_url_twice true none (some r) url old = refl
chosen_url_twice false none (some r) url old = refl
chosen_url_twice routes none none url old = refl

-- A status that was computed from another one is computed from itself again.
new_status-new_status :
    (routes : Bool) (d : Deployed) (deployment : Deployment) (pair : String × String)
    (text : String) (old : HawtioStatus)
    → new_status routes d deployment pair text (new_status routes d deployment pair text old)
      ≡ new_status routes d deployment pair text old
unfolding new_status
new_status-new_status routes d deployment (online, gateway) text old = λ i.
    record (new_status routes d deployment (online, gateway) text old) {
      url = chosen_url_twice routes d.ingress d.route d.url old.url i;
    }

module _ {W V : Type 0} (r : Reconciler W V) (d : Deployed) (key : Key)
    (deployment : Deployment) where
  -- After an update of the status of the resource that was read, the resource is read with that status, and reading
  -- changes nothing; the rest of the resource is the server's.
  abbrev pub ReadsBack : Type 0
  ReadsBack =
      (h written : Hawtio) (s : HawtioStatus) (w v : W)
      → r.hawtios.get key w ≡ (ok h, w)
      → r.status_update (with_status s h) w ≡ (ok written, v)
      → (h' : Hawtio) × (r.hawtios.get key v ≡ (ok h', v)) × (h'.status ≡ s)

  abbrev phase_at : W → Result Outcome × W
  phase_at = update_from r d key (ok deployment)

  ended_at : (o : Outcome) (u v : W) → phase_at u ≡ (ok o, v) → u ≡ v → phase_at v ≡ (ok o, v)
  ended_at o u v e same =
      subst (λ x. phase_at x ≡ (ok o, x)) same (e ∙ ap (λ x. (ok o, x)) (sym same))

  unchanged :
      (h : Hawtio) (pair : String × String) (text : String) (u : W)
      → r.hawtios.get key u ≡ (ok h, u)
      → images_of r deployment ≡ ok pair
      → selector_of r deployment ≡ ok text
      → new_status r.api_spec.routes d deployment pair text h.status ≡ h.status
      → phase_at u ≡ (ok (final_outcome d.config.requeue_after), u)
  unchanged h pair text u read images selector same =
      let up_to_date = ap (same_status h.status) same ∙ same_status_refl h.status in
      rw (read, images, selector, up_to_date) refl

  -- The last phase settles: after a run that succeeded, a second one on the same deployment has the same outcome and leaves
  -- the cluster as it is, whether the first one wrote the status or found it up to date, on a server where the
  -- status that an update sends is read back.
  pub update_from-settles :
      (h : Hawtio) (pair : String × String) (text : String) (o : Outcome) (w v : W)
      → ReadsBack
      → r.hawtios.get key w ≡ (ok h, w)
      → images_of r deployment ≡ ok pair
      → selector_of r deployment ≡ ok text
      → update_from r d key (ok deployment) w ≡ (ok o, v)
      → update_from r d key (ok deployment) v ≡ (ok o, v)
  update_from-settles h pair text o w v back read images selector done =
      let s = new_status r.api_spec.routes d deployment pair text h.status in
      let wrote : write_status r s h d.config.requeue_after w ≡ (ok o, v) =
        rw (read, images, selector) at done in
      elim (Bool-cases (same_status h.status s)) [
        | inl e ↦ ended_at o w v done (ap (λ x. x.1) (rw e at wrote))
        | inr e ↦
            let (g, u, written, ended) =
              >>=-eq-ok (r.status_update (with_status s h)) _ w (rw e at wrote) in
            let (h', reads, kept) = back h g s w u read written in
            let twice = new_status-new_status r.api_spec.routes d deployment pair text h.status in
            let again = unchanged h' pair text u reads images selector (
              subst (λ t. new_status r.api_spec.routes d deployment pair text t ≡ t) (sym kept)
                twice) in
            ended_at o u v (again ∙ ended) (ap (λ x. x.1) ended)
      ]
