-- ===== src/Controller/Run/Calls.antt =====
-- pkg/controller/hawtio/hawtio_controller.go: several calls of the phases before the deployment, and the server that
-- they meet.
use hawtio_operator.Base.{
  ℕ, zero, suc, ◌+◌, String, Bool, true, false, not, ◌&&◌, ◌||◌, ◌≡◌, ◌⊎◌, inl, inr, refl, Option,
  none, some, List, [], ◌∷◌, ◌++◌, arith, eq_iff,
}
use hawtio_operator.Base.{◌==◌, if◌then◌else◌, Bool-cases, has}
use hawtio_operator.Base.{eq_refl}
use hawtio_operator.Base.Errors.{Result, ok, err}
use hawtio_operator.Kube.{Key}
use hawtio_operator.Api.{Hawtio, cluster_type, namespace_type, phase_initialized, phase_failed}
use hawtio_operator.Controller.Cluster.{Reconciler}
use hawtio_operator.Controller.Lifecycle.{has_finalizer, hawtio_finalizer, with_phase}
use hawtio_operator.Controller.Run.{Progress, stop, go_on, set_up}

-- A call that asks at once for another one is followed by it.
abbrev pub retried :
    {W : Type 0}
    → (W → Result (Progress Hawtio) × W)
    → Result (Progress Hawtio) × W
    → Result (Progress Hawtio) × W
retried next (err e, w) = (err e, w)
retried next (ok (go_on h), w) = (ok (go_on h), w)
retried next (ok (stop o), w) = if o.requeue then next w else (ok (stop o), w)

-- The calls of `Reconcile` up to the deployment, with a number of further ones where they are asked for.
unfoldable pub calls : {W V : Type 0} → Reconciler W V → ℕ → Key → W → Result (Progress Hawtio) × W
unfolding set_up
calls r zero key w = set_up r key w
calls r (suc n) key w = retried (calls r n key) (set_up r key w)

abbrev pub is_set : {A : Type 0} → Option A → Bool
is_set none = false
is_set (some _) = true

pub not_set : {A : Type 0} (o : Option A) → is_set o ≡ false → o ≡ none
not_set none e = refl
not_set (some a) e = cc

-- What the phases before the deployment look at: whether the resource is being deleted, whether it has the
-- finalizer, its type, its config map of roles and its phase.
abbrev pub Seen : Type 0
Seen = Bool × Bool × String × String × String

abbrev pub seen : Hawtio → Seen
seen h = (
  is_set h.metadata.deletion_timestamp,
  has_finalizer hawtio_finalizer h,
  h.spec.kind,
  h.spec.rbac.config_map,
  h.status.phase,
)

abbrev pub IsKnownType : String → Type 0
IsKnownType kind = (kind ≡ "") ⊎ ((kind ≡ cluster_type) ⊎ (kind ≡ namespace_type))

-- A resource that asks for nothing special: it is not being deleted, its type is a known one or not given,
-- and it names no config map of roles.
abbrev pub IsPlain : Seen → Type 0
IsPlain (deleted, finalizer, kind, config_map, phase) =
    (deleted ≡ false) × IsKnownType kind × (config_map ≡ "")

-- The number of writes that are missing.
abbrev pub missing : Seen → ℕ
missing (deleted, finalizer, kind, config_map, phase) =
    (if finalizer then 0 else 1)
    + (if kind == "" then 1 else 0)
    + (if phase == "" || phase == phase_failed then 1 else 0)

abbrev pub Same : Hawtio → Hawtio → Type 0
Same h h' = seen h ≡ seen h'

-- The resource with other finalizers and another type.
abbrev pub changed : List String → String → Hawtio → Hawtio
changed finalizers kind h = record h {
  metadata = record h.metadata { finalizers = finalizers };
  spec = record h.spec { kind = kind };
}

-- What an API server documents for a client that reads its own writes: the resource is there, and, while it is not
-- being deleted, a patch that changes only its finalizers and its type, to a known one, makes these what the
-- client wants, and a patch of the status that changes only its phase does so with the phase. What such a
-- patch does not change is kept, as far as these phases look.
pub record Serves {W V : Type 0} (r : Reconciler W V) (key : Key) : Type 0 where
  pub holds : W → Hawtio
  pub gets : (w : W) → r.hawtios.get key w ≡ (ok (holds w), w)
  pub patches :
      (finalizers : List String) (kind : String) (w : W)
      → IsPlain (seen (holds w))
      → IsKnownType kind
      → (c : Hawtio) × (v : W) × (r.hawtios.patch (holds w) (changed finalizers kind (holds w)) w
          ≡ (ok c, v))
        × Same (holds v) (changed finalizers kind (holds w))
  pub patches_status :
      (phase : String) (w : W)
      → IsPlain (seen (holds w))
      → (c : Hawtio) × (v : W) × (r.status_patch (holds w) (with_phase phase (holds w)) w
          ≡ (ok c, v))
        × Same (holds v) (with_phase phase (holds w))

pub has-append : (l : List String) (s : String) → has (l ++ s ∷ []) s ≡ true
has-append [] s = ground (arith, eq_refl s)
has-append (x ∷ l) s = ground (arith, has-append l s)

pub known_type :
    (kind : String)
    → IsKnownType kind
    → (kind == "") ≡ false
    → (not (kind == namespace_type) && not (kind == cluster_type)) ≡ false
known_type kind h e =
    ground (arith, eq_iff kind "", eq_iff kind namespace_type, eq_iff kind cluster_type)

pub empty_test : (s : String) → s ≡ "" → (s == "") ≡ true
empty_test s e = ground (arith, eq_iff s "")

pub new_phase :
    (phase : String)
    → (phase == "" || phase == phase_failed) ≡ true
    → (phase == phase_initialized) ≡ false
new_phase phase e = elim (Bool-cases (phase == phase_initialized)) [
  | inr other ↦ other
  | inl same ↦
      let it : phase ≡ phase_initialized = ground (arith, eq_iff phase phase_initialized) in
      let absurd_test : false ≡ true = rw it at e in cc
]
