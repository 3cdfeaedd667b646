-- ===== src/Capabilities/Laws.antt =====
-- What the discovered capabilities have in common, and which update gives the version.
use hawtio_operator.Base.{String, ◌≡◌, ◌≢◌, refl, Bool, true, false, List, [], ◌∷◌, ◌++◌, All}
use hawtio_operator.Base.{arith, eq_iff, Bool-cases, inl, inr}
use hawtio_operator.Base.Errors.{
  Result, ok, err, guard, wrap, Ensures, Ensures-intro, Ensures-bind, Ensures-elim,
}
use hawtio_operator.Capabilities.{
  ApiServerSpec, Discovery, Semver, UpdateHistory, from_history, with_cluster_version, finish,
  ResourceList, initial_spec, api_capabilities,
}

pub record IsConsistent (s : ApiServerSpec) : Type 0 where
  pub plus_on_openshift : s.is_openshift43_plus ≡ true → s.is_openshift4 ≡ true
  pub openshift_has_links : s.is_openshift4 ≡ true → s.console_link ≡ true
  pub plain_version : s.is_openshift4 ≡ false → s.version ≡ s.kube_version

module _ {V : Type 0} (sv : Semver V) where
  from_history-IsConsistent :
      (history : List UpdateHistory) (spec s : ApiServerSpec)
      → spec.is_openshift4 ≡ true
      → spec.console_link ≡ true
      → from_history sv history spec ≡ ok s
      → IsConsistent s
  unfolding from_history
  from_history-IsConsistent [] spec s a b h = ground arith
  from_history-IsConsistent (u ∷ history) spec s a b h =
      ground (arith, from_history-IsConsistent history spec s a b)

  with_cluster_version-IsConsistent :
      (answer : Result (List UpdateHistory)) (spec s : ApiServerSpec)
      → spec.console_link ≡ true
      → with_cluster_version sv spec answer ≡ ok s
      → IsConsistent s
  unfolding with_cluster_version
  with_cluster_version-IsConsistent (ok history) spec s c h =
      from_history-IsConsistent history _ s refl c h
  with_cluster_version-IsConsistent (err e) spec s c h = ground arith

  finish-IsConsistent :
      (d : Discovery) (spec s : ApiServerSpec) → finish sv d spec ≡ ok s → IsConsistent s
  finish-IsConsistent d spec s h = elim (Bool-cases spec.console_link) [
    | inl c ↦ with_cluster_version-IsConsistent d.cluster_version spec s c (simp c at h)
    | inr c ↦ ground arith
  ]

  initial-IsConsistent :
      (d : Discovery) (info : String × String) (lists : List ResourceList)
      → Ensures IsConsistent (finish sv d (initial_spec sv info lists))
  initial-IsConsistent d info lists = Ensures-intro IsConsistent _ (finish-IsConsistent d _)

  -- Whatever the API server answers, the capabilities found agree with one another: OpenShift 4.3 is
  -- an OpenShift 4, which has console links, and elsewhere the version is that of Kubernetes.
  pub api_capabilities-IsConsistent :
      (d : Discovery) (s : ApiServerSpec) → api_capabilities sv d ≡ ok s → IsConsistent s
  unfolding api_capabilities
  api_capabilities-IsConsistent d s h =
      Ensures-elim IsConsistent
        (Ensures-bind _ (guard d.api_present _) _ λ _.
          Ensures-bind _ (guard d.config_present _) _ λ _.
            Ensures-bind _ (wrap _ d.server_version) _ λ info.
              Ensures-bind _ (wrap _ d.server_resources) _
                λ lists. initial-IsConsistent d info lists)
        h

  -- The version is that of the first completed update of the history, whatever stands behind it.
  pub from_history_first :
      (skipped rest : List UpdateHistory) (u : UpdateHistory) (spec : ApiServerSpec) (v : V)
      (check : V → Bool)
      → All (λ e. e.state ≢ "Completed") skipped
      → u.state ≡ "Completed"
      → sv.parse u.version ≡ ok v
      → sv.constraint ">= 4.3.0-0" ≡ ok check
      → from_history sv (skipped ++ u ∷ rest) spec
        ≡ ok (record spec { version = sv.print v; is_openshift43_plus = check v })
  unfolding from_history
  from_history_first [] rest u spec v check _ c p k = ground (arith, eq_iff u.state "Completed")
  from_history_first (e ∷ skipped) rest u spec v check (n, h) c p k =
      ground
        (arith, from_history_first skipped rest u spec v check h c p k, eq_iff e.state "Completed")
