-- ===== src/Controller/Run/Rollout.antt =====
-- pkg/controller/hawtio/reconcile_deployment.go: the deployment's reconciliation succeeds on a cluster
-- that accepts its requests.
use hawtio_operator.Base.{String, ◌≡◌, refl, ◌⊎◌, some, inl, inr, Bool-cases, Option-cases}
use hawtio_operator.Base.{◌==◌, if◌then◌else◌}
use hawtio_operator.Base.Errors.{Error, Result, ok, err}
use hawtio_operator.Base.Succeeds.{SucceedsIn, Succeeds, IsOk}
use hawtio_operator.Kube.{ConfigMap}
use hawtio_operator.Kube.Workload.{Deployment}
use hawtio_operator.Api.{Hawtio}
use hawtio_operator.Capabilities.{Semver, ApiServerSpec}
use hawtio_operator.Util.Version.{BuildVariables, is_ssl, get_online_version}
use hawtio_operator.Resources.Volumes.{new_volume_mounts, get_serving_certificate_mount_path}
use hawtio_operator.Resources.Deployment.{new_deployment, new_default_deployment}
use hawtio_operator.Controller.Cluster.{Reconciler}
use hawtio_operator.Controller.Defaults.{DeploymentConfiguration}
use hawtio_operator.Controller.Reconcile.Deployment.{
  digests, secret_version, reconcile_deployment, deployment_mutated, deployment_integrity,
}
use hawtio_operator.Controller.Run.Works.{
  Works, HasBaseline, constraint_text, IsDeploymentChange, IsDeploymentBlueprint,
  create_or_adopt-Succeeds, hydrate_defaults-Succeeds,
}

Result-cases : {A : Type 0} (r : Result A) → ((e : Error) × (r ≡ err e)) ⊎ ((a : A) × (r ≡ ok a))
Result-cases (err e) = inl (e, refl)
Result-cases (ok a) = inr (a, refl)

module _ {V : Type 0} (sv : Semver V) where
  mount_path-IsOk :
      (version legacy : String)
      → IsOk (sv.constraint (constraint_text legacy))
      → IsOk (get_serving_certificate_mount_path sv version legacy)
  unfolding get_serving_certificate_mount_path
  mount_path-IsOk version legacy (check, c) =
      let tag = if version == "" then "latest" else version in
      elim (Bool-cases (tag == "latest")) [
        | inl h ↦ rw h (_, refl)
        | inr h ↦ elim (Result-cases (sv.parse tag)) [
          | inl (e, p) ↦ rw (h, p) (_, refl)
          | inr (v, p) ↦ rw (h, p, c) (_, refl)
        ]
      ]

  new_volume_mounts-IsOk :
      (hawtio : Hawtio) (api : ApiServerSpec) (version rbac : String) (bv : BuildVariables)
      → IsOk (sv.constraint (constraint_text bv.legacy_serving_certificate_mount_version))
      → IsOk (new_volume_mounts sv hawtio api version rbac bv)
  unfolding new_volume_mounts
  new_volume_mounts-IsOk hawtio api version rbac bv c =
      let (path, e) = mount_path-IsOk version bv.legacy_serving_certificate_mount_version c in
      elim (Bool-cases (is_ssl hawtio api)) [ inl h ↦ rw (h, e) (_, refl) | inr h ↦ rw h (_, refl) ]

module _ {W V : Type 0} (r : Reconciler W V) (hawtio : Hawtio) (works : Works r hawtio) where
  new_deployment-IsOk :
      (url config_version cert_version : String)
      → IsOk (
          new_deployment r.platform hawtio r.api_spec url config_version cert_version
            r.build_variables)
  unfolding new_deployment
  new_deployment-IsOk url config_version cert_version =
      let bv = r.build_variables in
      let version = get_online_version r.platform.getenv bv in
      let (mounts, e) =
        new_volume_mounts-IsOk r.platform.semver hawtio r.api_spec version
          hawtio.spec.rbac.config_map bv works.constraint in
      let (additional, e') = works.additional in rw (e, e') (_, refl)

  digests-Succeeds :
      (w : W) → HasBaseline r.update_poller w → SucceedsIn (λ pair. Unit {0}) (digests r) w
  digests-Succeeds w baseline = elim (Option-cases r.update_poller) [
    | inl none_ ↦ rw none_ (("", ""), w, refl, tt)
    | inr (m, some_) ↦
        let known : HasBaseline (some m) w = rw some_ at baseline in
        let (answer, v, e, (pair, e')) = known in rw (some_, e, e') (pair, v, refl, tt)
  ]

  deployment_mutated-Succeeds :
      (config : DeploymentConfiguration) (config_map : ConfigMap) (online gateway : String)
      (live : Deployment)
      → works.deployments.IsOurs live
      → Succeeds (deployment_mutated r hawtio config config_map online gateway live)
  unfolding deployment_mutated
  deployment_mutated-Succeeds config config_map online gateway live ours w =
      let (d, e) = works.deployments.owns live ours in
      let cert_version = secret_version r config.client_cert_secret in
      let (blueprint, e') =
        new_deployment-IsOk config.openshift_console_url config_map.metadata.resource_version
          cert_version in
      let (hydrated, v, e'', _) =
        hydrate_defaults-Succeeds r.deployments (IsDeploymentBlueprint r hawtio) r.temporary_suffix
          blueprint deployment_integrity works.deployment_dry_runs
          (config.openshift_console_url, config_map.metadata.resource_version, cert_version, e')
          works.suffixes w in
      rw (e, e', e'') (_, v, refl, tt)

  pub reconcile_deployment-Succeeds :
      (config : DeploymentConfiguration) (config_map : ConfigMap) (w : W)
      → HasBaseline r.update_poller w
      → SucceedsIn (λ done. Unit {0}) (reconcile_deployment r hawtio config config_map) w
  unfolding reconcile_deployment
  reconcile_deployment-Succeeds config config_map w baseline =
      let (pair, v, e, _) = digests-Succeeds w baseline in
      rw e (
        create_or_adopt-Succeeds r.deployments hawtio (new_default_deployment hawtio)
          (IsDeploymentChange r hawtio) works.deployments
          (deployment_mutated r hawtio config config_map pair.0 pair.1)
          (config, config_map, pair.0, pair.1, refl)
          (deployment_mutated-Succeeds config config_map pair.0 pair.1) v)
