-- ===== src/Resources/Deployment/Paths.antt =====
-- The mounts of each container hold the files that its environment names.
use hawtio_operator.Base.{String, ◌≡◌, refl, sym, ◌∙◌, Bool, true, false, inl, inr, Any, Bool-cases}
use hawtio_operator.Base.{◌==◌}
use mathlib.Core.Path.{subst}
use hawtio_operator.Base.Dict.{Dict, lookup, insert}
use hawtio_operator.Base.Errors.{ok, two_steps-eq-ok, ok-injective}
use hawtio_operator.Kube.Workload.{VolumeMount, PodTemplateSpec}
use hawtio_operator.Api.{Hawtio}
use hawtio_operator.Capabilities.{ApiServerSpec}
use hawtio_operator.Util.Text.{path_join}
use hawtio_operator.Util.Version.{BuildVariables, is_ssl, get_online_version}
use hawtio_operator.Resources.Volumes.{
  new_volume_mounts, new_volume_mount, online_mount, online_volume_name, serving_mount_path,
  get_serving_certificate_mount_path,
}
use hawtio_operator.Resources.Deployment.{
  Platform, hawtio_mounts, gateway_mounts, assemble_pod, new_pod_template_spec,
}
use hawtio_operator.Resources.Deployment.Mounts.{mount_dict}
use hawtio_operator.Resources.Deployment.Files.{
  Provides, FilesAreMounted, ServesFiles, acl_path, hawtio-AllMounted, gateway-AllMounted,
}

module _ (root sub : String) where
  abbrev online : VolumeMount
  online = new_volume_mount online_volume_name root sub

  hawtio_mounts-Serve :
      (ssl openshift plain : Bool)
      → ssl ≡ true
      → ServesFiles
          (hawtio_mounts openshift (mount_dict ssl openshift plain online serving_mount_path))
  unfolding hawtio_mounts lookup insert
  hawtio_mounts-Serve false openshift plain h = absurd (cc)
  hawtio_mounts-Serve true true true h = (inr (inl (inl refl)), inr (inl (inr (inl refl))))
  hawtio_mounts-Serve true true false h = (inr (inl (inl refl)), inr (inl (inr (inl refl))))
  hawtio_mounts-Serve true false true h = (inr (inl (inl refl)), inr (inl (inr (inl refl))))
  hawtio_mounts-Serve true false false h = (inr (inl (inl refl)), inr (inl (inr (inl refl))))

  gateway_mounts-Serve :
      (ssl openshift plain : Bool)
      → ssl ≡ true
      → ServesFiles
          (gateway_mounts plain (mount_dict ssl openshift plain online serving_mount_path))
  unfolding gateway_mounts lookup insert
  gateway_mounts-Serve false openshift plain h = absurd (cc)
  gateway_mounts-Serve true true true h = (inl (inl refl), inl (inr (inl refl)))
  gateway_mounts-Serve true true false h = (inr (inl (inl refl)), inr (inl (inr (inl refl))))
  gateway_mounts-Serve true false true h = (inl (inl refl), inl (inr (inl refl)))
  gateway_mounts-Serve true false false h = (inr (inl (inl refl)), inr (inl (inr (inl refl))))

  gateway_mounts-Provide :
      (ssl openshift plain : Bool)
      → plain ≡ false
      → Any
          (Provides acl_path)
          (gateway_mounts plain (mount_dict ssl openshift plain online serving_mount_path))
  unfolding gateway_mounts lookup insert path_join
  gateway_mounts-Provide ssl openshift true h = absurd (cc)
  gateway_mounts-Provide true true false h = inl (inl refl)
  gateway_mounts-Provide true false false h = inl (inl refl)
  gateway_mounts-Provide false true false h = inl (inl refl)
  gateway_mounts-Provide false false false h = inl (inl refl)

module _ {V : Type 0} (platform : Platform V) where
  mounts-eq :
      (hawtio : Hawtio) (api : ApiServerSpec) (version : String) (bv : BuildVariables)
      → get_serving_certificate_mount_path platform.semver version
          bv.legacy_serving_certificate_mount_version
        ≡ ok serving_mount_path
      → new_volume_mounts platform.semver hawtio api version hawtio.spec.rbac.config_map bv
        ≡ ok (
            mount_dict
              (is_ssl hawtio api)
              api.is_openshift4
              (hawtio.spec.rbac.config_map == "")
              (online_mount bv)
              serving_mount_path)
  unfolding new_volume_mounts
  mounts-eq hawtio api version bv e = elim (Bool-cases (is_ssl hawtio api)) [
    | inl s ↦ rw (s, e) refl
    | inr s ↦ rw s refl
  ]

  assemble_pod-FilesAreMounted :
      (hawtio : Hawtio) (api : ApiServerSpec) (url config_version cert_version : String)
      (bv : BuildVariables) (additional : Dict String)
      → FilesAreMounted (
          assemble_pod platform hawtio api url config_version cert_version bv
            (mount_dict
              (is_ssl hawtio api)
              api.is_openshift4
              (hawtio.spec.rbac.config_map == "")
              (online_mount bv)
              serving_mount_path)
            additional)
  unfolding assemble_pod
  assemble_pod-FilesAreMounted hawtio api url config_version cert_version bv additional =
      let ssl = is_ssl hawtio api in
      let plain = hawtio.spec.rbac.config_map == "" in
      let root = (online_mount bv).mount_path in
      let sub = (online_mount bv).sub_path in
      (
        hawtio-AllMounted _ hawtio api url
            (hawtio_mounts-Serve root sub ssl api.is_openshift4 plain),
        (
          gateway-AllMounted _ hawtio api
              (gateway_mounts-Serve root sub ssl api.is_openshift4 plain)
              (gateway_mounts-Provide root sub ssl api.is_openshift4 plain),
          tt,
        ),
      )

  -- Where the image is not one that wants its certificate at the legacy path, each file that the
  -- environment of a container names (the certificate and its key, and the rules of RBAC) is a file of a
  -- volume that is mounted in that container, under the path of the mount.
  pub new_pod_template_spec-FilesAreMounted :
      (hawtio : Hawtio) (api : ApiServerSpec) (url config_version cert_version : String)
      (bv : BuildVariables) (pod : PodTemplateSpec)
      → get_serving_certificate_mount_path platform.semver
          (get_online_version platform.getenv bv)
          bv.legacy_serving_certificate_mount_version
        ≡ ok serving_mount_path
      → new_pod_template_spec platform hawtio api url config_version cert_version bv ≡ ok pod
      → FilesAreMounted pod
  unfolding new_pod_template_spec
  new_pod_template_spec-FilesAreMounted hawtio api url config_version cert_version bv pod e h =
      let version = get_online_version platform.getenv bv in
      let (mounts, additional, made, _, same) =
        two_steps-eq-ok
          (new_volume_mounts platform.semver hawtio api version hawtio.spec.rbac.config_map bv)
          (platform.selector_to_labels bv.additional_labels)
          (assemble_pod platform hawtio api url config_version cert_version bv) h in
      subst FilesAreMounted same (
        subst
          (λ m.
            FilesAreMounted
              (assemble_pod platform hawtio api url config_version cert_version bv m additional))
          (ok-injective (sym (mounts-eq hawtio api version bv e) ∙ made))
          (assemble_pod-FilesAreMounted hawtio api url config_version cert_version bv additional))
