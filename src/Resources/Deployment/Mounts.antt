-- ===== src/Resources/Deployment/Mounts.antt =====
-- Every mount of a pod's containers names a volume of the pod, and the pod has its two containers.
use hawtio_operator.Base.{String, ◌≡◌, Bool, true, false, List, [], All, Any}
use hawtio_operator.Base.{arith, ◌==◌, if◌then◌else◌}
use mathlib.Core.Path.{subst}
use hawtio_operator.Base.Dict.{Dict, lookup, insert}
use hawtio_operator.Base.Errors.{Result, ok, err, ◌>>=◌, two_steps-eq-ok, Ensures, Ensures-elim}
use hawtio_operator.Kube.Workload.{Volume, VolumeMount, PodTemplateSpec}
use hawtio_operator.Api.{Hawtio}
use hawtio_operator.Capabilities.{ApiServerSpec}
use hawtio_operator.Util.Version.{BuildVariables, is_ssl, get_online_version}
use hawtio_operator.Resources.Volumes.{
  new_volume_mounts, new_volumes, serving_mount, rbac_mount, proxying_mount, new_volume_mount,
  online_mount, volume_list, serving_volume_name, online_volume_name,
}
use hawtio_operator.Resources.Deployment.{
  Platform, hawtio_mounts, gateway_mounts, assemble_pod, new_pod_template_spec,
}

-- The mount's volume is declared.
abbrev pub IsDeclared : List Volume → VolumeMount → Type 0
IsDeclared volumes m = Any (λ v. v.name ≡ m.name) volumes

abbrev pub AllDeclared : PodTemplateSpec → Type 0
AllDeclared pod = All (λ c. All (IsDeclared pod.volumes) c.volume_mounts) pod.containers

abbrev AreDeclared : List Volume → Bool → Bool → Dict VolumeMount → Type 0
AreDeclared volumes openshift plain mounts =
    All (IsDeclared volumes) (hawtio_mounts openshift mounts)
    × All (IsDeclared volumes) (gateway_mounts plain mounts)

-- The mounts and the volumes follow the same three conditions.
abbrev pub mount_dict : Bool → Bool → Bool → VolumeMount → String → Dict VolumeMount
mount_dict ssl openshift plain online path =
    let base = insert online_volume_name online [] in
    rbac_mount plain (
      proxying_mount openshift (
        if ssl
        then insert serving_volume_name (new_volume_mount serving_volume_name path "") base
        else base))

mount_dict-AreDeclared :
    (ssl openshift plain : Bool) (name rbac path root sub : String)
    → AreDeclared
        (volume_list name rbac ssl openshift plain)
        openshift
        plain
        (mount_dict ssl openshift plain (new_volume_mount online_volume_name root sub) path)
unfolding hawtio_mounts gateway_mounts lookup insert
mount_dict-AreDeclared ssl openshift plain name rbac path root sub = ground arith

with_path-AreDeclared :
    (r : Result String) (openshift plain : Bool) (name rbac root sub : String)
    → Ensures (AreDeclared (volume_list name rbac true openshift plain) openshift plain) (
        (r >>= λ path. ok (
          insert serving_volume_name
            (new_volume_mount serving_volume_name path "")
            (insert online_volume_name (new_volume_mount online_volume_name root sub) [])))
        >>= λ mounts. ok (rbac_mount plain (proxying_mount openshift mounts)))
with_path-AreDeclared (ok path) openshift plain name rbac root sub =
    mount_dict-AreDeclared true openshift plain name rbac path root sub
with_path-AreDeclared (err e) openshift plain name rbac root sub = tt

module _ {V : Type 0} (platform : Platform V) where
  serving-AreDeclared :
      (ssl openshift plain : Bool) (name rbac version legacy root sub : String)
      → Ensures (AreDeclared (volume_list name rbac ssl openshift plain) openshift plain) (
          serving_mount platform.semver ssl version legacy
            (insert online_volume_name (new_volume_mount online_volume_name root sub) [])
          >>= λ mounts. ok (rbac_mount plain (proxying_mount openshift mounts)))
  serving-AreDeclared true openshift plain name rbac version legacy root sub =
      with_path-AreDeclared _ openshift plain name rbac root sub
  serving-AreDeclared false openshift plain name rbac version legacy root sub =
      mount_dict-AreDeclared false openshift plain name rbac "" root sub

  new_volume_mounts-AreDeclared :
      (hawtio : Hawtio) (api : ApiServerSpec) (version : String) (bv : BuildVariables)
      → Ensures
          (AreDeclared
            (new_volumes hawtio api)
            api.is_openshift4
            (hawtio.spec.rbac.config_map == ""))
          (new_volume_mounts platform.semver hawtio api version hawtio.spec.rbac.config_map bv)
  unfolding new_volume_mounts new_volumes
  new_volume_mounts-AreDeclared hawtio api version bv =
      serving-AreDeclared (is_ssl hawtio api) api.is_openshift4 (hawtio.spec.rbac.config_map == "")
        hawtio.metadata.name hawtio.spec.rbac.config_map version
        bv.legacy_serving_certificate_mount_version (online_mount bv).mount_path
        (online_mount bv).sub_path

  assemble_pod-AreDeclared :
      (hawtio : Hawtio) (api : ApiServerSpec) (url config_version cert_version : String)
      (bv : BuildVariables) (mounts : Dict VolumeMount) (additional : Dict String)
      → AreDeclared
          (new_volumes hawtio api)
          api.is_openshift4
          (hawtio.spec.rbac.config_map == "")
          mounts
      → AllDeclared
          (assemble_pod platform hawtio api url config_version cert_version bv mounts additional)
  unfolding assemble_pod
  assemble_pod-AreDeclared hawtio api url config_version cert_version bv mounts additional (a, b) =
      (a, (b, tt))

  -- Every mount of either container names a volume that the pod declares.
  pub mounts-AreDeclared :
      (hawtio : Hawtio) (api : ApiServerSpec) (url config_version cert_version : String)
      (bv : BuildVariables) (pod : PodTemplateSpec)
      → new_pod_template_spec platform hawtio api url config_version cert_version bv ≡ ok pod
      → AllDeclared pod
  unfolding new_pod_template_spec
  mounts-AreDeclared hawtio api url config_version cert_version bv pod h =
      let version = get_online_version platform.getenv bv in
      let (mounts, additional, made, _, e) =
        two_steps-eq-ok
          (new_volume_mounts platform.semver hawtio api version hawtio.spec.rbac.config_map bv)
          (platform.selector_to_labels bv.additional_labels)
          (assemble_pod platform hawtio api url config_version cert_version bv) h in
      subst AllDeclared e (
        assemble_pod-AreDeclared hawtio api url config_version cert_version bv mounts additional (
          Ensures-elim
            (AreDeclared (new_volumes hawtio api) api.is_openshift4
              (hawtio.spec.rbac.config_map == ""))
            (new_volume_mounts-AreDeclared hawtio api version bv) made))
