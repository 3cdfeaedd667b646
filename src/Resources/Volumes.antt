-- ===== src/Resources/Volumes.antt =====
-- pkg/resources/volume.go, and the volumes and mounts of pkg/resources/deployment.go.
use hawtio_operator.Base.{String, ◌<>◌, Bool, List, [], ◌∷◌, ◌++◌}
use hawtio_operator.Base.{◌==◌, if◌then◌else◌}
use hawtio_operator.Base.Dict.{Dict, insert}
use hawtio_operator.Base.Errors.{Result, ok, err, ◌>>=◌}
use hawtio_operator.Kube.Workload.{Volume, VolumeMount, secret, config_map}
use hawtio_operator.Api.{Hawtio}
use hawtio_operator.Capabilities.{ApiServerSpec, Semver}
use hawtio_operator.Util.Text.{path_join}
use hawtio_operator.Util.Version.{BuildVariables, is_ssl}
use hawtio_operator.Resources.Environment.{rbac_config_map_volume_mount_path}

abbrev pub serving_volume_name : String
serving_volume_name = "hawtio-online-tls-serving"

abbrev pub serving_mount_path : String
serving_mount_path = "/etc/tls/private/serving"

abbrev pub serving_mount_path_legacy : String
serving_mount_path_legacy = "/etc/tls/private"

abbrev pub proxying_volume_name : String
proxying_volume_name = "hawtio-online-tls-proxying"

abbrev pub proxying_mount_path : String
proxying_mount_path = "/etc/tls/private/proxying"

abbrev pub online_volume_name : String
online_volume_name = "hawtio-online"

abbrev pub rbac_volume_name : String
rbac_volume_name = "hawtio-rbac"

abbrev pub hawtio_config_key : String
hawtio_config_key = "hawtconfig.json"

-- `newVolumeMount`
abbrev pub new_volume_mount : String → String → String → VolumeMount
new_volume_mount name path sub_path = record { name = name; mount_path = path; sub_path = sub_path }

-- `newSecretVolume`
abbrev pub new_secret_volume : String → String → Volume
new_secret_volume secret_name volume_name = record {
  name = volume_name;
  source = secret secret_name;
}

-- `newConfigMapVolume`
abbrev pub new_config_map_volume : String → String → Volume
new_config_map_volume config_map_name volume_name = record {
  name = volume_name;
  source = config_map config_map_name 420;
}

-- The volumes by the three conditions: SSL, OpenShift, and no config map for RBAC.
abbrev pub volume_list : String → String → Bool → Bool → Bool → List Volume
volume_list name rbac ssl openshift plain =
    (if ssl then new_secret_volume (name <> "-tls-serving") serving_volume_name ∷ [] else [])
    ++ (if openshift
        then new_secret_volume (name <> "-tls-proxying") proxying_volume_name ∷ []
        else [])
    ++ (new_config_map_volume name online_volume_name ∷ [])
    ++ (if plain then [] else new_config_map_volume rbac rbac_volume_name ∷ [])

-- `newVolumes`
unfoldable pub new_volumes : Hawtio → ApiServerSpec → List Volume
new_volumes hawtio api =
    let rbac = hawtio.spec.rbac.config_map in
    volume_list hawtio.metadata.name rbac (is_ssl hawtio api) api.is_openshift4 (rbac == "")

abbrev pub online_mount : BuildVariables → VolumeMount
online_mount bv =
    let root =
      if bv.server_root_directory == ""
      then "/usr/share/nginx/html"
      else bv.server_root_directory in
    new_volume_mount online_volume_name (path_join (root ∷ "online" ∷ hawtio_config_key ∷ []))
      hawtio_config_key

abbrev pub proxying_mount : Bool → Dict VolumeMount → Dict VolumeMount
proxying_mount openshift mounts =
    if openshift
    then insert proxying_volume_name (new_volume_mount proxying_volume_name proxying_mount_path "")
        mounts
    else mounts

abbrev pub rbac_mount : Bool → Dict VolumeMount → Dict VolumeMount
rbac_mount plain mounts =
    if plain
    then mounts
    else insert rbac_volume_name
        (new_volume_mount rbac_volume_name rbac_config_map_volume_mount_path "") mounts

module _ {V : Type 0} (sv : Semver V) where
  -- `getServingCertificateMountPath`
  unfoldable pub get_serving_certificate_mount_path : String → String → Result String
  get_serving_certificate_mount_path version legacy =
      let tag = if version == "" then "latest" else version in
      if tag == "latest" then ok serving_mount_path else elim (sv.parse tag) [
        | err e ↦ ok serving_mount_path
        | ok v ↦ elim (sv.constraint (if legacy == "" then "< 1.7.0" else legacy)) [
          | err e ↦ err e
          | ok check ↦ ok (if check v then serving_mount_path_legacy else serving_mount_path)
        ]
      ]

  -- The mount of the serving certificate, where there is one.
  abbrev pub serving_mount : Bool → String → String → Dict VolumeMount → Result (Dict VolumeMount)
  serving_mount ssl version legacy mounts =
      if ssl
      then (do
        path ← get_serving_certificate_mount_path version legacy
        ok (insert serving_volume_name (new_volume_mount serving_volume_name path "") mounts))
      else ok mounts

  -- `newVolumeMounts`
  unfoldable pub new_volume_mounts :
      Hawtio → ApiServerSpec → String → String → BuildVariables → Result (Dict VolumeMount)
  unfolding get_serving_certificate_mount_path
  new_volume_mounts hawtio api version rbac_config_map bv = do
    let online = insert online_volume_name (online_mount bv) []
    mounts ←
        serving_mount (is_ssl hawtio api) version bv.legacy_serving_certificate_mount_version online
    ok (rbac_mount (rbac_config_map == "") (proxying_mount api.is_openshift4 mounts))
