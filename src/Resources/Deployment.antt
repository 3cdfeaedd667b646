-- ===== src/Resources/Deployment.antt =====
-- pkg/resources/deployment.go: the pod template and the deployment.
pub mod Mounts
pub mod Selector
pub mod Traffic
pub mod Files
pub mod Paths
use hawtio_operator.Base.{
  ℕ, String, ◌<>◌, Bool, true, false, Option, none, some, List, [], ◌∷◌, ◌++◌,
}
use hawtio_operator.Base.{◌==◌, if◌then◌else◌}
use hawtio_operator.Base.Int.{ℤ, pos}
use hawtio_operator.Base.Dict.{Dict, lookup, insert}
use hawtio_operator.Base.Errors.{Result, ok, err, ◌>>=◌}
use hawtio_operator.Kube.{named}
use hawtio_operator.Kube.Workload.{
  Container, Volume, VolumeMount, PodTemplateSpec, DeploymentSpec, Deployment,
}
use hawtio_operator.Api.{Hawtio, no_resources}
use hawtio_operator.Capabilities.{ApiServerSpec, Semver}
use hawtio_operator.Util.Version.{BuildVariables, get_online_version, get_gateway_version}
use hawtio_operator.Resources.Labels.{
  labels_for_hawtio, propagate_labels, propagate_annotations, resource_labels, propagate,
}
use hawtio_operator.Resources.Container.{new_hawtio_container, new_gateway_container, period_or}
use hawtio_operator.Resources.Volumes.{
  new_volume_mounts, new_volumes, online_volume_name, serving_volume_name, proxying_volume_name,
  rbac_volume_name,
}

abbrev pub config_version_annotation : String
config_version_annotation = "hawtio.hawt.io/configversion"

abbrev pub cert_version_annotation : String
cert_version_annotation = "hawtio.hawt.io/certversion"

abbrev pub online_digest_annotation : String
online_digest_annotation = "hawtio.io/online-digest"

abbrev pub gateway_digest_annotation : String
gateway_digest_annotation = "hawtio.io/gateway-digest"

-- `NewDefaultDeployment`
abbrev pub new_default_deployment : Hawtio → Deployment
new_default_deployment hawtio = record {
  metadata = named hawtio.metadata.name hawtio.metadata.namespace;
  spec = record {
    replicas = pos 0;
    selector = none;
    template = record {
      labels = [];
      annotations = [];
      containers = [];
      service_account_name = "";
      volumes = [];
    };
    strategy = "";
  };
  status = record { replicas = pos 0; ready_replicas = pos 0; conditions = [] };
}

-- What the deployment takes from outside the program: the environment, the semver library, and the
-- parser of label selectors.
pub record Platform (V : Type 0) : Type 0 where
  pub getenv : String → String
  pub semver : Semver V
  pub selector_to_labels : String → Result (Dict String)

-- `if ok { mounts = append(mounts, volume) }`
abbrev mount_if : String → Dict VolumeMount → List VolumeMount → List VolumeMount
mount_if name mounts l = elim (lookup name mounts) [ none ↦ l | some m ↦ l ++ m ∷ [] ]

-- The mounts that the console's container gets, in the order of the code. An empty map has none.
unfoldable pub hawtio_mounts : Bool → Dict VolumeMount → List VolumeMount
hawtio_mounts openshift mounts =
    let base = mount_if serving_volume_name mounts (mount_if online_volume_name mounts []) in
    if openshift then mount_if proxying_volume_name mounts base else base

-- The mounts that the gateway's container gets; `plain` where there is no config map for RBAC.
unfoldable pub gateway_mounts : Bool → Dict VolumeMount → List VolumeMount
gateway_mounts plain mounts =
    mount_if serving_volume_name mounts (if plain then [] else mount_if rbac_volume_name mounts [])

-- The loop over the additional labels.
unfoldable pub add_labels : Dict String → Dict String → Dict String
add_labels [] labels = labels
add_labels ((name, value) ∷ additional) labels = add_labels additional (insert name value labels)

abbrev pod_annotations : Hawtio → String → String → Dict String
pod_annotations hawtio config_version cert_version = propagate_annotations hawtio (
    if cert_version == ""
    then (config_version_annotation, config_version) ∷ []
    else insert cert_version_annotation cert_version
        ((config_version_annotation, config_version) ∷ []))

-- `newDeployment`
unfoldable pub deployment_of : Hawtio → PodTemplateSpec → Deployment
deployment_of hawtio pod =
    let labels = resource_labels hawtio in
    let meta = named hawtio.metadata.name hawtio.metadata.namespace in
    record {
      metadata = record meta { labels = labels; annotations = propagate_annotations hawtio [] };
      spec = record {
        replicas = period_or hawtio.spec.replicas (pos 1);
        selector = some labels;
        template = pod;
        strategy = "RollingUpdate";
      };
      status = record { replicas = pos 0; ready_replicas = pos 0; conditions = [] };
    }

module _ {V : Type 0} (platform : Platform V) where
  -- The pod from its volume mounts and the additional labels.
  unfoldable pub assemble_pod :
      Hawtio
      → ApiServerSpec
      → String
      → String
      → String
      → BuildVariables
      → Dict VolumeMount
      → Dict String
      → PodTemplateSpec
  unfolding new_hawtio_container new_gateway_container new_volumes hawtio_mounts gateway_mounts
      add_labels get_gateway_version
  assemble_pod hawtio api console_url config_version cert_version bv mounts additional =
      let getenv = platform.getenv in
      let online =
        new_hawtio_container getenv hawtio api console_url (get_online_version getenv bv)
          bv.image_repository in
      let gateway =
        new_gateway_container getenv hawtio api (get_gateway_version getenv bv)
          bv.gateway_image_repository in
      record {
        labels =
            propagate_labels hawtio
              (add_labels additional (labels_for_hawtio hawtio.metadata.name));
        annotations = pod_annotations hawtio config_version cert_version;
        containers =
            record online { volume_mounts = hawtio_mounts api.is_openshift4 mounts }
            ∷ record gateway {
              volume_mounts = gateway_mounts (hawtio.spec.rbac.config_map == "") mounts;
            }
            ∷ [];
        service_account_name = hawtio.metadata.name;
        volumes = new_volumes hawtio api;
      }

  -- `newPodTemplateSpec`
  unfoldable pub new_pod_template_spec :
      Hawtio → ApiServerSpec → String → String → String → BuildVariables → Result PodTemplateSpec
  unfolding assemble_pod new_volume_mounts
  new_pod_template_spec hawtio api console_url config_version cert_version bv = do
    let version = get_online_version platform.getenv bv
    mounts ← new_volume_mounts platform.semver hawtio api version hawtio.spec.rbac.config_map bv
    additional ← platform.selector_to_labels bv.additional_labels
    ok (assemble_pod hawtio api console_url config_version cert_version bv mounts additional)

  -- `NewDeployment`
  unfoldable pub new_deployment :
      Hawtio → ApiServerSpec → String → String → String → BuildVariables → Result Deployment
  unfolding new_pod_template_spec deployment_of
  new_deployment hawtio api console_url config_version cert_version bv = do
    pod ← new_pod_template_spec hawtio api console_url config_version cert_version bv
    ok (deployment_of hawtio pod)
