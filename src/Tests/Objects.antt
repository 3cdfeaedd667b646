-- ===== src/Tests/Objects.antt =====
-- The theorems on the pods, the objects that lead to them and the console's configuration, at concrete
-- inputs.
use hawtio_operator.Base.{◌≡◌, refl, none, []}
use hawtio_operator.Base.Dict.{lookup}
use hawtio_operator.Base.Errors.{Result, ok, err}
use hawtio_operator.Kube.Workload.{PodTemplateSpec}
use hawtio_operator.Resources.Deployment.{new_pod_template_spec, new_deployment, deployment_of}
use hawtio_operator.Resources.Deployment.Mounts.{AllDeclared, mounts-AreDeclared}
use hawtio_operator.Resources.Deployment.Selector.{SelectsOwnPods, new_deployment-SelectsOwnPods}
use hawtio_operator.Resources.Config.Merge.{text, no_fields, field, get_field}
use hawtio_operator.Tests.Samples.{sample, openshift, variables, plain_platform}
use hawtio_operator.Resources.Config.Merge.{Json, object}
use hawtio_operator.Resources.Config.{Codec, config_for_hawtio}
use hawtio_operator.Resources.Config.Working.{working_config, config_to_json}
use hawtio_operator.Resources.Config.Shapes.{Fits}
use hawtio_operator.Resources.Config.Written.{
  config_shape, Overlays, config_for_hawtio-Fits, config_for_hawtio-Overlays,
}
use hawtio_operator.Util.File.{load_config_from_file}
use hawtio_operator.Api.{Hawtio}
use hawtio_operator.Api.Config.{empty_config}
use hawtio_operator.Resources.Service.{new_service}
use hawtio_operator.Resources.Ingress.{new_ingress}
use hawtio_operator.Resources.Route.{new_route}
use hawtio_operator.Resources.Volumes.{get_serving_certificate_mount_path}
use hawtio_operator.Resources.Deployment.Files.{FilesAreMounted}
use hawtio_operator.Resources.Deployment.Paths.{new_pod_template_spec-FilesAreMounted}
use hawtio_operator.Resources.Deployment.Traffic.{
  IngressLeads, RouteLeads, IsConnected, new_deployment-IsConnected,
}

abbrev empty_pod : PodTemplateSpec
empty_pod = record {
  labels = [];
  annotations = [];
  containers = [];
  service_account_name = "";
  volumes = [];
}

abbrev pod_or : PodTemplateSpec → Result PodTemplateSpec → PodTemplateSpec
pod_or default (ok pod) = pod
pod_or default (err e) = default

abbrev sample_pod : PodTemplateSpec
sample_pod =
    pod_or empty_pod (new_pod_template_spec plain_platform sample openshift "" "1" "" variables)

mounts-AreDeclared_example : AllDeclared sample_pod
unfolding new_pod_template_spec
mounts-AreDeclared_example =
    mounts-AreDeclared plain_platform sample openshift "" "1" "" variables sample_pod refl

new_deployment-SelectsOwnPods_example : SelectsOwnPods (deployment_of sample sample_pod)
unfolding new_deployment lookup
new_deployment-SelectsOwnPods_example =
    new_deployment-SelectsOwnPods plain_platform sample openshift "" "1" "" variables []
      (deployment_of sample sample_pod) refl tt (λ k v e. cc) refl

new_deployment-IsConnected_example :
    IngressLeads (new_ingress sample openshift none) (new_service sample openshift)
    × RouteLeads (new_route sample none none) (new_service sample openshift)
    × IsConnected sample openshift (deployment_of sample sample_pod).spec.template
unfolding new_deployment lookup
new_deployment-IsConnected_example =
    new_deployment-IsConnected plain_platform sample openshift "" "1" "" variables [] none none none
      (deployment_of sample sample_pod) refl tt (λ k v e. cc) refl

-- A resource with its own rules of RBAC.
abbrev guarded : Hawtio
guarded = record sample {
  spec = record sample.spec {
    rbac = record { config_map = "roles"; disable_rbac_registry = none };
  };
}

abbrev guarded_pod : PodTemplateSpec
guarded_pod =
    pod_or empty_pod (new_pod_template_spec plain_platform guarded openshift "" "1" "" variables)

new_pod_template_spec-FilesAreMounted_example : FilesAreMounted guarded_pod
unfolding new_pod_template_spec get_serving_certificate_mount_path
new_pod_template_spec-FilesAreMounted_example =
    new_pod_template_spec-FilesAreMounted plain_platform guarded openshift "" "1" "" variables
      guarded_pod refl refl

-- Defaults with a title and a footer, and a resource that sets another title.
abbrev defaults : Json
defaults = object (
    field "about" (object (field "title" (text "Default") no_fields))
      (field "footer" (text "Footer") no_fields))

abbrev branded : Hawtio
branded = record sample {
  spec = record sample.spec {
    config = record empty_config { about = record empty_config.about { title = "Mine" } };
  };
}

abbrev codec : Codec
codec = record {
  files = record { read_file = λ path. ok "defaults"; yaml_to_json = λ source. ok source };
  decode = λ source. ok defaults;
  marshal = λ json. ok "{}";
  unmarshal = λ s. ok empty_config;
}

config_for_hawtio-Fits_example :
    (j : Json) × (config_for_hawtio codec branded "config.json" ≡ codec.marshal j)
    × Fits j config_shape
unfolding load_config_from_file
config_for_hawtio-Fits_example =
    config_for_hawtio-Fits codec branded "config.json" "defaults" defaults refl refl
      ((tt, tt), (tt, tt))

config_for_hawtio-Overlays_example :
    (j : Json) × (config_for_hawtio codec branded "config.json" ≡ codec.marshal j)
    × Overlays (config_to_json (working_config branded.spec.config)) defaults j
unfolding load_config_from_file get_field
config_for_hawtio-Overlays_example =
    config_for_hawtio-Overlays codec branded "config.json" "defaults" defaults refl refl
      (refl, (refl, tt, tt), (refl, tt, tt))
