-- ===== src/Tests/Reconcile.antt =====
-- The theorems on the objects that the controller reconciles, at concrete inputs.
use hawtio_operator.Base.{String, true, ◌≡◌, ◌⊎◌, refl, ap, sym, none, some, [], ◌∷◌, map}
use hawtio_operator.Base.{All}
use hawtio_operator.Api.{Hawtio}
use hawtio_operator.Controller.Cluster.{Reconciler}
use hawtio_operator.Controller.Status.{Deployed, new_status, with_status}
use hawtio_operator.Controller.Status.Settles.{update_from-settles}
use hawtio_operator.Controller.Run.{update_from, final_outcome}
use hawtio_operator.Tests.Samples.{holding, test_configuration}
use hawtio_operator.Base.Int.{pos}
use hawtio_operator.Base.Dict.{lookup, insert}
use hawtio_operator.Util.Metadata.{merge_map}
use hawtio_operator.Util.Version.{is_ssl}
use hawtio_operator.Resources.Labels.{propagate}
use hawtio_operator.Base.Errors.{Error, Result, ok, err}
use hawtio_operator.Kube.Network.{Service, Route}
use hawtio_operator.Kube.Workload.{Container, Deployment, Probe}
use hawtio_operator.Api.{no_resources}
use hawtio_operator.Controller.Reconcile.Network.{service_mutated, route_mutated}
use hawtio_operator.Controller.Reconcile.Network.Laws.{service_mutated-keeps, route_mutated-keeps}
use hawtio_operator.Controller.Reconcile.Console.{should_exist, console_link_blueprint}
use hawtio_operator.Controller.Reconcile.Console.Laws.{SuitsType, console_link_blueprint-SuitsType}
use hawtio_operator.Controller.Reconcile.Deployment.Laws.{
  AreKnown, add_image_digests-pins, containers_of, added, pinned_container,
}
use hawtio_operator.Resources.Service.{new_default_service}
use hawtio_operator.Resources.Route.{new_default_route}
use hawtio_operator.Resources.Deployment.{new_default_deployment}
use hawtio_operator.Kube.Network.{ConsoleLink}
use hawtio_operator.Api.Config.{empty_config}
use hawtio_operator.Controller.Reconcile.Deployment.{with_template}
use hawtio_operator.Controller.Reconcile.Deployment.{reconcile_deployment, deployment_mutated}
use hawtio_operator.Controller.Reconcile.Config.{create_or_adopt}
use hawtio_operator.Controller.Lifecycle.{handle_error}
use hawtio_operator.Resources.Config.{new_default_config_map}
use hawtio_operator.Controller.Reconcile.Deployment.Waits.{
  IsPending, IsSettled, soon, reconcile_deployment-waits,
}
use hawtio_operator.Updater.{new_poller, request_digests}
use hawtio_operator.Controller.Reconcile.Deployment.Same.{deployment_mutated-same}
use hawtio_operator.Resources.Deployment.{new_deployment}
use hawtio_operator.Resources.Volumes.{get_serving_certificate_mount_path}
use hawtio_operator.Base.{◌∙◌}
use hawtio_operator.Tests.Samples.{
  distinct, sample, cluster_sample, openshift, holding, key, test_configuration,
}

abbrev live_service : Service
live_service =
    let s = new_default_service sample in
    record s { spec = record s.spec { cluster_ip = "10.0.0.1"; cluster_ips = "10.0.0.1" ∷ [] } }

abbrev stored_service : Service
stored_service = record live_service {
  metadata = record live_service.metadata {
    labels = ("app", "hawtio") ∷ [];
    annotations = ("service.beta.openshift.io/serving-cert-secret-name", "online-tls-serving") ∷ [];
  };
  spec = record {
    ports =
        record {
          name = "online";
          protocol = "TCP";
          port = 443;
          target_port = "nginx";
          node_port = 0;
        }
        ∷ [];
    selector = ("app", "hawtio") ∷ ("deployment", "online") ∷ [];
    session_affinity = "None";
    publish_not_ready_addresses = true;
    cluster_ip = "10.0.0.1";
    cluster_ips = "10.0.0.1" ∷ [];
  };
}

service_mutated-keeps_example :
    (stored_service.spec.cluster_ip ≡ "10.0.0.1")
    × All (λ p. p.node_port ≡ 0) stored_service.spec.ports
unfolding service_mutated merge_map is_ssl propagate
service_mutated-keeps_example =
    service_mutated-keeps (holding openshift) sample live_service stored_service sample sample refl

abbrev live_route : Route
live_route =
    let s = new_default_route sample in
    record s { spec = record s.spec { host = "online.apps.example" } }

abbrev stored_route : Route
stored_route = record live_route {
  metadata = record live_route.metadata {
    labels = ("app", "hawtio") ∷ ("deployment", "online") ∷ [];
    annotations = ("openshift.io/host.generated", "true") ∷ [];
  };
  spec = record {
    host = "online.apps.example";
    path = "";
    to = record { kind = "Service"; name = "online" };
    port = none;
    tls = some (record {
      termination = "reencrypt";
      insecure_policy = "Redirect";
      key = "";
      certificate = "";
      ca_certificate = "";
    });
  };
}

route_mutated-keeps_example : stored_route.spec.host ≡ "online.apps.example"
unfolding route_mutated merge_map propagate insert
route_mutated-keeps_example =
    route_mutated-keeps (holding openshift) sample test_configuration live_route stored_route sample
      sample refl refl

console_link_blueprint-SuitsType_example :
    (link : ConsoleLink) × (console_link_blueprint openshift cluster_sample key stored_route
        empty_config
      ≡ ok link)
    × SuitsType cluster_sample key stored_route link
unfolding should_exist
console_link_blueprint-SuitsType_example =
    console_link_blueprint-SuitsType openshift cluster_sample key stored_route empty_config refl

abbrev probe : Probe
probe = record {
  initial_delay_seconds = pos 5;
  timeout_seconds = pos 1;
  period_seconds = pos 5;
  http_get = record { port = "nginx"; path = "/online"; scheme = "HTTP" };
}

abbrev container : String → Container
container name = record {
  name = name;
  image = "quay.io/hawtio/online:2.4.0";
  image_pull_policy = "Always";
  env = [];
  readiness_probe = probe;
  liveness_probe = probe;
  ports = [];
  resources = no_resources;
  volume_mounts = [];
}

abbrev two_containers : Deployment
two_containers =
    let d = new_default_deployment sample in
    with_template
      (record d.spec.template {
        containers = container "online-container" ∷ container "online-gateway-container" ∷ [];
      })
      d

-- A cluster that stores the status.
abbrev storing : Reconciler Hawtio String
storing = record (holding openshift) { status_update = λ a w. (ok a, a) }

abbrev deployed : Deployed
deployed = record { config = test_configuration; route = none; ingress = none; url = "" }

abbrev reported : Hawtio
reported =
    let image : String = "quay.io/hawtio/online:2.4.0" in
    with_status (new_status true deployed two_containers (image, image) "" sample.status) sample

update_from-settles_example :
    update_from storing deployed key (ok two_containers) reported
    ≡ (ok (final_outcome (pos 0)), reported)
unfolding new_status
update_from-settles_example =
    update_from-settles storing deployed key two_containers sample
      ("quay.io/hawtio/online:2.4.0", "quay.io/hawtio/online:2.4.0") "" (final_outcome (pos 0))
      sample reported
      (λ h written s w v found e.
        (v, refl, ap (λ (x : Result Hawtio × Hawtio). x.1.status) (sym e)))
      refl refl refl refl

abbrev digests_known : AreKnown "sha256:1" "sha256:2"
digests_known = (distinct "sha256:1" "" refl, distinct "sha256:2" "" refl)

add_image_digests-pins_example :
    (containers_of
        (added "quay.io/online" "quay.io/gateway" sample "sha256:1" "sha256:2" two_containers)
      ≡ map
          (pinned_container "online" "quay.io/online" "quay.io/gateway" "sha256:1" "sha256:2")
          (containers_of two_containers))
    × (lookup "team"
          (added "quay.io/online" "quay.io/gateway" sample "sha256:1" "sha256:2"
            two_containers).spec.template.annotations
        ≡ lookup "team" two_containers.spec.template.annotations)
add_image_digests-pins_example =
    add_image_digests-pins "quay.io/online" "quay.io/gateway" sample "sha256:1" "sha256:2"
      two_containers "team" digests_known (distinct "team" "hawtio.io/online-digest" refl)
      (distinct "team" "hawtio.io/gateway-digest" refl)

-- The poller has not made its first check.
abbrev unchecked : Reconciler Hawtio String
unchecked = record (holding openshift) {
  update_poller = some (λ w. (ok (request_digests new_poller), w));
}

reconcile_deployment-waits_example :
    let cm = new_default_config_map sample in
    (IsPending "" "" none
      × ((e : Error) × (reconcile_deployment unchecked sample test_configuration cm sample
            ≡ (err e, sample))
          × (handle_error e ≡ ok soon)))
    ⊎ (IsSettled "" "" none
        × (reconcile_deployment unchecked sample test_configuration cm sample
            ≡ create_or_adopt unchecked.deployments
                (new_default_deployment sample)
                (deployment_mutated unchecked sample test_configuration cm "" "")
                sample))
reconcile_deployment-waits_example =
    reconcile_deployment-waits unchecked (λ w. (ok (request_digests new_poller), w)) "" "" none
      sample test_configuration (new_default_config_map sample) sample sample refl refl

abbrev deployment_or : Deployment → Result Deployment → Deployment
deployment_or default (ok d) = d
deployment_or default (err e) = default

-- What is made of a deployment with both digests.
abbrev rendered : Deployment → Deployment
rendered live =
    deployment_or live
      (deployment_mutated unchecked sample test_configuration (new_default_config_map sample)
        "sha256:1" "sha256:2" live sample).0

deployment_mutated-same_example :
    (rendered two_containers).spec ≡ (rendered (new_default_deployment sample)).spec
unfolding deployment_mutated new_deployment get_serving_certificate_mount_path
deployment_mutated-same_example =
    deployment_mutated-same unchecked sample test_configuration (new_default_config_map sample)
      "sha256:1" "sha256:2" (new_default_deployment sample)
      (rendered (new_default_deployment sample)) two_containers (rendered two_containers) sample
      sample sample sample
      (λ b d d' s s' w w' v v' e e'.
        sym (ap (λ x. (deployment_or b x.0).spec) e) ∙ ap (λ x. (deployment_or b x.0).spec) e')
      refl refl
