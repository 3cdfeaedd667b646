-- ===== src/Tests/Watches.antt =====
-- The theorems on watches, rotations, ingresses and the console's samples, at concrete inputs.
use hawtio_operator.Base.{String, ◌==◌, ◌≡◌, refl, sym, ap, none, [], ◌∷◌}
use hawtio_operator.Base.{if◌then◌else◌}
use hawtio_operator.Base.Dict.{lookup, text_at}
use hawtio_operator.Base.Errors.{ok, err, message, ok-injective}
use hawtio_operator.Kube.Network.{Ingress, LoadBalancerIngress}
use hawtio_operator.Kube.Workload.{Deployment}
use hawtio_operator.Resources.Ingress.{new_default_ingress, get_ingress_host_and_port}
use hawtio_operator.Resources.Ingress.Laws.{last_name, or_star, get_ingress_host_and_port-host}
use hawtio_operator.Resources.Deployment.{new_default_deployment}
use hawtio_operator.Resources.ConsoleSample.{
  TypedHawtio, SampleLibrary, create_console_yaml_samples,
}
use hawtio_operator.Resources.ConsoleSample.Laws.{create_console_yaml_samples_once}
use hawtio_operator.Controller.Status.{Deployed}
use hawtio_operator.Controller.Run.{update_from}
use hawtio_operator.Controller.Watches.{deployment_update_wanted}
use hawtio_operator.Controller.Watches.Laws.{ignored_update-same}
use hawtio_operator.Tests.Samples.{sample, openshift, holding, key, test_configuration, distinct}

abbrev balancer : String → LoadBalancerIngress
balancer name = record { hostname = name; ip = ""; ports = 80 ∷ 443 ∷ [] }

abbrev balanced : Ingress
balanced = record (new_default_ingress sample) {
  load_balancer = balancer "a.example" ∷ balancer "b.example" ∷ [];
}

get_ingress_host_and_port-host_example :
    (get_ingress_host_and_port balanced).0
    ≡ or_star (last_name (balancer "a.example" ∷ balancer "b.example" ∷ []))
get_ingress_host_and_port-host_example =
    get_ingress_host_and_port-host balanced (balancer "a.example") (balancer "b.example" ∷ []) refl

-- A deployment, before and after a change of its annotations.
abbrev annotated : Deployment
annotated =
    let d = new_default_deployment sample in
    record d { metadata = record d.metadata { annotations = ("note", "changed") ∷ [] } }

abbrev deployed : Deployed
deployed = record { config = test_configuration; route = none; ingress = none; url = "" }

ignored_update-same_example :
    update_from (holding openshift) deployed key (ok (new_default_deployment sample)) sample
    ≡ update_from (holding openshift) deployed key (ok annotated) sample
unfolding deployment_update_wanted
ignored_update-same_example =
    ignored_update-same (holding openshift) deployed key (new_default_deployment sample) annotated
      sample refl (λ e. refl) refl

-- A console whose state is the name of the sample that it has.
abbrev samples : SampleLibrary String
samples = record {
  read_dir = ok ("a.yaml" ∷ "b.yaml" ∷ []);
  read_file = λ name. ok "";
  unmarshal = λ bytes. ok (record { api_version = "hawt.io/v2"; kind = "Hawtio"; hawtio = sample });
  marshal = λ res. ok "";
  create = λ s taken. if taken == s.name then (err (message "taken"), taken) else (ok tt, s.name);
}

create_console_yaml_samples_once_example :
    create_console_yaml_samples samples "Hawtio" "Hawtio-yamlsample" ≡ "Hawtio-yamlsample"
unfolding lookup
create_console_yaml_samples_once_example =
    create_console_yaml_samples_once samples "Hawtio" (λ w name. w == name) "Hawtio-yamlsample"
      (distinct "Hawtio" "" refl)
      (λ filename bytes res found e. sym (
        ap (λ (x : TypedHawtio). text_at "consoleName" x.hawtio.metadata.annotations)
          (ok-injective e)))
      (λ s w e. rw e refl) refl
