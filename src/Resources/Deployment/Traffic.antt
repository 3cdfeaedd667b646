-- ===== src/Resources/Deployment/Traffic.antt =====
-- The objects of one custom resource fit together: the ingress and the route lead to the service, the
-- service to the pods, and the probes to the containers' ports.
use mathlib.Core.Path.{subst}
use hawtio_operator.Base.{
  String, ◌<>◌, ◌≡◌, refl, ◌∙◌, Option, none, some, List, inl, inr, All, Any,
}
use hawtio_operator.Base.{if◌then◌else◌, Bool-cases}
use hawtio_operator.Base.Dict.{Dict, lookup, NodupKeys}
use hawtio_operator.Base.Errors.{ok}
use hawtio_operator.Kube.{Secret}
use hawtio_operator.Kube.Workload.{
  ContainerPort, Container, VolumeMount, PodTemplateSpec, Deployment, secret,
}
use hawtio_operator.Kube.Network.{
  Service, ServicePort, Ingress, IngressRule, HttpIngressPath, Route,
}
use hawtio_operator.Api.{Hawtio}
use hawtio_operator.Capabilities.{ApiServerSpec}
use hawtio_operator.Util.Version.{BuildVariables, is_ssl}
use hawtio_operator.Resources.Labels.{labels_for_hawtio, resource_labels}
use hawtio_operator.Resources.Labels.Laws.{lookup-propagate}
use hawtio_operator.Resources.Volumes.{new_volumes}
use hawtio_operator.Resources.Container.{new_hawtio_container, new_gateway_container}
use hawtio_operator.Resources.Service.{new_service}
use hawtio_operator.Resources.Ingress.{new_ingress}
use hawtio_operator.Resources.Route.{new_route}
use hawtio_operator.Resources.Deployment.{Platform, assemble_pod, deployment_of, new_deployment}
use hawtio_operator.Resources.Deployment.Selector.{
  Includes, Agrees, pod_labels_include, new_deployment-eq-ok,
}

-- A port of a container takes what the service sends to it.
abbrev Takes : ServicePort → ContainerPort → Type 0
Takes p q = (q.name ≡ p.target_port) × (q.protocol ≡ p.protocol)

-- The service selects the pod, and each of its ports is one of a container's.
abbrev pub Reaches : Service → PodTemplateSpec → Type 0
Reaches s pod =
    Includes s.spec.selector pod.labels
    × All (λ p. Any (λ (c : Container). Any (Takes p) c.ports) pod.containers) s.spec.ports

abbrev PathLeads : Service → HttpIngressPath → Type 0
PathLeads s path =
    (path.service_name ≡ s.metadata.name)
    × Any (λ (p : ServicePort). p.port ≡ path.service_port) s.spec.ports

abbrev RuleLeads : Service → Option (List HttpIngressPath) → Type 0
RuleLeads s none = ⊥
RuleLeads s (some paths) = All (PathLeads s) paths

-- Each rule of the ingress leads to a port of the service, in the service's namespace.
abbrev pub IngressLeads : Ingress → Service → Type 0
IngressLeads i s =
    (i.metadata.namespace ≡ s.metadata.namespace)
    × All (λ (rule : IngressRule). RuleLeads s rule.http) i.spec.rules

-- The route leads to the service, in the service's namespace.
abbrev pub RouteLeads : Route → Service → Type 0
RouteLeads route s =
    (route.metadata.namespace ≡ s.metadata.namespace)
    × (route.spec.to.kind ≡ "Service")
    × (route.spec.to.name ≡ s.metadata.name)

-- Both probes of a container ask one of its own ports.
abbrev pub IsProbed : Container → Type 0
IsProbed c =
    Any (λ (q : ContainerPort). q.name ≡ c.readiness_probe.http_get.port) c.ports
    × Any (λ (q : ContainerPort). q.name ≡ c.liveness_probe.http_get.port) c.ports

abbrev serving_cert_key : String
serving_cert_key = "service.beta.openshift.io/serving-cert-secret-name"

-- The secret that the service asks the cluster for is a volume of the pod.
abbrev pub MountsServingSecret : Service → PodTemplateSpec → Type 0
MountsServingSecret s pod =
    (name : String) × (lookup serving_cert_key s.metadata.annotations ≡ some name)
    × Any (λ v. v.source ≡ secret name) pod.volumes

abbrev pub IsConnected : Hawtio → ApiServerSpec → PodTemplateSpec → Type 0
IsConnected hawtio api pod =
    Reaches (new_service hawtio api) pod
    × All IsProbed pod.containers
    × (if is_ssl hawtio api then MountsServingSecret (new_service hawtio api) pod else Unit)

-- The resource's own labels are among those of most objects.
own_labels_include :
    (hawtio : Hawtio) → Includes (labels_for_hawtio hawtio.metadata.name) (resource_labels hawtio)
own_labels_include hawtio k v h =
    lookup-propagate k _ _ (labels_for_hawtio hawtio.metadata.name) ∙ rw h refl

ingress-Leads :
    (hawtio : Hawtio) (api : ApiServerSpec) (serving : Option Secret)
    → IngressLeads (new_ingress hawtio api serving) (new_service hawtio api)
unfolding new_ingress new_service
ingress-Leads hawtio api serving = (refl, (((refl, inl refl), tt), tt))

route-Leads :
    (hawtio : Hawtio) (api : ApiServerSpec) (tls ca : Option Secret)
    → RouteLeads (new_route hawtio tls ca) (new_service hawtio api)
unfolding new_route new_service
route-Leads hawtio api tls ca = (refl, refl, refl)

module _ {V : Type 0} (platform : Platform V) where
  service-Reaches :
      (hawtio : Hawtio) (api : ApiServerSpec) (url config_version cert_version : String)
      (bv : BuildVariables) (mounts : Dict VolumeMount) (additional : Dict String)
      → NodupKeys additional
      → Agrees hawtio additional
      → Reaches
          (new_service hawtio api)
          (assemble_pod platform hawtio api url config_version cert_version bv mounts additional)
  unfolding new_service assemble_pod new_hawtio_container
  service-Reaches hawtio api url config_version cert_version bv mounts additional u a = (
    (λ k v h. pod_labels_include hawtio additional u a k v (own_labels_include hawtio k v h)),
    (inl (inl (refl, refl)), tt),
  )

  pod-IsProbed :
      (hawtio : Hawtio) (api : ApiServerSpec) (url config_version cert_version : String)
      (bv : BuildVariables) (mounts : Dict VolumeMount) (additional : Dict String)
      → All IsProbed
          (assemble_pod platform hawtio api url config_version cert_version bv mounts
            additional).containers
  unfolding assemble_pod new_hawtio_container new_gateway_container
  pod-IsProbed hawtio api url config_version cert_version bv mounts additional =
      ((inl refl, inl refl), ((inl refl, inl refl), tt))

  pod-MountsServingSecret :
      (hawtio : Hawtio) (api : ApiServerSpec) (url config_version cert_version : String)
      (bv : BuildVariables) (mounts : Dict VolumeMount) (additional : Dict String)
      → (if is_ssl hawtio api
          then MountsServingSecret (new_service hawtio api) (
              assemble_pod platform hawtio api url config_version cert_version bv mounts additional)
          else Unit)
  unfolding new_service assemble_pod new_volumes
  pod-MountsServingSecret hawtio api url config_version cert_version bv mounts additional =
      elim (Bool-cases (is_ssl hawtio api)) [
        | inl h ↦ rw h (
          hawtio.metadata.name <> "-tls-serving",
          lookup-propagate serving_cert_key _ _ _ ∙ unfold lookup in refl,
          inl refl,
        )
        | inr h ↦ rw h tt
      ]

  pod-IsConnected :
      (hawtio : Hawtio) (api : ApiServerSpec) (url config_version cert_version : String)
      (bv : BuildVariables) (mounts : Dict VolumeMount) (additional : Dict String)
      → NodupKeys additional
      → Agrees hawtio additional
      → IsConnected hawtio api
          (deployment_of hawtio (
            assemble_pod platform hawtio api url config_version cert_version bv mounts
              additional)).spec.template
  unfolding deployment_of
  pod-IsConnected hawtio api url config_version cert_version bv mounts additional u a = (
    service-Reaches hawtio api url config_version cert_version bv mounts additional u a,
    pod-IsProbed hawtio api url config_version cert_version bv mounts additional,
    pod-MountsServingSecret hawtio api url config_version cert_version bv mounts additional,
  )

  -- The ingress and the route of a custom resource lead to its service; where the additional labels of the
  -- build give no other value to a label of the resource, the service selects the pods of its deployment
  -- and sends to a port of one of their containers; each probe asks a port of its own container; and
  -- under SSL the pods mount the secret in which the service asks for its certificate.
  pub new_deployment-IsConnected :
      (hawtio : Hawtio) (api : ApiServerSpec) (url config_version cert_version : String)
      (bv : BuildVariables) (additional : Dict String) (serving tls ca : Option Secret)
      (d : Deployment)
      → platform.selector_to_labels bv.additional_labels ≡ ok additional
      → NodupKeys additional
      → Agrees hawtio additional
      → new_deployment platform hawtio api url config_version cert_version bv ≡ ok d
      → IngressLeads (new_ingress hawtio api serving) (new_service hawtio api)
        × RouteLeads (new_route hawtio tls ca) (new_service hawtio api)
        × IsConnected hawtio api d.spec.template
  new_deployment-IsConnected hawtio api url config_version cert_version bv additional serving tls ca
        d l u a h =
      let (mounts, e) =
        new_deployment-eq-ok platform hawtio api url config_version cert_version bv additional d l
          h in
      (
        ingress-Leads hawtio api serving,
        route-Leads hawtio api tls ca,
        subst (λ (x : Deployment). IsConnected hawtio api x.spec.template) e
            (pod-IsConnected hawtio api url config_version cert_version bv mounts additional u a),
      )
