-- ===== src/Resources/Deployment/Selector.antt =====
-- The deployment selects the pods of its own template.
use mathlib.Core.Path.{subst}
use hawtio_operator.Base.{
  String, ◌≡◌, refl, ◌∙◌, sym, ap, none, some, List, [], ◌∷◌, ◌⊎◌, inl, inr, Option-cases,
}
use hawtio_operator.Base.{arith, eq_iff, if◌then◌else◌}
use hawtio_operator.Base.Dict.{Dict, lookup, insert, or_else, NodupKeys, lookup-insert}
use hawtio_operator.Base.Errors.{ok, two_steps-eq-ok, >>=-eq-ok, ok-injective}
use hawtio_operator.Kube.Workload.{VolumeMount, Deployment}
use hawtio_operator.Api.{Hawtio}
use hawtio_operator.Capabilities.{ApiServerSpec}
use hawtio_operator.Util.Version.{BuildVariables, get_online_version}
use hawtio_operator.Util.Pattern.{match_patterns}
use hawtio_operator.Resources.Labels.{
  labels_for_hawtio, propagate_labels, resource_labels, propagate,
}
use hawtio_operator.Resources.Labels.Laws.{lookup-propagate}
use hawtio_operator.Resources.Volumes.{new_volume_mounts}
use hawtio_operator.Resources.Deployment.{
  Platform, add_labels, assemble_pod, deployment_of, new_pod_template_spec, new_deployment,
}

lookup-add_labels :
    (j : String) (additional labels : Dict String)
    → NodupKeys additional
    → lookup j (add_labels additional labels) ≡ or_else (lookup j additional) (lookup j labels)
unfolding add_labels
lookup-add_labels j [] labels _ = unfold lookup in refl
lookup-add_labels j ((k, v) ∷ additional) labels (fresh, u) =
    lookup-add_labels j additional (insert k v labels) u
    ∙ unfold lookup in ground (arith, lookup-insert k j v labels, eq_iff k j, fresh)

-- Every label that is asked for is there, with its value.
abbrev pub Includes : Dict String → Dict String → Type 0
Includes wanted labels = (k v : String) → lookup k wanted ≡ some v → lookup k labels ≡ some v

-- The additional labels give no other value to a label of the resource.
abbrev pub Agrees : Hawtio → Dict String → Type 0
Agrees hawtio additional =
    (k v : String)
    → lookup k additional ≡ some v
    → (lookup k (resource_labels hawtio) ≡ none) ⊎ (lookup k (resource_labels hawtio) ≡ some v)

pod_label :
    (k : String) (additional own : Dict String) (patterns : List String) (source : Dict String)
    (v : String)
    → lookup k (add_labels additional own) ≡ or_else (lookup k additional) (lookup k own)
    → ((w : String)
        → lookup k additional ≡ some w
        → (lookup k (propagate patterns source own) ≡ none)
          ⊎ (lookup k (propagate patterns source own) ≡ some w))
    → lookup k (propagate patterns source own) ≡ some v
    → or_else
        (lookup k (add_labels additional own))
        (if match_patterns patterns k then lookup k source else none)
      ≡ some v
pod_label k additional own patterns source v e agrees h =
    elim (Option-cases (lookup k additional)) [
      | inl free ↦ ground (arith, lookup-propagate k patterns source own)
      | inr (w, taken) ↦ ground (arith, agrees w taken)
    ]

pub pod_labels_include :
    (hawtio : Hawtio) (additional : Dict String)
    → NodupKeys additional
    → Agrees hawtio additional
    → Includes
        (resource_labels hawtio)
        (propagate_labels hawtio (add_labels additional (labels_for_hawtio hawtio.metadata.name)))
pod_labels_include hawtio additional u agrees k v h =
    let own = labels_for_hawtio hawtio.metadata.name in
    let patterns = hawtio.spec.metadata_propagation.labels in
    let source = hawtio.metadata.labels in
    lookup-propagate k patterns source (add_labels additional own)
    ∙ pod_label k additional own patterns source v (lookup-add_labels k additional own u) (agrees k)
        h

abbrev pub SelectsOwnPods : Deployment → Type 0
SelectsOwnPods d =
    (wanted : Dict String) × (d.spec.selector ≡ some wanted)
    × Includes wanted d.spec.template.labels

module _ {V : Type 0} (platform : Platform V) where
  selects :
      (hawtio : Hawtio) (api : ApiServerSpec) (url config_version cert_version : String)
      (bv : BuildVariables) (mounts : Dict VolumeMount) (additional : Dict String)
      → NodupKeys additional
      → Agrees hawtio additional
      → SelectsOwnPods (
          deployment_of hawtio
            (assemble_pod platform hawtio api url config_version cert_version bv mounts additional))
  unfolding deployment_of assemble_pod
  selects hawtio api url config_version cert_version bv mounts additional u a =
      (resource_labels hawtio, refl, pod_labels_include hawtio additional u a)

  -- A deployment that is made is that of an assembled pod, with the labels that the build adds.
  pub new_deployment-eq-ok :
      (hawtio : Hawtio) (api : ApiServerSpec) (url config_version cert_version : String)
      (bv : BuildVariables) (additional : Dict String) (d : Deployment)
      → platform.selector_to_labels bv.additional_labels ≡ ok additional
      → new_deployment platform hawtio api url config_version cert_version bv ≡ ok d
      → (mounts : Dict VolumeMount) × (deployment_of hawtio
            (assemble_pod platform hawtio api url config_version cert_version bv mounts additional)
          ≡ d)
  unfolding new_deployment new_pod_template_spec
  new_deployment-eq-ok hawtio api url config_version cert_version bv additional d l h =
      let version = get_online_version platform.getenv bv in
      let make = assemble_pod platform hawtio api url config_version cert_version bv in
      let (pod, made, e) =
        >>=-eq-ok (new_pod_template_spec platform hawtio api url config_version cert_version bv)
          (λ pod. ok (deployment_of hawtio pod)) h in
      let (mounts, extra, _, listed, e') =
        two_steps-eq-ok
          (new_volume_mounts platform.semver hawtio api version hawtio.spec.rbac.config_map bv)
          (platform.selector_to_labels bv.additional_labels) make made in
      let same : extra ≡ additional = ok-injective (sym listed ∙ l) in
      (
        mounts,
        ap (λ x. deployment_of hawtio (make mounts x)) (sym same)
            ∙ ap (deployment_of hawtio) e'
            ∙ ok-injective e,
      )

  -- If the additional labels of the build give no other value to a label of the resource, the
  -- deployment's selector asks for labels that its own pod template carries, with those values.
  pub new_deployment-SelectsOwnPods :
      (hawtio : Hawtio) (api : ApiServerSpec) (url config_version cert_version : String)
      (bv : BuildVariables) (additional : Dict String) (d : Deployment)
      → platform.selector_to_labels bv.additional_labels ≡ ok additional
      → NodupKeys additional
      → Agrees hawtio additional
      → new_deployment platform hawtio api url config_version cert_version bv ≡ ok d
      → SelectsOwnPods d
  new_deployment-SelectsOwnPods hawtio api url config_version cert_version bv additional d l u a h =
      let (mounts, e) =
        new_deployment-eq-ok hawtio api url config_version cert_version bv additional d l h in
      subst SelectsOwnPods e
        (selects hawtio api url config_version cert_version bv mounts additional u a)
