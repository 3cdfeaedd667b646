-- ===== src/Resources/Labels.antt =====
-- pkg/resources/label.go: the operator's own labels, and the propagation of the resource's metadata.
pub mod Laws
use hawtio_operator.Base.{String, Bool, true, false, Option, none, some, List, [], ◌∷◌}
use hawtio_operator.Base.{if◌then◌else◌}
use hawtio_operator.Base.Dict.{Dict, lookup, insert, has_key}
use hawtio_operator.Api.{Hawtio}
use hawtio_operator.Util.Pattern.{match_patterns}

abbrev pub label_app_key : String
label_app_key = "app"

abbrev pub label_app_value : String
label_app_value = "hawtio"

abbrev pub label_resource_key : String
label_resource_key = "deployment"

-- `LabelsForHawtio`
abbrev pub labels_for_hawtio : String → Dict String
labels_for_hawtio name = (label_app_key, label_app_value) ∷ (label_resource_key, name) ∷ []

-- The loop that `PropagateAnnotations` and `PropagateLabels` share: the selected keys that the target
-- lacks are added to it.
unfoldable pub propagate : List String → Dict String → Dict String → Dict String
propagate patterns [] target = target
propagate patterns ((k, v) ∷ source) target = propagate patterns source (
    if match_patterns patterns k
    then (if has_key k target then target else insert k v target)
    else target)

-- `PropagateAnnotations`
abbrev pub propagate_annotations : Hawtio → Dict String → Dict String
propagate_annotations hawtio annotations =
    propagate hawtio.spec.metadata_propagation.annotations hawtio.metadata.annotations annotations

-- `PropagateLabels`
abbrev pub propagate_labels : Hawtio → Dict String → Dict String
propagate_labels hawtio labels =
    propagate hawtio.spec.metadata_propagation.labels hawtio.metadata.labels labels

-- The labels that most resources get.
abbrev pub resource_labels : Hawtio → Dict String
resource_labels hawtio = propagate_labels hawtio (labels_for_hawtio hawtio.metadata.name)
