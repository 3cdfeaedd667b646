-- ===== src/Resources/Labels/Laws.antt =====
-- What propagation adds, and that it keeps the operator's own labels.
use hawtio_operator.Base.{String, ◌≡◌, refl, ◌∙◌, none, some, List, [], ◌∷◌}
use hawtio_operator.Base.{arith, eq_iff, if◌then◌else◌}
use hawtio_operator.Base.Dict.{Dict, lookup, or_else, NodupKeys, lookup-insert, insert-NodupKeys}
use hawtio_operator.Api.{Hawtio}
use hawtio_operator.Util.Pattern.{match_patterns}
use hawtio_operator.Resources.Labels.{
  propagate, resource_labels, label_app_key, label_app_value, label_resource_key,
}

-- A key of the target keeps its value. Another key has the source's value where a pattern selects it,
-- and is missing where none does.
pub lookup-propagate :
    (j : String) (patterns : List String) (source target : Dict String)
    → lookup j (propagate patterns source target)
      ≡ or_else (lookup j target) (if match_patterns patterns j then lookup j source else none)
unfolding propagate
lookup-propagate j patterns [] target = unfold lookup in ground arith
lookup-propagate j patterns ((k, v) ∷ source) target =
    lookup-propagate j patterns source _
    ∙ unfold lookup in ground (arith, lookup-insert k j v target, eq_iff k j)

pub propagate-NodupKeys :
    (patterns : List String) (source target : Dict String)
    → NodupKeys target
    → NodupKeys (propagate patterns source target)
unfolding propagate
propagate-NodupKeys patterns [] target h = h
propagate-NodupKeys patterns ((k, v) ∷ source) target h =
    propagate-NodupKeys patterns source _ (ground (arith, insert-NodupKeys k v target h))

-- Whatever the custom resource propagates, its objects keep the two labels by which the operator's
-- cache and the selectors find them.
pub resource_labels_own :
    (hawtio : Hawtio)
    → (lookup label_app_key (resource_labels hawtio) ≡ some label_app_value)
      × (lookup label_resource_key (resource_labels hawtio) ≡ some hawtio.metadata.name)
unfolding lookup
resource_labels_own hawtio =
    (lookup-propagate label_app_key _ _ _, lookup-propagate label_resource_key _ _ _)

pub resource_labels-NodupKeys : (hawtio : Hawtio) → NodupKeys (resource_labels hawtio)
resource_labels-NodupKeys hawtio = propagate-NodupKeys _ _ _ (unfold lookup in (refl, (refl, tt)))
