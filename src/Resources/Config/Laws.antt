-- ===== src/Resources/Config/Laws.antt =====
-- pkg/resources/configmap.go: what `merge` makes of each key.
use hawtio_operator.Base.{String, ◌≡◌, refl, Option, none, some, arith, eq_iff, ◌∙◌}
use hawtio_operator.Base.{◌==◌, if◌then◌else◌}
use hawtio_operator.Resources.Config.Merge.{
  Json, Fields, no_fields, field, get_field, set_field, NodupFields, merge, merge_fields,
  get_field-set_field,
}

-- The value of a key after the merge, from the values of the two maps.
abbrev pub merged_value : Option Json → Option Json → Option Json
merged_value a none = a
merged_value none (some v2) = some v2
merged_value (some v1) (some v2) = some (merge v1 v2)

-- One key of the defaults: `v` is what it is set to, and the merge of the others keeps it.
merged_key :
    (k j : String) (v v2 : Json) (f d : Fields)
    → some v ≡ merged_value (get_field j f) (some v2)
    → get_field j d ≡ none
    → merged_value (get_field k (set_field j v f)) (get_field k d)
      ≡ merged_value (get_field k f) (if j == k then some v2 else get_field k d)
merged_key k j v v2 f d e fresh = ground (arith, eq_iff j k, get_field-set_field j k v f)

assigned :
    (a : Option Json) (v2 : Json)
    → some (elim a [ none ↦ v2 | some v1 ↦ merge v1 v2 ]) ≡ merged_value a (some v2)
assigned none v2 = refl
assigned (some v1) v2 = refl

-- `merge` of two maps decides each key on its own: the custom resource's value where the defaults lack the
-- key, the default where the custom resource lacks it, and the merge of the two where both have it. The
-- keys of the defaults are distinct, as those of any decoded object.
pub get_field-merge_fields :
    (k : String) (f d : Fields)
    → NodupFields d
    → get_field k (merge_fields f d) ≡ merged_value (get_field k f) (get_field k d)
unfolding merge_fields get_field
get_field-merge_fields k f no_fields u = refl
get_field-merge_fields k f (field j v2 d) (fresh, u) =
    get_field-merge_fields k (set_field j _ f) d u
    ∙ merged_key k j _ v2 f d (assigned (get_field j f) v2) fresh
