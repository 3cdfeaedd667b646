-- ===== src/Resources/Config/Merge.antt =====
-- pkg/resources/configmap.go: `merge` of two decoded JSON values.
use hawtio_operator.Base.{String, Bool, ◌≡◌, refl, Option, none, some, arith, eq_iff}
use hawtio_operator.Base.{◌==◌, if◌then◌else◌}

-- What encoding/json decodes into an `interface{}`.
mutual
  pub data Json : Type 0 where
    null : Json
    boolean : Bool → Json
    number : String → Json
    text : String → Json
    array : Items → Json
    object : Fields → Json

  pub data Items : Type 0 where
    no_items : Items
    item : Json → Items → Items

  pub data Fields : Type 0 where
    no_fields : Fields
    field : String → Json → Fields → Fields

-- `v, ok := x[k]`
unfoldable pub get_field : String → Fields → Option Json
get_field k no_fields = none
get_field k (field j v fs) = if j == k then some v else get_field k fs

-- `x[k] = v`
unfoldable pub set_field : String → Json → Fields → Fields
set_field k v no_fields = field k v no_fields
set_field k v (field j w fs) = if j == k then field k v fs else field j w (set_field k v fs)

-- The keys of a decoded object are distinct.
abbrev pub NodupFields : Fields → Type 0
NodupFields no_fields = Unit
NodupFields (field k v fs) = (get_field k fs ≡ none) × NodupFields fs

unfoldable mutual
  unfolding set_field get_field

  -- `merge`; the recursion is on the second value.
  pub merge : Json → Json → Json
  merge (object f) (object d) = object (merge_fields f d)
  merge null (object d) = object d
  merge x1 _ = x1

  -- The loop over the second map.
  pub merge_fields : Fields → Fields → Fields
  merge_fields f no_fields = f
  merge_fields f (field k v2 d) =
      merge_fields (set_field k (elim (get_field k f) [ none ↦ v2 | some v1 ↦ merge v1 v2 ]) f) d

pub get_field-set_field :
    (k j : String) (v : Json) (fs : Fields)
    → get_field j (set_field k v fs) ≡ (if k == j then some v else get_field j fs)
unfolding get_field set_field
get_field-set_field k j v no_fields = refl
get_field-set_field k j v (field i w fs) =
    ground (arith, eq_iff k j, eq_iff i k, eq_iff i j, get_field-set_field k j v fs)
