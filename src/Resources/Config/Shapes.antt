-- ===== src/Resources/Config/Shapes.antt =====
-- pkg/resources/configmap.go: `merge` keeps the shape of its values.
use mathlib.Core.Path.{subst}
use Prim.Native.String.{slice}
use package.text.Mathlib.Text.{find?}
use hawtio_operator.Base.{
  ◌+◌, ◌<>◌, String, Option, none, some, inl, inr, eq_iff, Bool-cases, Option-cases,
}
use hawtio_operator.Base.{◌==◌, if◌then◌else◌}
use hawtio_operator.Resources.Config.Merge.{
  Json, null, boolean, number, text, array, object, Items, no_items, item, Fields, no_fields, field,
  get_field, set_field, merge, merge_fields,
}

-- What a Go type takes: any value, a string, a bool, a slice, or a struct by the tags of its fields.
mutual
  pub data Shape : Type 0 where
    anything : Shape
    string : Shape
    flag : Shape
    list_of : Shape → Shape
    struct : Tags → Shape

  pub data Tags : Type 0 where
    no_tags : Tags
    tag : String → Shape → Tags → Tags

-- `encoding/json` compares keys by simple folding: besides the letters of ASCII, the long s and the Kelvin
-- sign fold to letters.
abbrev folded_letter : String → String
folded_letter c = elim (find? "ABCDEFGHIJKLMNOPQRSTUVWXYZ" c) [
  | none ↦ c
  | some i ↦ slice "abcdefghijklmnopqrstuvwxyz" i (i + 1)
]

abbrev folded : String → String
folded c = if c == "ſ" then "s" else (if c == "K" then "k" else folded_letter c)

abbrev fold_name : String → String
fold_name String.[] = ""
fold_name (String.◌∷◌ c s) = folded (String.◌∷◌ c String.[]) <> fold_name s

-- A key is the tag's in whatever case its letters are; one that no tag names is passed over, whatever its value.
abbrev pub shape_of : String → Tags → Shape
shape_of k no_tags = anything
shape_of k (tag j s ts) = if fold_name j == fold_name k then s else shape_of k ts

abbrev pub TakesFlag : Shape → Type 0
TakesFlag anything = Unit
TakesFlag flag = Unit
TakesFlag _ = ⊥

abbrev pub TakesString : Shape → Type 0
TakesString anything = Unit
TakesString string = Unit
TakesString _ = ⊥

abbrev TakesNumber : Shape → Type 0
TakesNumber anything = Unit
TakesNumber _ = ⊥

-- A decoded value can be read into a shape; null can be read into each.
abbrev mutual
  pub Fits : Json → Shape → Type 0
  Fits null s = Unit
  Fits (boolean b) s = TakesFlag s
  Fits (number n) s = TakesNumber s
  Fits (text t) s = TakesString s
  Fits (array xs) anything = Unit
  Fits (array xs) (list_of s) = ItemsFit xs s
  Fits (array xs) _ = ⊥
  Fits (object fs) anything = Unit
  Fits (object fs) (struct ts) = FieldsFit fs ts
  Fits (object fs) _ = ⊥

  pub ItemsFit : Items → Shape → Type 0
  ItemsFit no_items s = Unit
  ItemsFit (item x xs) s = Fits x s × ItemsFit xs s

  pub FieldsFit : Fields → Tags → Type 0
  FieldsFit no_fields ts = Unit
  FieldsFit (field k v fs) ts = Fits v (shape_of k ts) × FieldsFit fs ts

abbrev OptionFits : Option Json → Shape → Type 0
OptionFits none s = Unit
OptionFits (some j) s = Fits j s

get_field-Fits :
    (k : String) (fs : Fields) (ts : Tags)
    → FieldsFit fs ts
    → OptionFits (get_field k fs) (shape_of k ts)
unfolding get_field
get_field-Fits k no_fields ts h = tt
get_field-Fits k (field j v fs) ts (a, h) = elim (Bool-cases (j == k)) [
  | inl e ↦ rw e (subst (λ i. Fits v (shape_of i ts)) ((eq_iff j k).0 e) a)
  | inr e ↦ rw e (get_field-Fits k fs ts h)
]

set_field-Fits :
    (k : String) (v : Json) (fs : Fields) (ts : Tags)
    → Fits v (shape_of k ts)
    → FieldsFit fs ts
    → FieldsFit (set_field k v fs) ts
unfolding set_field
set_field-Fits k v no_fields ts a h = (a, tt)
set_field-Fits k v (field j w fs) ts a (b, h) = elim (Bool-cases (j == k)) [
  | inl e ↦ rw e (a, h)
  | inr e ↦ rw e (b, set_field-Fits k v fs ts a h)
]

mutual
  unfolding merge merge_fields

  -- What is merged of two values that fit a shape fits it.
  pub merge-Fits : (b a : Json) (s : Shape) → Fits a s → Fits b s → Fits (merge a b) s
  merge-Fits (object d) (object f) anything p q = tt
  merge-Fits (object d) (object f) (struct ts) p q = merge_fields-Fits d f ts p q
  merge-Fits (object d) (object f) string p q = p
  merge-Fits (object d) (object f) flag p q = p
  merge-Fits (object d) (object f) (list_of s) p q = p
  merge-Fits (object d) null s p q = q
  merge-Fits (object d) a s p q = p
  merge-Fits b (object f) s p q = p
  merge-Fits b a s p q = p

  merge_fields-Fits :
      (d f : Fields) (ts : Tags) → FieldsFit f ts → FieldsFit d ts → FieldsFit (merge_fields f d) ts
  merge_fields-Fits no_fields f ts p q = p
  merge_fields-Fits (field k v2 d) f ts p (b, q) =
      merge_fields-Fits d (set_field k _ f) ts
        (set_field-Fits k _ f ts
          (elim (Option-cases (get_field k f)) [
            | inl e ↦ rw e b
            | inr (v1, e) ↦
                rw e (merge-Fits v2 v1 (shape_of k ts) (rw e at (get_field-Fits k f ts p)) b)
          ])
          p)
        q
