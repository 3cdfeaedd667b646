-- ===== src/Resources/Config/Overlay.antt =====
-- pkg/resources/configmap.go: which of two merged values each path reads.
use hawtio_operator.Base.{◌==◌}
use hawtio_operator.Base.{
  String, ◌≡◌, refl, ap, Option, none, some, List, [], ◌∷◌, inl, inr, Bool-cases,
}
use hawtio_operator.Resources.Config.Merge.{
  Json, null, object, Fields, no_fields, field, get_field, NodupFields, merge,
}
use hawtio_operator.Resources.Config.Laws.{merged_value, get_field-merge_fields}

-- No object within objects has a key twice, as in any decoded text.
abbrev mutual
  pub AreDistinct : Json → Type 0
  AreDistinct (object fs) = AllDistinct fs
  AreDistinct _ = Unit

  pub AllDistinct : Fields → Type 0
  AllDistinct no_fields = Unit
  AllDistinct (field k v fs) = (get_field k fs ≡ none) × AreDistinct v × AllDistinct fs

-- `x[k]` of a value that may be missing or no object
abbrev pub child : String → Option Json → Option Json
child k (some (object fs)) = get_field k fs
child k _ = none

-- The value at a path of keys.
abbrev pub at_path : List String → Option Json → Option Json
at_path [] o = o
at_path (k ∷ ks) o = at_path ks (child k o)

-- A value that no merge changes.
abbrev pub IsLeaf : Json → Type 0
IsLeaf null = ⊥
IsLeaf (object fs) = ⊥
IsLeaf _ = Unit

-- The path leads through objects to a key that is missing.
abbrev pub IsAbsent : List String → Option Json → Type 0
IsAbsent ks none = Unit
IsAbsent (k ∷ ks) (some (object fs)) = IsAbsent ks (get_field k fs)
IsAbsent _ _ = ⊥

AllDistinct-Nodup : (fs : Fields) → AllDistinct fs → NodupFields fs
AllDistinct-Nodup no_fields u = tt
AllDistinct-Nodup (field k v fs) (a, b, u) = (a, AllDistinct-Nodup fs u)

abbrev OptionDistinct : Option Json → Type 0
OptionDistinct none = Unit
OptionDistinct (some j) = AreDistinct j

get_field-OptionDistinct :
    (k : String) (fs : Fields) → AllDistinct fs → OptionDistinct (get_field k fs)
unfolding get_field
get_field-OptionDistinct k no_fields u = tt
get_field-OptionDistinct k (field j w fs) (fresh, a, u) = elim (Bool-cases (j == k)) [
  | inl q ↦ rw q a
  | inr q ↦ rw q (get_field-OptionDistinct k fs u)
]

merge-leaf : (a d : Json) → IsLeaf a → merge a d ≡ a
unfolding merge
merge-leaf null d h = absurd h
merge-leaf (object f) d h = absurd h
merge-leaf a (object d) h = refl
merge-leaf a d h = refl

merged-leaf : (a : Json) (d : Option Json) → IsLeaf a → merged_value (some a) d ≡ some a
merged-leaf a none h = refl
merged-leaf a (some d) h = ap some (merge-leaf a d h)

merged-none : (d : Option Json) → merged_value none d ≡ d
merged-none none = refl
merged-none (some d) = refl

child-merged :
    (k : String) (f : Fields) (d : Option Json)
    → OptionDistinct d
    → child k (merged_value (some (object f)) d) ≡ merged_value (get_field k f) (child k d)
unfolding merge
child-merged k f none u = refl
child-merged k f (some (object d)) u = get_field-merge_fields k f d (AllDistinct-Nodup d u)
child-merged k f (some d) u = refl

child-OptionDistinct :
    (k : String) (d : Option Json) → OptionDistinct d → OptionDistinct (child k d)
child-OptionDistinct k none u = tt
child-OptionDistinct k (some (object d)) u = get_field-OptionDistinct k d u
child-OptionDistinct k (some d) u = tt

at_path-none : (p : List String) → at_path p none ≡ none
at_path-none [] = refl
at_path-none (k ∷ ks) = at_path-none ks

-- A path that reads a leaf in the first value reads it in the merge.
pub at_path-merged_leaf :
    (p : List String) (a d : Option Json) (v : Json)
    → OptionDistinct d
    → at_path p a ≡ some v
    → IsLeaf v
    → at_path p (merged_value a d) ≡ some v
at_path-merged_leaf [] a d v u e leaf = rw e (merged-leaf v d leaf)
at_path-merged_leaf (k ∷ ks) none d v u e leaf = cc (at_path-none ks)
at_path-merged_leaf (k ∷ ks) (some (object f)) d v u e leaf =
    rw (child-merged k f d u)
      (at_path-merged_leaf ks (get_field k f) (child k d) v (child-OptionDistinct k d u) e leaf)
at_path-merged_leaf (k ∷ ks) (some a) d v u e leaf = cc (at_path-none ks)

-- A path that is absent in the first value reads in the merge what it reads in the second.
pub at_path-merged_absent :
    (p : List String) (a d : Option Json)
    → OptionDistinct d
    → IsAbsent p a
    → at_path p (merged_value a d) ≡ at_path p d
at_path-merged_absent p none d u h = ap (at_path p) (merged-none d)
at_path-merged_absent [] (some a) d u h = absurd h
at_path-merged_absent (k ∷ ks) (some (object f)) d u h =
    rw (child-merged k f d u)
      (at_path-merged_absent ks (get_field k f) (child k d) (child-OptionDistinct k d u) h)
at_path-merged_absent (k ∷ ks) (some a) d u h = absurd h
