-- ===== src/Util/Metadata.antt =====
-- pkg/util/util.go: `MergeMap`.
use hawtio_operator.Base.{String, ◌≡◌, refl, ◌∙◌, [], ◌∷◌, arith, eq_iff}
use hawtio_operator.Base.Dict.{
  Dict, lookup, insert, or_else, NodupKeys, lookup-insert, insert-NodupKeys,
}

-- The loop over `required`.
merge_into : Dict String → Dict String → Dict String
merge_into existing [] = existing
merge_into existing ((k, v) ∷ required) = merge_into (insert k v existing) required

-- `MergeMap`: a nil map is the empty one.
unfoldable pub merge_map : Dict String → Dict String → Dict String
unfolding merge_into
merge_map [] required = required
merge_map (e ∷ existing) required = merge_into (e ∷ existing) required

lookup-merge_into :
    (j : String) (existing required : Dict String)
    → NodupKeys required
    → lookup j (merge_into existing required) ≡ or_else (lookup j required) (lookup j existing)
unfolding merge_into
lookup-merge_into j existing [] _ = unfold lookup in refl
lookup-merge_into j existing ((k, v) ∷ required) (fresh, u) =
    lookup-merge_into j (insert k v existing) required u
    ∙ unfold lookup in ground (arith, lookup-insert k j v existing, eq_iff k j, fresh)

-- A merged map reads as `required` where that has the key, and as `existing` where it has not.
pub lookup-merge_map :
    (j : String) (existing required : Dict String)
    → NodupKeys required
    → lookup j (merge_map existing required) ≡ or_else (lookup j required) (lookup j existing)
unfolding merge_map
lookup-merge_map j [] required u = unfold lookup in ground arith
lookup-merge_map j (e ∷ existing) required u = lookup-merge_into j (e ∷ existing) required u

merge_into-NodupKeys :
    (existing required : Dict String)
    → NodupKeys existing
    → NodupKeys (merge_into existing required)
unfolding merge_into
merge_into-NodupKeys existing [] h = h
merge_into-NodupKeys existing ((k, v) ∷ required) h =
    merge_into-NodupKeys (insert k v existing) required (insert-NodupKeys k v existing h)

pub merge_map-NodupKeys :
    (existing required : Dict String)
    → NodupKeys existing
    → NodupKeys required
    → NodupKeys (merge_map existing required)
unfolding merge_map
merge_map-NodupKeys [] required h u = u
merge_map-NodupKeys (e ∷ existing) required h u = merge_into-NodupKeys (e ∷ existing) required h
