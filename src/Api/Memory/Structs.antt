-- ===== src/Api/Memory/Structs.antt =====
-- pkg/apis/hawtio/v2/zz_generated.deepcopy.go: the copies of structs, and of what a pointer to one leads
-- to, are deep.
use hawtio_operator.Base.{◌≡◌, ◌∙◌, ap, Option, none, some, arith}
use hawtio_operator.Api.Memory.{Store, option_map, Copier, of_fields, Kept, IsDeep}
use hawtio_operator.Api.Memory.Copies.{deep_copy}
use hawtio_operator.Api.Memory.Separate.{option_map-eq, Kept-trans}

-- A struct that refers to memory by some fields, `get`, and gets its copy from theirs, `put`.
module _ {X R S A B : Type 0} {c : Copier X R A} (deep : IsDeep c) (get : S → R) (put : S → R → S)
    (build : S → A → B) (put_lem : (r : S) (x : R) → get (put r x) ≡ x)
    (same : (r : S) (x : R) (a : A) → build (put r x) a ≡ build r a) where
  of_fields-stable :
      (s t : Store X) (r : S) (b : B)
      → (of_fields c get put build).read s r ≡ some b
      → Kept 0 s.next s t
      → (of_fields c get put build).read t r ≡ some b
  of_fields-stable s t r b e k =
      let (a, found, built) = option_map-eq (build r) (c.read s (get r)) b e in
      rw (deep.stable s t (get r) a found k) (ap some built)

  of_fields-copied :
      (s t : Store X) (r : S) (b : B)
      → (of_fields c get put build).read s r ≡ some b
      → Kept s.next (c.copy (get r) s).1.next (c.copy (get r) s).1 t
      → (of_fields c get put build).read t (put r (c.copy (get r) s).0) ≡ some b
  of_fields-copied s t r b e k =
      let (a, found, built) = option_map-eq (build r) (c.read s (get r)) b e in
      let x = (c.copy (get r) s).0 in
      rw (put_lem r x, deep.copied s t (get r) a found k) (ap some (same r x a ∙ built))

  pub of_fields-IsDeep : IsDeep (of_fields c get put build)
  of_fields-IsDeep = record {
    stable = of_fields-stable;
    keeps = λ s r. deep.keeps s (get r);
    copied = of_fields-copied;
  }

-- What a pointer to a struct stands for.
abbrev pub pointed : {X R A : Type 0} → Copier X R A → Store X → Option R → Option (Option A)
pointed c s none = some none
pointed c s (some r) = option_map some (c.read s r)

-- A deep copy and its source read alike as long as the addresses that the copy has taken are kept,
-- and the source as before as long as those that were in use are.
pub deep_copy-pointed :
    {X R A : Type 0} (c : Copier X R A) (deep : IsDeep c) (s t u : Store X) (p : Option R)
    (a : Option A)
    → pointed c s p ≡ some a
    → Kept s.next (deep_copy c.copy p s).1.next (deep_copy c.copy p s).1 t
    → Kept 0 s.next (deep_copy c.copy p s).1 u
    → (pointed c t (deep_copy c.copy p s).0 ≡ some a) × (pointed c u p ≡ some a)
unfolding deep_copy
deep_copy-pointed c deep s t u none a e k l = (e, e)
deep_copy-pointed c deep s t u (some r) a e k l =
    let (v, found, same) = option_map-eq some (c.read s r) a e in
    let k1 = deep.keeps s r in
    (
      rw (deep.copied s t r v found k) (ap some same),
      rw
          (deep.stable s u r v found
            (Kept-trans 0 s.next s.next s (c.copy r s).1 u (omega arith) k1 l))
          (ap some same),
    )
