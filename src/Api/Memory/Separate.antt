-- ===== src/Api/Memory/Separate.antt =====
-- pkg/apis/hawtio/v2/zz_generated.deepcopy.go: copies of cells are deep, and so are those of structs,
-- field by field.
use hawtio_operator.Base.{
  ℕ, suc, ◌≤◌, ◌≡◌, refl, ◌∙◌, Option, none, some, arith, inl, inr, Option-cases,
}
use hawtio_operator.Base.{ltb, Bool-cases}
use hawtio_operator.Api.Memory.{
  Cell, Store, allocate, in_use, option_map, option_pair, option_join, Copier, copy_cell, referring,
  both, Kept, IsDeep,
}

module _ {X : Type 0} where
  pub Kept-trans :
      (low mid high : ℕ) (s t u : Store X)
      → mid ≤ high
      → Kept low mid s t
      → Kept low high t u
      → Kept low mid s u
  Kept-trans low mid high s t u h (a, k) (b, l) =
      (omega arith, λ n p q. l n p (omega arith) ∙ k n p q)

  Kept-within :
      (low low' high high' : ℕ) (s t : Store X)
      → low ≤ low'
      → high' ≤ high
      → Kept low high s t
      → Kept low' high' s t
  Kept-within low low' high high' s t h h' (a, k) =
      (omega arith, λ n p q. k n (omega arith) (omega arith))

  in_use-Kept :
      (s t : Store X) (p : ℕ) (c : Cell X)
      → in_use s p ≡ some c
      → Kept 0 s.next s t
      → in_use t p ≡ some c
  in_use-Kept s t p c e (a, k) = elim (Bool-cases (ltb p s.next)) [
    | inl h ↦ ground (arith, k p)
    | inr h ↦ ground arith
  ]

  -- The cell that was allocated holds what it was given.
  in_use-allocated :
      (s t : Store X) (p : ℕ)
      → Kept s.next (suc s.next) (allocate (s.cell p) s).1 t
      → in_use t s.next ≡ some (s.cell p)
  in_use-allocated s t p (a, k) = ground (arith, k s.next)

  copy_cell-keeps : (s : Store X) (r : Option ℕ) → Kept 0 s.next s (copy_cell r s).1
  unfolding copy_cell
  copy_cell-keeps s none = (omega arith, λ n p q. refl)
  copy_cell-keeps s (some p) = (omega arith, λ n p q. ground arith)

module _ {X A : Type 0} (view : Cell X → Option A) where
  abbrev seen : Store X → ℕ → Option A
  seen s p = option_join (option_map view (in_use s p))

  seen-Kept :
      (s t : Store X) (p : ℕ) (a : A) → seen s p ≡ some a → Kept 0 s.next s t → seen t p ≡ some a
  seen-Kept s t p a e k = elim (Option-cases (in_use s p)) [
    | inl h ↦ absurd (cc (rw h at e))
    | inr (c, h) ↦ rw (in_use-Kept s t p c h k) (rw h at e)
  ]

  seen-allocated :
      (s t : Store X) (p : ℕ) (a : A)
      → seen s p ≡ some a
      → Kept s.next (suc s.next) (allocate (s.cell p) s).1 t
      → seen t s.next ≡ some a
  seen-allocated s t p a e k = elim (Bool-cases (ltb p s.next)) [
    | inl h ↦ rw (in_use-allocated s t p k) (rw h at e)
    | inr h ↦ absurd (cc (rw h at e))
  ]

  module _ (nil : A) where
    referring-stable :
        (s t : Store X) (r : Option ℕ) (a : A)
        → (referring nil view).read s r ≡ some a
        → Kept 0 s.next s t
        → (referring nil view).read t r ≡ some a
    referring-stable s t none a e k = e
    referring-stable s t (some p) a e k = seen-Kept s t p a e k

    referring-copied :
        (s t : Store X) (r : Option ℕ) (a : A)
        → (referring nil view).read s r ≡ some a
        → Kept s.next (copy_cell r s).1.next (copy_cell r s).1 t
        → (referring nil view).read t (copy_cell r s).0 ≡ some a
    unfolding copy_cell
    referring-copied s t none a e k = e
    referring-copied s t (some p) a e k = seen-allocated s t p a e k

    pub referring-IsDeep : IsDeep (referring nil view)
    referring-IsDeep = record {
      stable = referring-stable;
      keeps = copy_cell-keeps;
      copied = referring-copied;
    }

option_pair-eq :
    {A B : Type 0} (x : Option A) (y : Option B) (a : A) (b : B)
    → option_pair x y ≡ some (a, b)
    → (x ≡ some a) × (y ≡ some b)
option_pair-eq none y a b e = cc
option_pair-eq (some x) none a b e = cc
option_pair-eq (some x) (some y) a b e = (cc, cc)

pub option_map-eq :
    {A B : Type 0} (f : A → B) (x : Option A) (b : B)
    → option_map f x ≡ some b
    → (a : A) × (x ≡ some a) × (f a ≡ b)
option_map-eq f none b e = cc
option_map-eq f (some a) b e = (a, refl, cc)

module _ {X R Q A B : Type 0} {c : Copier X R A} {d : Copier X Q B} (deep_c : IsDeep c)
    (deep_d : IsDeep d) where
  both-stable :
      (s t : Store X) (r : R × Q) (a : A × B)
      → (both c d).read s r ≡ some a
      → Kept 0 s.next s t
      → (both c d).read t r ≡ some a
  both-stable s t r a e k =
      let (e1, e2) = option_pair-eq (c.read s r.0) (d.read s r.1) a.0 a.1 e in
      rw (deep_c.stable s t r.0 a.0 e1 k, deep_d.stable s t r.1 a.1 e2 k) refl

  both-keeps : (s : Store X) (r : R × Q) → Kept 0 s.next s ((both c d).copy r s).1
  both-keeps s r =
      let s1 = (c.copy r.0 s).1 in
      let k1 = deep_c.keeps s r.0 in
      Kept-trans 0 s.next s1.next s s1 _ k1.0 k1 (deep_d.keeps s1 r.1)

  both-copied :
      (s t : Store X) (r : R × Q) (a : A × B)
      → (both c d).read s r ≡ some a
      → Kept s.next ((both c d).copy r s).1.next ((both c d).copy r s).1 t
      → (both c d).read t ((both c d).copy r s).0 ≡ some a
  both-copied s t r a e k =
      let (e1, e2) = option_pair-eq (c.read s r.0) (d.read s r.1) a.0 a.1 e in
      let s1 = (c.copy r.0 s).1 in
      let s2 = (d.copy r.1 s1).1 in
      let k1 = deep_c.keeps s r.0 in
      let k2 = deep_d.keeps s1 r.1 in
      rw
        (
          deep_c.copied s t r.0 a.0 e1 (
              Kept-trans s.next s1.next s2.next s1 s2 t k2.0
                (Kept-within 0 s.next s1.next s1.next s1 s2 (omega arith) (omega arith) k2) k),
          deep_d.copied s1 t r.1 a.1 (deep_d.stable s s1 r.1 a.1 e2 k1)
              (Kept-within s.next s1.next s2.next s2.next s2 t k1.0 (omega arith) k),
        )
        refl

  pub both-IsDeep : IsDeep (both c d)
  both-IsDeep = record { stable = both-stable; keeps = both-keeps; copied = both-copied }
