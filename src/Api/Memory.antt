-- ===== src/Api/Memory.antt =====
-- pkg/apis/hawtio/v2/zz_generated.deepcopy.go: the memory that values of the API share, and what a
-- deep copy is.
pub mod Stored
pub mod Copies
pub mod Separate
pub mod Structs
pub mod Parts
pub mod Values
use hawtio_operator.Base.{
  ℕ, suc, ◌+◌, ◌<◌, ◌≤◌, ◌≡◌, refl, ◌∙◌, sym, Bool, true, false, Option, none, some, String, List,
  [], arith, inl, inr,
}
use hawtio_operator.Base.{ltb, nat_eq, Bool-cases, if◌then◌else◌}
use hawtio_operator.Base.Int.{ℤ}
use hawtio_operator.Api.Config.{HawtioProductInfo}

-- What stands at an address: the target of a pointer, the array of a slice, or memory of another package.
pub data Cell (X : Type 0) : Type 0 where
  flag : Bool → Cell X
  int : ℤ → Cell X
  strings : List String → Cell X
  infos : List HawtioProductInfo → Cell X
  foreign : X → Cell X

-- The addresses below `next` are in use.
pub record Store (X : Type 0) : Type 0 where
  pub next : ℕ
  pub cell : ℕ → Cell X

-- An action on the memory
abbrev pub Copying : Type 0 → Type 0 → Type 0
Copying X R = Store X → R × Store X

module _ {X : Type 0} where
  abbrev pub pure : {R : Type 0} → R → Copying X R
  pure r s = (r, s)

  infixl 5 ◌>>=◌
  abbrev pub ◌>>=◌ : {R Q : Type 0} → Copying X R → (R → Copying X Q) → Copying X Q
  ◌>>=◌ m f s = f (m s).0 (m s).1

  -- `new(T)` or `make`, with the first value
  abbrev pub allocate : Cell X → Copying X ℕ
  allocate c s =
      (s.next, record { next = suc s.next; cell = λ n. if nat_eq n s.next then c else s.cell n })

  abbrev in_use : Store X → ℕ → Option (Cell X)
  in_use s p = if ltb p s.next then some (s.cell p) else none

abbrev pub option_map : {A B : Type 0} → (A → B) → Option A → Option B
option_map f none = none
option_map f (some a) = some (f a)

abbrev pub option_pair : {A B : Type 0} → Option A → Option B → Option (A × B)
option_pair none b = none
option_pair (some a) none = none
option_pair (some a) (some b) = some (a, b)

abbrev pub option_join : {A : Type 0} → Option (Option A) → Option A
option_join none = none
option_join (some o) = o

-- A type of the program, whose values `R` refer to memory: the value that one stands for, where no
-- address is out of use, and its `DeepCopyInto`.
pub record Copier (X R A : Type 0) : Type 0 where
  pub read : Store X → R → Option A
  pub copy : R → Copying X R

-- `if in.F != nil { *out = new(T); **out = **in }` of a pointer, and of a slice `if in.F != nil { *out =
-- make([]T, len(*in)); copy(*out, *in) }`
unfoldable pub copy_cell : {X : Type 0} → Option ℕ → Copying X (Option ℕ)
copy_cell none s = (none, s)
copy_cell (some p) s = (allocate (s.cell p) >>= λ q. pure (some q)) s

-- What a pointer or a slice stands for, by what nil and what a cell stands for.
abbrev pub referring : {X A : Type 0} → A → (Cell X → Option A) → Copier X (Option ℕ) A
referring nil view = record {
  read = λ s r. elim r [ none ↦ some nil | some p ↦ option_join (option_map view (in_use s p)) ];
  copy = copy_cell;
}

-- A pointer stands for the value of its target, if any.
abbrev pub pointer : {X A : Type 0} → (Cell X → Option A) → Copier X (Option ℕ) (Option A)
pointer view = referring none λ c. option_map some (view c)

-- A slice stands for its elements, those of an array of the slice's length; a nil slice has none.
abbrev pub slice : {X A : Type 0} → (Cell X → Option (List A)) → Copier X (Option ℕ) (List A)
slice view = referring [] view

-- Two fields, copied one after the other.
abbrev pub both : {X R Q A B : Type 0} → Copier X R A → Copier X Q B → Copier X (R × Q) (A × B)
both c d = record {
  read = λ s r. option_pair (c.read s r.0) (d.read s r.1);
  copy = λ r. c.copy r.0 >>= λ x. d.copy r.1 >>= λ y. pure (x, y);
}

-- A struct with its fields that refer to memory: `get` takes them, `put` is the struct with theirs
-- replaced, and `build` is the value that it stands for.
abbrev pub of_fields :
    {X R S A B : Type 0} → Copier X R A → (S → R) → (S → R → S) → (S → A → B) → Copier X S B
of_fields c get put build = record {
  read = λ s r. option_map (build r) (c.read s (get r));
  copy = λ r. c.copy (get r) >>= λ x. pure (put r x);
}

-- The addresses from `low` up to `high` hold in `t` what they hold in `s`.
abbrev pub Kept : {X : Type 0} → ℕ → ℕ → Store X → Store X → Type 0
Kept low high s t = (high ≤ t.next) × ((n : ℕ) → low ≤ n → n < high → t.cell n ≡ s.cell n)

-- A copy is deep: it changes no address in use, it reads as its source did as long as the addresses that
-- it has taken are kept, and what a value stands for depends on addresses in use alone.
pub record IsDeep {X R A : Type 0} (c : Copier X R A) : Type 0 where
  pub stable :
      (s t : Store X) (r : R) (a : A)
      → c.read s r ≡ some a
      → Kept 0 s.next s t
      → c.read t r ≡ some a
  pub keeps : (s : Store X) (r : R) → Kept 0 s.next s (c.copy r s).1
  pub copied :
      (s t : Store X) (r : R) (a : A)
      → c.read s r ≡ some a
      → Kept s.next (c.copy r s).1.next (c.copy r s).1 t
      → c.read t (c.copy r s).0 ≡ some a
