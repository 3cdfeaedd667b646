-- ===== src/Base/Errors.antt =====
-- Go's `error` values as the operator tells them apart, and results that may carry one.
use Prim.Native.Nat.{ℕ}
use Prim.Native.String.{String}
use mathlib.Core.Path.{◌≡◌, refl}
use mathlib.Core.Bool.{Bool, true, false}
use mathlib.Core.Option.{Option, none, some}

-- The reasons of an API status error that the operator asks for.
pub data Reason : Type 0 where
  not_found already_exists forbidden no_match other : Reason

-- `wrapped` keeps its cause in sight (`%w`, `errs.Wrap`); `formatted` prints it (`%v`).
pub data Error : Type 0 where
  status : Reason → Error
  message : String → Error
  legacy_adopted : Error
  requeue : String → ℕ → Error
  wrapped : String → Error → Error
  formatted : String → Error → Error

abbrev pub reason : Error → Option Reason
reason (status r) = some r
reason (wrapped s e) = reason e
reason _ = none

-- `kerrors.IsNotFound`, `IsAlreadyExists`, `IsForbidden` and `meta.IsNoMatchError`
abbrev pub is_not_found : Error → Bool
is_not_found e = elim (reason e) [ some Reason.not_found ↦ true | _ ↦ false ]

abbrev pub is_already_exists : Error → Bool
is_already_exists e = elim (reason e) [ some Reason.already_exists ↦ true | _ ↦ false ]

abbrev pub is_forbidden : Error → Bool
is_forbidden e = elim (reason e) [ some Reason.forbidden ↦ true | _ ↦ false ]

abbrev pub is_no_match : Error → Bool
is_no_match e = elim (reason e) [ some Reason.no_match ↦ true | _ ↦ false ]

-- What a Go function returns as `(A, error)`: the value where the error is nil, and else the error.
pub data Result {ℓ} (A : Type ℓ) : Type ℓ where
  err : Error → Result A
  ok : A → Result A

module _ {ℓ κ} {A : Type ℓ} {B : Type κ} where
  infixl 5 ◌>>=◌ ◌>>◌
  abbrev pub ◌>>=◌ : Result A → (A → Result B) → Result B
  ◌>>=◌ (err failure) next = err failure
  ◌>>=◌ (ok value) next = next value

  abbrev pub ◌>>◌ : Result A → Result B → Result B
  ◌>>◌ first second = first >>= λ _. second

  -- A chain that ends without an error has taken its first step without one.
  pub >>=-eq-ok :
      (step : Result A) (next : A → Result B) {end : B}
      → (step >>= next) ≡ ok end
      → (value : A) × (step ≡ ok value) × (next value ≡ ok end)
  >>=-eq-ok (err failure) next stops = cc
  >>=-eq-ok (ok value) next ends = (value, refl, ends)

-- `if err != nil { return errs.Wrap(err, text) }`
abbrev pub wrap {ℓ} : {A : Type ℓ} → String → Result A → Result A
wrap text (ok a) = ok a
wrap text (err e) = err (wrapped text e)

-- `if err != nil { return fmt.Errorf(text + ": %v", err) }`
abbrev pub format {ℓ} : {A : Type ℓ} → String → Result A → Result A
format text (ok a) = ok a
format text (err e) = err (formatted text e)

-- `if !b { return errors.New(text) }`
abbrev pub guard : Bool → String → Result (Unit {0})
guard true text = ok tt
guard false text = err (message text)

-- A postcondition of the results that carry no error.
abbrev pub Ensures {ℓ κ} : {A : Type ℓ} → (A → Type κ) → Result A → Type κ
Ensures P (ok a) = P a
Ensures P (err e) = Unit

pub Ensures-bind {ℓ κ μ} :
    {A : Type ℓ} {B : Type κ} (P : B → Type μ) (m : Result A) (f : A → Result B)
    → ((a : A) → Ensures P (f a))
    → Ensures P (m >>= f)
Ensures-bind P (ok a) f h = h a
Ensures-bind P (err e) f h = tt

pub Ensures-elim {ℓ κ} :
    {A : Type ℓ} (P : A → Type κ) {r : Result A} {a : A} → Ensures P r → r ≡ ok a → P a
Ensures-elim P h e = rw e at h

pub Ensures-intro {ℓ κ} :
    {A : Type ℓ} (P : A → Type κ) (r : Result A) → ((a : A) → r ≡ ok a → P a) → Ensures P r
Ensures-intro P (ok a) h = h a refl
Ensures-intro P (err e) h = tt

-- Two steps and a result: what an outcome without an error says of them.
pub two_steps-eq-ok {ℓ κ μ} :
    {A : Type ℓ} {B : Type κ} {C : Type μ} (m : Result A) (n : Result B) (f : A → B → C) {c : C}
    → (m >>= λ a. n >>= λ b. ok (f a b)) ≡ ok c
    → (a : A) × (b : B) × (m ≡ ok a) × (n ≡ ok b) × (f a b ≡ c)
two_steps-eq-ok (ok a) (ok b) f h = (a, b, refl, refl, cc)
two_steps-eq-ok (ok a) (err e) f h = cc
two_steps-eq-ok (err e) n f h = cc

pub ok-injective {ℓ} : {A : Type ℓ} {a b : A} → ◌≡◌ {A = Result A} (ok a) (ok b) → a ≡ b
ok-injective h = cc
