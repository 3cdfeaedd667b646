-- ===== src/Base/Succeeds.antt =====
-- Actions that end without an error, from every world.
use mathlib.Core.Path.{◌≡◌, refl}
use mathlib.Core.Bool.{Bool, false}
use hawtio_operator.Base.Tests.{if◌then◌else◌}
use hawtio_operator.Base.Errors.{Result, ok}
use hawtio_operator.Base.Act.{Act, pure, ◌>>=◌}

abbrev pub SucceedsIn : {W A : Type 0} → (A → Type 0) → Act W A → W → Type 0
SucceedsIn {W} {A} P m w = (a : A) × (v : W) × (m w ≡ (ok a, v)) × P a

-- The action returns a value with the property.
abbrev pub Returns : {W A : Type 0} → (A → Type 0) → Act W A → Type 0
Returns {W} {A} P m = (w : W) → SucceedsIn P m w

abbrev pub Succeeds : {W A : Type 0} → Act W A → Type 0
Succeeds m = Returns (λ a. Unit {0}) m

module _ {W A B : Type 0} where
  pub Returns-bind :
      (P : A → Type 0) (Q : B → Type 0) (m : Act W A) (f : A → Act W B)
      → Returns P m
      → ((a : A) → P a → Returns Q (f a))
      → Returns Q (m >>= f)
  Returns-bind P Q m f h k w =
      let (a, v, e, p) = h w in let (b, u, e', q) = k a p v in (b, u, rw e e', q)

  pub Succeeds-bind :
      (m : Act W A) (f : A → Act W B) → Succeeds m → ((a : A) → Succeeds (f a)) → Succeeds (m >>= f)
  Succeeds-bind m f h k = Returns-bind (λ a. Unit) (λ b. Unit) m f h (λ a p. k a)

pub Succeeds-pure : {W A : Type 0} (a : A) → Succeeds (pure {W = W} a)
Succeeds-pure a w = (a, w, refl, tt)

-- A pure result that is no error
abbrev pub IsOk : {A : Type 0} → Result A → Type 0
IsOk {A} r = (a : A) × (r ≡ ok a)

pub SucceedsIn-else :
    {W A : Type 0} (P : A → Type 0) (b : Bool) (m n : Act W A) (w : W)
    → b ≡ false
    → SucceedsIn P n w
    → SucceedsIn P (if b then m else n) w
SucceedsIn-else P b m n w e h = rw e h

pub Succeeds-else :
    {W A : Type 0} (b : Bool) (m n : Act W A)
    → b ≡ false
    → Succeeds n
    → Succeeds (if b then m else n)
Succeeds-else b m n e h w = SucceedsIn-else (λ a. Unit) b m n w e (h w)
