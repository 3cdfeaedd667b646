-- ===== src/Base/Act.antt =====
-- Effects: an action meets the outside world `W` (the cluster, the clock, other writers) and returns
-- a result with the world that it leaves, also when it fails.
use mathlib.Core.Path.{◌≡◌, refl, ap}
use Prim.Native.String.{String}
use hawtio_operator.Base.Errors.{Error, Result, ok, err, formatted, ok-injective}

abbrev pub Act : Type 0 → Type 0 → Type 0
Act W A = W → Result A × W

module _ {W A : Type 0} where
  abbrev pub pure : A → Act W A
  pure a w = (ok a, w)

  abbrev pub raise : Error → Act W A
  raise e w = (err e, w)

  abbrev pub lift : Result A → Act W A
  lift r w = (r, w)

abbrev pub answered : {A B : Type 0} → String → Result A → B → Result B
answered text (ok a) b = ok b
answered text (err e) b = err (formatted text e)

module _ {W A B : Type 0} where
  abbrev pub after : Result A × W → (A → Act W B) → Result B × W
  after (ok a, w) f = f a w
  after (err e, w) f = (err e, w)

  -- The error is a value too: `a, err := m; ...`
  abbrev pub caught : Result A × W → (Result A → Act W B) → Result B × W
  caught (r, w) f = f r w

  infixl 5 ◌>>=◌ ◌>>◌
  abbrev pub ◌>>=◌ : Act W A → (A → Act W B) → Act W B
  ◌>>=◌ m f w = after (m w) f

  abbrev pub ◌>>◌ : Act W A → Act W B → Act W B
  m >> k = m >>= λ _. k

  abbrev pub catch : Act W A → (Result A → Act W B) → Act W B
  catch m f w = caught (m w) f

  after-eq-ok :
      (r : Result A × W) (f : A → Act W B) {b : B} {w : W}
      → after r f ≡ (ok b, w)
      → (a : A) × (v : W) × (r ≡ (ok a, v)) × (f a v ≡ (ok b, w))
  after-eq-ok (ok a, v) f h = (a, v, refl, h)
  after-eq-ok (err e, v) f h = cc

  pub >>=-eq-ok :
      (m : Act W A) (f : A → Act W B) (w : W) {b : B} {v : W}
      → (m >>= f) w ≡ (ok b, v)
      → (a : A) × (u : W) × (m w ≡ (ok a, u)) × (f a u ≡ (ok b, v))
  >>=-eq-ok m f w h = after-eq-ok (m w) f h

  -- What follows an action matters only at the values and the worlds that it yields.
  pub after-cong :
      (r : Result A × W) (f g : A → Act W B)
      → ((a : A) (v : W) → r ≡ (ok a, v) → f a v ≡ g a v)
      → after r f ≡ after r g
  after-cong (ok a, v) f g h = h a v refl
  after-cong (err e, v) f g h = refl

  -- `if err := m; err != nil { return fmt.Errorf(text + ": %v", err) }; return b`
  abbrev pub or_fail : String → Act W A → B → Act W B
  or_fail text m b = catch m λ r. lift (answered text r b)

-- What holds of every value that an action yields.
abbrev pub Yields : {W A : Type 0} → (A → Type 0) → Act W A → Type 0
Yields {W} {A} P m = (w v : W) (a : A) → m w ≡ (ok a, v) → P a

module _ {W A B : Type 0} where
  pub Yields-bind :
      (Q : A → Type 0) (P : B → Type 0) (m : Act W A) (f : A → Act W B)
      → Yields Q m
      → ((a : A) → Q a → Yields P (f a))
      → Yields P (m >>= f)
  Yields-bind Q P m f h k w v b e =
      let (a, u, e1, e2) = >>=-eq-ok m f w e in k a (h w u a e1) u v b e2

  pub Yields-after :
      (P : B → Type 0) (m : Act W A) (f : A → Act W B)
      → ((a : A) → Yields P (f a))
      → Yields P (m >>= f)
  Yields-after P m f k w v b e = let (a, u, _, e2) = >>=-eq-ok m f w e in k a u v b e2

pub Yields-pure : {W A : Type 0} (P : A → Type 0) (a : A) → P a → Yields P (pure {W = W} a)
Yields-pure P a h w v b e = rw (ok-injective (ap (λ x. x.0) e)) at h
