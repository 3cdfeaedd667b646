-- ===== src/Util/Split/Laws.antt =====
-- What splitting and joining a text give back, and what trimming takes away.
use text.Mathlib.TextEquality.{Char-path}
use text.Mathlib.TextLemmas.{cons-append, nil-append}
use hawtio_operator.Base.{
  Char, code, String, ◌<>◌, Bool, true, false, not, ◌&&◌, ◌≡◌, ◌≢◌, refl, inl, inr, arith, List, [],
  ◌∷◌,
}
use hawtio_operator.Base.{nat_eq, All, Bool-cases}
use hawtio_operator.Util.Split.{
  onto_first, split, join, is_space, trim_left, trim_right, trim_space,
}

-- A test of every character.
abbrev pub every : (Char → Bool) → String → Bool
every p String.[] = true
every p (String.◌∷◌ c s) = p c && every p s

abbrev pub Lacks : Char → String → Type 0
Lacks sep s = every (λ c. not (nat_eq (code c) (code sep))) s ≡ true

join-cons :
    (sep : Char) (p : String) (ps : List String)
    → ps ≢ []
    → join sep (p ∷ ps) ≡ p <> String.◌∷◌ sep (join sep ps)
unfolding join
join-cons sep p [] h = absurd (h refl)
join-cons sep p (q ∷ ps) h = refl

onto_first-ne-nil : (c : Char) (ps : List String) → onto_first c ps ≢ []
onto_first-ne-nil c [] = λ e. cc
onto_first-ne-nil c (p ∷ ps) = λ e. cc

split-ne-nil : (sep : Char) (s : String) → split sep s ≢ []
unfolding split
split-ne-nil sep String.[] = λ e. cc
split-ne-nil sep (String.◌∷◌ c s) = ground (arith, onto_first-ne-nil c (split sep s))

join-onto_first :
    (sep c : Char) (ps : List String)
    → ps ≢ []
    → join sep (onto_first c ps) ≡ String.◌∷◌ c (join sep ps)
unfolding join
join-onto_first sep c [] h = absurd (h refl)
join-onto_first sep c (p ∷ []) h = refl
join-onto_first sep c (p ∷ q ∷ ps) h = cons-append c p _

is_sep : (c sep : Char) → nat_eq (code c) (code sep) ≡ true → c ≡ sep
is_sep c sep e = Char-path c sep (ground arith)

-- Joining the parts of a split gives the text back, for every text.
pub join-split : (sep : Char) (s : String) → join sep (split sep s) ≡ s
unfolding split join
join-split sep String.[] = refl
join-split sep (String.◌∷◌ c s) = elim (Bool-cases (nat_eq (code c) (code sep))) [
  | inl e ↦
      rw (e, join-cons sep "" _ (split-ne-nil sep s), nil-append, join-split sep s, is_sep c sep e)
        refl
  | inr e ↦ rw (e, join-onto_first sep c _ (split-ne-nil sep s), join-split sep s) refl
]

split-append_sep :
    (sep : Char) (p s : String) → Lacks sep p → split sep (p <> String.◌∷◌ sep s) ≡ p ∷ split sep s
unfolding split
split-append_sep sep String.[] s h = rw nil-append (ground arith)
split-append_sep sep (String.◌∷◌ c p) s h =
    ground (arith, split-append_sep sep p s, cons-append c p (String.◌∷◌ sep s))

split_of_Lacks : (sep : Char) (p : String) → Lacks sep p → split sep p ≡ p ∷ []
unfolding split
split_of_Lacks sep String.[] h = refl
split_of_Lacks sep (String.◌∷◌ c p) h = ground (arith, split_of_Lacks sep p)

-- Splitting a join gives the parts back, if there is a part and none holds the separator.
pub split-join :
    (sep : Char) (ps : List String) → ps ≢ [] → All (Lacks sep) ps → split sep (join sep ps) ≡ ps
unfolding join
split-join sep [] h _ = absurd (h refl)
split-join sep (p ∷ []) h (l, _) = split_of_Lacks sep p l
split-join sep (p ∷ q ∷ ps) h (l, ls) =
    rw (split-append_sep sep p _ l, split-join sep (q ∷ ps) (λ e. cc) ls) refl

abbrev pub IsBlank : String → Type 0
IsBlank s = every is_space s ≡ true

abbrev pub HasNoSpace : String → Type 0
HasNoSpace s = every (λ c. not (is_space c)) s ≡ true

trim_left-append : (pad s : String) → IsBlank pad → trim_left (pad <> s) ≡ trim_left s
unfolding trim_left
trim_left-append String.[] s h = rw nil-append refl
trim_left-append (String.◌∷◌ c pad) s h = rw cons-append (ground (arith, trim_left-append pad s))

trim_left_of_HasNoSpace :
    (s rest : String) → s ≢ "" → HasNoSpace s → trim_left (s <> rest) ≡ s <> rest
unfolding trim_left
trim_left_of_HasNoSpace String.[] rest h _ = absurd (h refl)
trim_left_of_HasNoSpace (String.◌∷◌ c s) rest h e = rw cons-append (ground arith)

both : (a b : Bool) → (a && b) ≡ true → (a ≡ true) × (b ≡ true)
both true b e = (refl, e)
both false b e = cc

trim_right_of_IsBlank : (pad : String) → IsBlank pad → trim_right pad ≡ ""
unfolding trim_right
trim_right_of_IsBlank String.[] h = refl
trim_right_of_IsBlank (String.◌∷◌ c pad) h =
    let (blank, rest) = both (is_space c) _ h in rw (blank, trim_right_of_IsBlank pad rest) refl

trim_right-append : (s pad : String) → HasNoSpace s → IsBlank pad → trim_right (s <> pad) ≡ s
unfolding trim_right
trim_right-append String.[] pad h b = rw nil-append (trim_right_of_IsBlank pad b)
trim_right-append (String.◌∷◌ c s) pad h b =
    rw cons-append (ground (arith, trim_right-append s pad))

-- White space on both sides of a text that has none is what trimming takes away.
pub trim_space-padded :
    (before name behind : String)
    → IsBlank before
    → name ≢ ""
    → HasNoSpace name
    → IsBlank behind
    → trim_space (before <> (name <> behind)) ≡ name
unfolding trim_space
trim_space-padded before name behind b h n e =
    rw (trim_left-append before _ b, trim_left_of_HasNoSpace name behind h n)
      (trim_right-append name behind n e)

every-append :
    (p : Char → Bool) (s t : String) → every p s ≡ true → every p t ≡ true → every p (s <> t) ≡ true
every-append p String.[] t h k = rw nil-append k
every-append p (String.◌∷◌ c s) t h k =
    let (first, rest) = both (p c) _ h in rw (cons-append, first, every-append p s t rest k) refl

pub Lacks-append : (sep : Char) (s t : String) → Lacks sep s → Lacks sep t → Lacks sep (s <> t)
Lacks-append sep s t h k = every-append _ s t h k

space_Lacks :
    (c sep : Char) → is_space c ≡ true → is_space sep ≡ false → nat_eq (code c) (code sep) ≡ false
space_Lacks c sep h k = elim (Bool-cases (nat_eq (code c) (code sep))) [
  | inl e ↦ cc (is_sep c sep e)
  | inr e ↦ e
]

-- White space does not hold a separator that is none.
pub IsBlank-Lacks : (sep : Char) (s : String) → is_space sep ≡ false → IsBlank s → Lacks sep s
IsBlank-Lacks sep String.[] h k = refl
IsBlank-Lacks sep (String.◌∷◌ c s) h k =
    let (first, rest) = both (is_space c) _ k in
    rw (space_Lacks c sep first h, IsBlank-Lacks sep s h rest) refl
