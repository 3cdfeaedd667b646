-- ===== src/Util/Pattern/Glob.antt =====
-- `Match` decides the shell-like relation that its comment promises: `*` stands for any run of
-- characters on one line, and every other character for itself.
use hawtio_operator.Base.{ℕ, String, ◌≡◌, ◌≢◌, ◌↔◌, refl, true, some, inl, inr}
use hawtio_operator.Base.{List, [], ◌∷◌, ◌++◌, arith, codes, nat_eq, if◌then◌else◌, Any, Bool-cases}
use hawtio_operator.Util.Regexp.{Atom, lit, any_run, plain, compile, run}
use hawtio_operator.Util.Pattern.{piece, regexp_of, match_pattern, match_patterns}

pub data Matches : List ℕ → List ℕ → Type 0 where
  done : Matches [] []
  same : (c : ℕ) {p s : List ℕ} → c ≢ b'*' → Matches p s → Matches (c ∷ p) (c ∷ s)
  skip : (c : ℕ) {p s : List ℕ} → c ≡ b'*' → Matches p s → Matches (c ∷ p) s
  take : (c d : ℕ) {p s : List ℕ} → c ≡ b'*' → d ≢ 10 → Matches (c ∷ p) s → Matches (c ∷ p) (d ∷ s)

abbrev atom : ℕ → Atom
atom c = if nat_eq c b'*' then any_run else lit c

abbrev atoms : List ℕ → List Atom
atoms [] = []
atoms (c ∷ p) = atom c ∷ atoms p

compile-piece :
    (c : ℕ) (r : List ℕ) {l : List Atom}
    → compile plain r ≡ some l
    → compile plain (piece c ++ r) ≡ some (atom c ∷ l)
unfolding compile piece
compile-piece c r h = ground arith

compile-regexp_of : (p : List ℕ) → compile plain (regexp_of p) ≡ some (atoms p)
unfolding regexp_of
compile-regexp_of [] = unfold compile in refl
compile-regexp_of (c ∷ p) = compile-piece c (regexp_of p) (compile-regexp_of p)

skip_run : (c : ℕ) (p s : List ℕ) → c ≡ b'*' → run (atoms p) s ≡ true → run (atoms (c ∷ p)) s ≡ true
unfolding run
skip_run c p [] h m = ground arith
skip_run c p (d ∷ s) h m = ground arith

run-Matches : (p s : List ℕ) → run (atoms p) s ≡ true → Matches p s
unfolding run
run-Matches [] [] h = Matches.done
run-Matches [] (d ∷ s) h = cc
run-Matches (c ∷ p) [] h = elim (Bool-cases (nat_eq c b'*')) [
  | inl star ↦ skip c (ground arith) (run-Matches p [] (ground arith))
  | inr other ↦ absurd (ground arith)
]
run-Matches (c ∷ p) (d ∷ s) h = elim (Bool-cases (nat_eq c b'*')) [
  | inl star ↦ elim (Bool-cases (run (atoms p) (d ∷ s))) [
    | inl now ↦ skip c (ground arith) (run-Matches p (d ∷ s) now)
    | inr later ↦ take c d (ground arith) (ground arith) (run-Matches (c ∷ p) s (ground arith))
  ]
  | inr other ↦
      let e : c ≡ d = ground arith in
      rw (← e) (same c (ground arith) (run-Matches p s (ground arith)))
]

Matches-run : {p s : List ℕ} → Matches p s → run (atoms p) s ≡ true
unfolding run
Matches-run Matches.done = refl
Matches-run (same c h m) = ground (arith, Matches-run m)
Matches-run (skip c {p} {s} h m) = skip_run c p s h (Matches-run m)
Matches-run (take c d h k m) = ground (arith, Matches-run m)

-- `Match` holds exactly of the texts that the pattern stands for.
pub match_pattern_iff :
    (pattern str : String)
    → (match_pattern pattern str ≡ true) ↔ Matches (codes pattern) (codes str)
unfolding match_pattern
match_pattern_iff pattern str =
    simp (compile-regexp_of (codes pattern)) (run-Matches (codes pattern) (codes str), Matches-run)

-- `MatchPatterns` holds exactly where one of the patterns stands for the text.
pub match_patterns_iff :
    (patterns : List String) (target : String)
    → (match_patterns patterns target ≡ true) ↔ Any (λ p. Matches (codes p) (codes target)) patterns
unfolding match_patterns
match_patterns_iff [] target = (λ h. cc, λ h. absurd h)
match_patterns_iff (p ∷ ps) target =
    let (sound, complete) = match_pattern_iff p target in
    let (rest_sound, rest_complete) = match_patterns_iff ps target in
    (
      λ h. elim (Bool-cases (match_pattern p target)) [
        | inl here ↦ inl (sound here)
        | inr there ↦ inr (rest_sound (ground arith))
      ],
      λ a. elim a [ inl m ↦ rw (complete m) | inr r ↦ ground (arith, rest_complete r) ],
    )
