-- ===== src/Util/Regexp.antt =====
-- Go's `regexp.MatchString` on the fragment that `util.Match` writes: `^`, literals, escaped
-- metacharacters, `.*` and `$`. Another expression is an error here.
use hawtio_operator.Base.{ℕ, Bool, true, false, not, ◌&&◌, ◌||◌, Option, none, some}
use hawtio_operator.Base.{List, [], ◌∷◌, nat_eq, if◌then◌else◌}
use mathlib.Core.Option

pub data Atom : Type 0 where
  lit : ℕ → Atom
  any_run : Atom

pub data Class : Type 0 where
  escape dot final operator literal : Class

-- The metacharacters of RE2 but `*`.
abbrev pub is_special : ℕ → Bool
is_special c =
    nat_eq c b'.'
    || nat_eq c b'+'
    || nat_eq c b'?'
    || nat_eq c b'{'
    || nat_eq c b'}'
    || nat_eq c b'('
    || nat_eq c b')'
    || nat_eq c b'['
    || nat_eq c b']'
    || nat_eq c b'|'
    || nat_eq c 92
    || nat_eq c b'^'
    || nat_eq c b'$'

abbrev pub is_meta : ℕ → Bool
is_meta c = nat_eq c b'*' || is_special c

abbrev pub classify : ℕ → Class
classify c =
    if nat_eq c 92
    then escape
    else if nat_eq c b'.'
    then dot
    else if nat_eq c b'$'
    then final
    else if is_meta c
    then operator
    else literal

pub data Mode : Type 0 where
  plain escaped dotted : Mode

abbrev add : Atom → Option (List Atom) → Option (List Atom)
add a = Option.map (λ l. a ∷ l)

abbrev end_of : List ℕ → Option (List Atom)
end_of [] = some []
end_of (_ ∷ _) = none

-- The atoms of an expression behind its `^`.
unfoldable pub compile : Mode → List ℕ → Option (List Atom)
compile mode [] = none
compile plain (c ∷ s) = elim (classify c) [
  | escape ↦ compile escaped s
  | dot ↦ compile dotted s
  | final ↦ end_of s
  | operator ↦ none
  | literal ↦ add (lit c) (compile plain s)
]
compile escaped (c ∷ s) = elim (is_meta c) [ true ↦ add (lit c) (compile plain s) | false ↦ none ]
compile dotted (c ∷ s) = elim (nat_eq c b'*') [
  | true ↦ add any_run (compile plain s)
  | false ↦ none
]

-- Whether the whole text matches. `.` is any character but a line feed.
unfoldable pub run : List Atom → List ℕ → Bool
run [] [] = true
run [] (_ ∷ _) = false
run (lit c ∷ l) [] = false
run (lit c ∷ l) (d ∷ s) = nat_eq c d && run l s
run (any_run ∷ l) [] = run l []
run (any_run ∷ l) (d ∷ s) = run l (d ∷ s) || (not (nat_eq d 10) && run (any_run ∷ l) s)

-- `none` is the error of an expression that is not in the fragment.
unfoldable pub match_string : List ℕ → List ℕ → Option Bool
match_string [] text = none
match_string (c ∷ expr) text =
    if nat_eq c b'^' then Option.map (λ l. run l text) (compile plain expr) else none
