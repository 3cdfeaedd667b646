-- ===== src/Util/Pattern.antt =====
-- pkg/util/util.go: `Match`, `MatchPatterns` and `Contains`.
pub mod Glob
use hawtio_operator.Base.{ℕ, String, Bool, true, false, Option, none, some, List, [], ◌∷◌, ◌++◌}
use hawtio_operator.Base.{codes, nat_eq, ◌==◌, ◌||◌, if◌then◌else◌}
use hawtio_operator.Util.Regexp.{is_special, match_string, compile, run}

-- What the loop of `Match` writes for one character.
piece : ℕ → List ℕ
piece c = if nat_eq c b'*' then b'.' ∷ b'*' ∷ [] else if is_special c then 92 ∷ c ∷ [] else c ∷ []

regexp_of : List ℕ → List ℕ
regexp_of [] = b'$' ∷ []
regexp_of (c ∷ pattern) = piece c ++ regexp_of pattern

abbrev or_false : Option Bool → Bool
or_false none = false
or_false (some b) = b

-- `Match`
unfoldable pub match_pattern : String → String → Bool
unfolding piece regexp_of match_string compile run
match_pattern pattern str = or_false (match_string (b'^' ∷ regexp_of (codes pattern)) (codes str))

-- `MatchPatterns`
unfoldable pub match_patterns : List String → String → Bool
match_patterns [] target = false
match_patterns (p ∷ patterns) target = match_pattern p target || match_patterns patterns target

-- `Contains`
unfoldable pub contains : List String → String → Bool
contains [] item = false
contains (s ∷ strs) item = s == item || contains strs item
