-- ===== src/Util/Text.antt =====
-- Go's standard library on texts and paths, as far as the operator uses it: `strings.ToLower` and
-- `strings.EqualFold` on the ASCII letters, `path.Join` with its `Clean`.
use hawtio_operator.Base.{
  ◌+◌, Char, String, ◌<>◌, Bool, true, false, ◌&&◌, ◌||◌, none, some, List, [], ◌∷◌,
}
use hawtio_operator.Base.{◌==◌, starts_with, if◌then◌else◌}
use hawtio_operator.Util.Split.{split, join}
use Prim.Native.String.{slice}
use text.Mathlib.Text.{find?}
use mathlib.Core.List.{reverse}

abbrev lower_char : Char → String
lower_char c = elim (find? "ABCDEFGHIJKLMNOPQRSTUVWXYZ" (String.◌∷◌ c String.[])) [
  | none ↦ String.◌∷◌ c String.[]
  | some i ↦ slice "abcdefghijklmnopqrstuvwxyz" i (i + 1)
]

unfoldable pub to_lower : String → String
to_lower String.[] = ""
to_lower (String.◌∷◌ c s) = lower_char c <> to_lower s

unfoldable pub equal_fold : String → String → Bool
unfolding to_lower
equal_fold s t = to_lower s == to_lower t

-- One part against the parts before it, the last first.
abbrev clean_part : Bool → List String → String → List String
clean_part rooted [] part =
    if part == "" || part == "." || rooted && part == ".." then [] else part ∷ []
clean_part rooted (top ∷ stack) part =
    if part == "" || part == "."
    then top ∷ stack
    else if part == ".."
    then (if top == ".." then part ∷ top ∷ stack else stack)
    else part ∷ top ∷ stack

clean_from : Bool → List String → List String → List String
clean_from rooted stack [] = reverse stack
clean_from rooted stack (part ∷ parts) = clean_from rooted (clean_part rooted stack part) parts

abbrev or_dot : String → String
or_dot s = if s == "" then "." else s

unfoldable pub clean : String → String
unfolding split clean_from join
clean path =
    if starts_with path "/"
    then "/" <> join "/" (clean_from true [] (split "/" path))
    else or_dot (join "/" (clean_from false [] (split "/" path)))

non_empty : List String → List String
non_empty [] = []
non_empty (p ∷ ps) = let rest = non_empty ps in if p == "" then rest else p ∷ rest

unfoldable pub path_join : List String → String
unfolding non_empty clean join
path_join elems = elim (non_empty elems) [ [] ↦ "" | p ∷ ps ↦ clean (join "/" (p ∷ ps)) ]
