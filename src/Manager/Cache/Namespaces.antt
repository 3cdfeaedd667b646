-- ===== src/Manager/Cache/Namespaces.antt =====
-- pkg/manager/manager.go: the namespaces that a text names.
use hawtio_operator.Base.{
  String, ◌<>◌, Bool, true, false, not, ◌&&◌, ◌||◌, ◌≡◌, ◌≢◌, inl, inr, refl, ◌∙◌, ap, Option, none,
  some, List, [], ◌∷◌, map, arith, eq_iff,
}
use hawtio_operator.Base.{◌==◌, has, All, Bool-cases}
use hawtio_operator.Base.Dict.{Dict, has_key, insert, lookup, lookup-insert}
use hawtio_operator.Util.Split.{split, join, trim_space, is_space}
use hawtio_operator.Util.Split.Laws.{
  Lacks, Lacks-append, HasNoSpace, IsBlank, IsBlank-Lacks, split-join, trim_space-padded,
}
use hawtio_operator.Manager.Cache.{CacheConfig, add_namespaces, watched_namespaces}

-- Whether the cache holds the objects of a namespace.
abbrev pub is_watched : String → Option (Dict CacheConfig) → Bool
is_watched ns none = true
is_watched ns (some namespaces) = has_key ns namespaces

has_key-insert :
    (key asked : String) (d : Dict CacheConfig)
    → has_key asked (insert key tt d) ≡ (key == asked || has_key asked d)
has_key-insert key asked d = ground (arith, lookup-insert key asked tt d)

has_key-add_namespaces :
    (asked : String) (pieces : List String) (d : Dict CacheConfig)
    → has_key asked (add_namespaces pieces d)
      ≡ (has_key asked d || not (asked == "") && has (map trim_space pieces) asked)
unfolding add_namespaces
has_key-add_namespaces asked [] d = ground arith
has_key-add_namespaces asked (piece ∷ pieces) d =
    let clean = trim_space piece in
    elim (Bool-cases (clean == "")) [
      | inl e ↦ rw e (
          ground (
            arith,
            has_key-add_namespaces asked pieces d,
            eq_iff clean "",
            eq_iff clean asked,
            eq_iff asked "",
          ))
      | inr e ↦ rw e (
          ground (
            arith,
            has_key-add_namespaces asked pieces (insert clean tt d),
            lookup-insert clean asked tt d,
            eq_iff clean "",
            eq_iff clean asked,
            eq_iff asked "",
          ))
    ]

-- The cache holds a namespace's objects if no namespaces are given at all, or if the name is one of the pieces between
-- the commas, without the white space around it, and is not empty.
pub watched_namespaces_lem :
    (text asked : String)
    → is_watched asked (watched_namespaces text)
      ≡ (text == "" || not (asked == "") && has (map trim_space (split "," text)) asked)
unfolding watched_namespaces lookup
watched_namespaces_lem text asked = elim (Bool-cases (text == "")) [
  | inl e ↦ rw e refl
  | inr e ↦ rw e (has_key-add_namespaces asked (split "," text) [])
]

-- A name of a namespace with the white space before and behind it.
pub record Entry : Type 0 where
  pub before : String
  pub name : String
  pub behind : String

abbrev pub print : Entry → String
print e = e.before <> (e.name <> e.behind)

-- Namespaces have names without white space and commas.
abbrev pub IsEntry : Entry → Type 0
IsEntry e =
    IsBlank e.before × (e.name ≢ "") × HasNoSpace e.name × Lacks "," e.name × IsBlank e.behind

comma_no_space : is_space "," ≡ false
unfolding is_space
comma_no_space = refl

print-Lacks : (e : Entry) → IsEntry e → Lacks "," (print e)
print-Lacks e (b, _, _, l, a) =
    Lacks-append "," e.before _ (IsBlank-Lacks "," e.before comma_no_space b)
      (Lacks-append "," e.name _ l (IsBlank-Lacks "," e.behind comma_no_space a))

entries-Lack : (es : List Entry) → All IsEntry es → All (Lacks ",") (map print es)
entries-Lack [] h = tt
entries-Lack (e ∷ es) (first, h) = (print-Lacks e first, entries-Lack es h)

abbrev pub names : List Entry → List String
names = map (λ e. e.name)

trim-print : (e : Entry) → IsEntry e → trim_space (print e) ≡ e.name
trim-print e (b, n, s, _, a) = trim_space-padded e.before e.name e.behind b n s a

trim_entries : (es : List Entry) → All IsEntry es → map trim_space (map print es) ≡ names es
trim_entries [] h = refl
trim_entries (e ∷ es) (first, h) = rw (trim-print e first, trim_entries es h) refl

not_empty_name :
    (es : List Entry) (asked : String)
    → All IsEntry es
    → (not (asked == "") && has (names es) asked) ≡ has (names es) asked
not_empty_name [] asked h = ground arith
not_empty_name (e ∷ es) asked ((_, n, _, _, _), h) =
    ground (arith, not_empty_name es asked h, eq_iff e.name asked, eq_iff asked "")

ne_false : (s : String) → s ≢ "" → (s == "") ≡ false
ne_false s h = ground (arith, eq_iff s "")

text_ne_nil :
    (e : Entry) (es : List Entry) → All IsEntry (e ∷ es) → join "," (map print (e ∷ es)) ≢ ""
unfolding split trim_space
text_ne_nil e es h empty =
    let parts = split-join "," (map print (e ∷ es)) (λ k. cc) (entries-Lack (e ∷ es) h) in
    let nothing : "" ≡ print e = cc (ap (split ",") empty, parts) in h.0.1 (cc (trim-print e h.0))

-- Namespaces that are printed with commas between them and any white space around them are read back: the cache
-- holds exactly their objects.
pub watched_namespaces-join :
    (e : Entry) (es : List Entry) (asked : String)
    → All IsEntry (e ∷ es)
    → is_watched asked (watched_namespaces (join "," (map print (e ∷ es))))
      ≡ has (names (e ∷ es)) asked
watched_namespaces-join e es asked h =
    rw
      (
        watched_namespaces_lem,
        split-join "," (map print (e ∷ es)) (λ k. cc) (entries-Lack (e ∷ es) h),
        ne_false _ (text_ne_nil e es h),
      )
      (ap (λ l. not (asked == "") && has l asked) (trim_entries (e ∷ es) h)
        ∙ not_empty_name (e ∷ es) asked h)
