-- ===== src/Resources/Oauth/Laws.antt =====
-- The redirect URIs that an OAuth client keeps, loses and gains.
use hawtio_operator.Base.{
  ℕ, zero, suc, String, ◌≡◌, ◌≢◌, refl, ap, ◌∙◌, Bool, true, false, none, some, List, [], ◌∷◌, ◌++◌,
  has, ◌||◌, not, ◌&&◌,
}
use hawtio_operator.Base.{
  arith, eq_iff, eq_refl, ◌==◌, if◌then◌else◌, take, drop, Option-cases, inl, inr,
}
use hawtio_operator.Kube.{OauthClient}
use hawtio_operator.Resources.Oauth.{
  index_of, uris_of, remove_redirect_uri, drop_stale, add_current, refresh_redirect_uris,
}

-- No text stands twice in the list.
abbrev pub NoRepeats : List String → Type 0
NoRepeats [] = Unit
NoRepeats (x ∷ l) = (has l x ≡ false) × NoRepeats l

-- The list without the first entry that is the given one.
abbrev without : String → List String → List String
without uri [] = []
without uri (u ∷ l) = if u == uri then l else u ∷ without uri l

index_of-without :
    (uri : String) (l : List String) (i : ℕ)
    → index_of uri l ≡ some i
    → take i l ++ drop (suc i) l ≡ without uri l
unfolding index_of
index_of-without uri [] i h = cc
index_of-without uri (u ∷ l) zero h = ground arith
index_of-without uri (u ∷ l) (suc i) h = ground (arith, index_of-without uri l i)

index_of-none : (uri : String) (l : List String) → index_of uri l ≡ none → has l uri ≡ false
unfolding index_of
index_of-none uri [] h = refl
index_of-none uri (u ∷ l) h = ground (arith, index_of-none uri l)

index_of-some :
    (uri : String) (l : List String) (i : ℕ) → index_of uri l ≡ some i → has l uri ≡ true
unfolding index_of
index_of-some uri [] i h = cc
index_of-some uri (u ∷ l) zero h = ground arith
index_of-some uri (u ∷ l) (suc i) h = ground (arith, index_of-some uri l i)

has-without_ne : (uri x : String) (l : List String) → x ≢ uri → has (without uri l) x ≡ has l x
has-without_ne uri x [] n = refl
has-without_ne uri x (u ∷ l) n = ground (arith, has-without_ne uri x l n, eq_iff u uri, eq_iff u x)

has-without_self : (uri : String) (l : List String) → NoRepeats l → has (without uri l) uri ≡ false
has-without_self uri [] _ = refl
has-without_self uri (u ∷ l) (fresh, h) = ground (arith, has-without_self uri l h, eq_iff u uri)

without-NoRepeats : (uri : String) (l : List String) → NoRepeats l → NoRepeats (without uri l)
without-NoRepeats uri [] _ = tt
without-NoRepeats uri (u ∷ l) (fresh, h) =
    ground (arith, without-NoRepeats uri l h, has-without_ne uri u l, eq_iff u uri)

has-append : (l : List String) (u x : String) → has (l ++ u ∷ []) x ≡ (has l x || u == x)
has-append [] u x = ground arith
has-append (y ∷ l) u x = ground (arith, has-append l u x)

append-NoRepeats :
    (l : List String) (u : String) → NoRepeats l → has l u ≡ false → NoRepeats (l ++ u ∷ [])
append-NoRepeats [] u _ _ = (refl, tt)
append-NoRepeats (y ∷ l) u (fresh, h) n =
    ground (arith, append-NoRepeats l u h, has-append l u y, eq_iff u y, eq_iff y u)

without_absent : (uri : String) (l : List String) → has l uri ≡ false → without uri l ≡ l
without_absent uri [] _ = refl
without_absent uri (u ∷ l) h = ground (arith, without_absent uri l)

-- The list that a refresh leaves, from the list before it.
abbrev kept : String → String → List String → List String
kept old new l = if not (old == "") && not (old == new) then without old l else l

abbrev refreshed : String → List String → List String
refreshed new l = if has l new || new == "" then l else l ++ new ∷ []

uris-remove_redirect_uri :
    (oc : OauthClient) (uri : String)
    → uris_of (remove_redirect_uri oc uri).0.redirect_uris ≡ without uri (uris_of oc.redirect_uris)
unfolding remove_redirect_uri
uris-remove_redirect_uri oc uri = elim (Option-cases (index_of uri (uris_of oc.redirect_uris))) [
  | inl e ↦ ground (arith, without_absent uri (uris_of oc.redirect_uris) (index_of-none uri _ e))
  | inr (i, e) ↦ ground (arith, index_of-without uri (uris_of oc.redirect_uris) i e)
]

uris-drop_stale :
    (old new : String) (oc : OauthClient)
    → uris_of (drop_stale old new oc).0.redirect_uris ≡ kept old new (uris_of oc.redirect_uris)
unfolding drop_stale
uris-drop_stale old new oc = ground (arith, uris-remove_redirect_uri oc old)

uris-add_current :
    (new : String) (oc : OauthClient) (b : Bool)
    → uris_of (add_current new (oc, b)).0.redirect_uris ≡ refreshed new (uris_of oc.redirect_uris)
unfolding add_current
uris-add_current new oc b = elim (Option-cases (index_of new (uris_of oc.redirect_uris))) [
  | inl e ↦ ground (arith, index_of-none new (uris_of oc.redirect_uris) e)
  | inr (i, e) ↦ ground (arith, index_of-some new (uris_of oc.redirect_uris) i e)
]

uris-refresh :
    (old new : String) (oc : OauthClient)
    → uris_of (refresh_redirect_uris old new oc).0.redirect_uris
      ≡ refreshed new (kept old new (uris_of oc.redirect_uris))
unfolding refresh_redirect_uris
uris-refresh old new oc =
    uris-add_current new (drop_stale old new oc).0 (drop_stale old new oc).1
    ∙ ap (refreshed new) (uris-drop_stale old new oc)

pub record IsRefreshed (old new : String) (before later : List String) : Type 0 where
  pub current : new ≢ "" → has later new ≡ true
  pub stale : old ≢ "" → old ≢ new → has later old ≡ false
  pub others : (x : String) → x ≢ old → x ≢ new → has later x ≡ has before x
  pub distinct : NoRepeats later

kept_stale :
    (old new : String) (l : List String)
    → NoRepeats l
    → old ≢ ""
    → old ≢ new
    → has (kept old new l) old ≡ false
kept_stale old new l h a b = ground (arith, has-without_self old l h, eq_iff old "", eq_iff old new)

kept_others : (old new x : String) (l : List String) → x ≢ old → has (kept old new l) x ≡ has l x
kept_others old new x l n = ground (arith, has-without_ne old x l n)

kept-NoRepeats : (old new : String) (l : List String) → NoRepeats l → NoRepeats (kept old new l)
kept-NoRepeats old new l h = ground (arith, without-NoRepeats old l h)

refreshed_current : (new : String) (l : List String) → new ≢ "" → has (refreshed new l) new ≡ true
refreshed_current new l n = ground (arith, has-append l new new, eq_iff new "", eq_refl new)

refreshed_others : (new x : String) (l : List String) → x ≢ new → has (refreshed new l) x ≡ has l x
refreshed_others new x l n = ground (arith, has-append l new x, eq_iff new x)

refreshed-NoRepeats : (new : String) (l : List String) → NoRepeats l → NoRepeats (refreshed new l)
refreshed-NoRepeats new l h = ground (arith, append-NoRepeats l new h)

refreshed-IsRefreshed :
    (old new : String) (l : List String)
    → NoRepeats l
    → IsRefreshed old new l (refreshed new (kept old new l))
refreshed-IsRefreshed old new l h = record {
  current = refreshed_current new _;
  stale = λ a b. refreshed_others new old _ b ∙ kept_stale old new l h a b;
  others = λ x a b. refreshed_others new x _ b ∙ kept_others old new x l a;
  distinct = refreshed-NoRepeats new _ (kept-NoRepeats old new l h);
}

-- From a list with no repeats: the current URL is in the list, the stale one is not, every other
-- URI is kept, and no URI is there twice.
pub refresh_redirect_uris-IsRefreshed :
    (old new : String) (oc : OauthClient)
    → NoRepeats (uris_of oc.redirect_uris)
    → IsRefreshed old new
        (uris_of oc.redirect_uris)
        (uris_of (refresh_redirect_uris old new oc).0.redirect_uris)
refresh_redirect_uris-IsRefreshed old new oc h =
    rw uris-refresh (refreshed-IsRefreshed old new (uris_of oc.redirect_uris) h)

index_of-absent : (uri : String) (l : List String) → has l uri ≡ false → index_of uri l ≡ none
unfolding index_of
index_of-absent uri [] h = refl
index_of-absent uri (u ∷ l) h = ground (arith, index_of-absent uri l)

drop_stale_absent :
    (old new : String) (oc : OauthClient)
    → (old ≢ "" → old ≢ new → has (uris_of oc.redirect_uris) old ≡ false)
    → drop_stale old new oc ≡ (oc, false)
unfolding drop_stale
drop_stale_absent old new oc stale =
    ground
      (arith, stale, index_of-absent old (uris_of oc.redirect_uris), eq_iff old "", eq_iff old new)

add_current_present :
    (new : String) (oc : OauthClient)
    → (new ≢ "" → has (uris_of oc.redirect_uris) new ≡ true)
    → add_current new (oc, false) ≡ (oc, false)
unfolding add_current
add_current_present new oc current =
    ground (arith, current, index_of-none new (uris_of oc.redirect_uris), eq_iff new "")

no_change :
    (old new : String) (oc : OauthClient)
    → (old ≢ "" → old ≢ new → has (uris_of oc.redirect_uris) old ≡ false)
    → (new ≢ "" → has (uris_of oc.redirect_uris) new ≡ true)
    → refresh_redirect_uris old new oc ≡ (oc, false)
unfolding refresh_redirect_uris
no_change old new oc stale current =
    ap (add_current new) (drop_stale_absent old new oc stale) ∙ add_current_present new oc current

-- A second refresh with the same URLs writes nothing, for a client whose list of URIs has no URI twice.
pub refresh_redirect_uris_settles :
    (old new : String) (oc : OauthClient)
    → NoRepeats (uris_of oc.redirect_uris)
    → refresh_redirect_uris old new (refresh_redirect_uris old new oc).0
      ≡ ((refresh_redirect_uris old new oc).0, false)
refresh_redirect_uris_settles old new oc h =
    let r = refresh_redirect_uris-IsRefreshed old new oc h in no_change old new _ r.stale r.current
