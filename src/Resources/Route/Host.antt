-- ===== src/Resources/Route/Host.antt =====
-- pkg/resources/openshift/route.go: the host that `getRouteHost` chooses.
use hawtio_operator.Base.{
  String, ◌≤◌, true, false, ◌&&◌, ◌≡◌, ◌∙◌, ◌⊎◌, inl, inr, refl, none, some, List, [], ◌∷◌, arith,
}
use hawtio_operator.Base.{ltb, Bool-cases, All, Any}
use hawtio_operator.Kube.{Time}
use hawtio_operator.Kube.Network.{Route, RouteIngress, RouteCondition}
use hawtio_operator.Resources.Route.{
  Oldest, older, is_admitted, scan_conditions, scan_ingresses, get_route_host,
}

-- A condition admits the ingress of this host at this time.
abbrev AdmittedAt : String → Time → RouteIngress → Type 0
AdmittedAt host time i =
    (i.host ≡ host)
    × Any (λ c. (is_admitted c ≡ true) × (c.last_transition_time ≡ time)) i.conditions

-- No admitted condition is older than the one found; none is admitted if none is found.
abbrev NotBefore : Oldest → RouteCondition → Type 0
NotBefore none c = is_admitted c ≡ false
NotBefore (some (host, time)) c = is_admitted c ≡ true → time ≤ c.last_transition_time

-- The search only moves on to an older condition.
abbrev NoLater : Oldest → Oldest → Type 0
NoLater r none = Unit
NoLater none (some _) = ⊥
NoLater (some (_, u)) (some (_, t)) = u ≤ t

NoLater-refl : (r : Oldest) → NoLater r r
NoLater-refl none = tt
NoLater-refl (some (_, t)) = ground arith

NoLater-trans : (a b c : Oldest) → NoLater a b → NoLater b c → NoLater a c
NoLater-trans a b none h k = tt
NoLater-trans none none (some _) h k = elim k [ ]
NoLater-trans none (some _) (some _) h k = h
NoLater-trans (some (_, _)) none (some (_, _)) h k = elim k [ ]
NoLater-trans (some (_, _)) (some (_, _)) (some (_, _)) h k = ground arith

NotBefore-NoLater :
    (r found : Oldest) (c : RouteCondition) → NoLater r found → NotBefore found c → NotBefore r c
NotBefore-NoLater none none c h k = k
NotBefore-NoLater (some (_, _)) none c h k = λ e. cc
NotBefore-NoLater none (some _) c h k = elim h [ ]
NotBefore-NoLater (some (_, u)) (some (_, t)) c h k = λ e. ground (arith, k e)

older-NoLater :
    (host : String) (c : RouteCondition) (found : Oldest) → NoLater (older host c found) found
older-NoLater host c none = tt
older-NoLater host c (some (h, t)) = ground arith

older-NotBefore :
    (host : String) (c : RouteCondition) (found : Oldest) → NotBefore (older host c found) c
older-NotBefore host c none = ground arith
older-NotBefore host c (some (h, t)) = ground arith

-- What is found is what was found before, or an admitted condition of the ingress at hand.
abbrev FoundIn : String → Oldest → Oldest → List RouteCondition → Type 0
FoundIn host r found cs =
    (r ≡ found)
    ⊎ ((t : Time) × (r ≡ some (host, t))
        × Any (λ c. (is_admitted c ≡ true) × (c.last_transition_time ≡ t)) cs)

older-FoundIn :
    (host : String) (c : RouteCondition) (found : Oldest) (cs : List RouteCondition)
    → FoundIn host (older host c found) found (c ∷ cs)
older-FoundIn host c none cs = elim (Bool-cases (is_admitted c)) [
  | inl e ↦ inr (c.last_transition_time, rw e, inl (e, refl))
  | inr e ↦ inl (rw e)
]
older-FoundIn host c (some (h, t)) cs =
    elim (Bool-cases (is_admitted c && ltb c.last_transition_time t)) [
      | inl e ↦ inr (c.last_transition_time, rw e, inl (ground arith, refl))
      | inr e ↦ inl (rw e)
    ]

found_in :
    (host : String) (c : RouteCondition) (r found : Oldest) (cs : List RouteCondition)
    → FoundIn host r (older host c found) cs
    → FoundIn host r found (c ∷ cs)
found_in host c r found cs (inr (t, e, h)) = inr (t, e, inr h)
found_in host c r found cs (inl e) = elim (older-FoundIn host c found cs) [
  | inl e' ↦ inl (e ∙ e')
  | inr (t, e', h) ↦ inr (t, e ∙ e', h)
]

scan_conditions_lem :
    (host : String) (cs : List RouteCondition) (found : Oldest)
    → let r = scan_conditions host cs found in
      NoLater r found × All (NotBefore r) cs × FoundIn host r found cs
unfolding scan_conditions
scan_conditions_lem host [] found = (NoLater-refl found, tt, inl refl)
scan_conditions_lem host (c ∷ cs) found =
    let r = scan_conditions host cs (older host c found) in
    let (later, all, from) = scan_conditions_lem host cs (older host c found) in
    (
      NoLater-trans r (older host c found) found later (older-NoLater host c found),
      (NotBefore-NoLater r (older host c found) c later (older-NotBefore host c found), all),
      found_in host c r found cs from,
    )

-- The ingress whose host was found is among those scanned, or was found before.
abbrev FoundAmong : Oldest → Oldest → List RouteIngress → Type 0
FoundAmong r found is =
    (r ≡ found) ⊎ ((host : String) × (t : Time) × (r ≡ some (host, t)) × Any (AdmittedAt host t) is)

found_among :
    (i : RouteIngress) (r found : Oldest) (is : List RouteIngress)
    → FoundIn i.host (scan_conditions i.host i.conditions found) found i.conditions
    → FoundAmong r (scan_conditions i.host i.conditions found) is
    → FoundAmong r found (i ∷ is)
found_among i r found is h (inr (host, t, e, k)) = inr (host, t, e, inr k)
found_among i r found is (inl e') (inl e) = inl (e ∙ e')
found_among i r found is (inr (t, e', k)) (inl e) = inr (i.host, t, e ∙ e', inl (refl, k))

All-NotBefore :
    (r found : Oldest) (cs : List RouteCondition)
    → NoLater r found
    → All (NotBefore found) cs
    → All (NotBefore r) cs
All-NotBefore r found [] h k = tt
All-NotBefore r found (c ∷ cs) h (k, ks) =
    (NotBefore-NoLater r found c h k, All-NotBefore r found cs h ks)

scan_ingresses_lem :
    (is : List RouteIngress) (found : Oldest)
    → let r = scan_ingresses is found in
      NoLater r found × All (λ i. All (NotBefore r) i.conditions) is × FoundAmong r found is
unfolding scan_ingresses
scan_ingresses_lem [] found = (NoLater-refl found, tt, inl refl)
scan_ingresses_lem (i ∷ is) found =
    let mid = scan_conditions i.host i.conditions found in
    let r = scan_ingresses is mid in
    let (later, all, from) = scan_conditions_lem i.host i.conditions found in
    let (later', all', from') = scan_ingresses_lem is mid in
    (
      NoLater-trans r mid found later' later,
      (All-NotBefore r mid i.conditions later' all, all'),
      found_among i r found is from from',
    )

-- What `getRouteHost` promises of the host: that of an ingress admitted at a time before which none is, or
-- the host of the specification if no ingress is admitted.
unfoldable pub HasOldestHost : Route → String → Type 0
HasOldestHost route host =
    ((t : Time) × Any (AdmittedAt host t) route.ingress
      × All (λ i. All (NotBefore (some (host, t))) i.conditions) route.ingress)
    ⊎ (All (λ i. All (NotBefore none) i.conditions) route.ingress × (host ≡ route.spec.host))

has_oldest :
    (route : Route) (r : Oldest)
    → All (λ i. All (NotBefore r) i.conditions) route.ingress
    → FoundAmong r none route.ingress
    → HasOldestHost route
        (elim r as (λ _. String) [ none ↦ route.spec.host | some (host, _) ↦ host ])
unfolding HasOldestHost
has_oldest route none all from = inr (all, refl)
has_oldest route (some (host, t)) all (inl e) = cc
has_oldest route (some (host, t)) all (inr (host', t', e, h)) =
    let same_host : host ≡ host' = cc in
    let same_time : t ≡ t' = cc in inl (t, rw (same_host, same_time) h, all)

-- The route's host is that of the ingress with the oldest admitted condition, whatever the order of the
-- ingresses and of their conditions, and the specified host where no ingress is admitted. Each condition has its time.
pub get_route_host-HasOldestHost : (route : Route) → HasOldestHost route (get_route_host route)
unfolding get_route_host
get_route_host-HasOldestHost route =
    let (_, all, from) = scan_ingresses_lem route.ingress none in
    has_oldest route (scan_ingresses route.ingress none) all from
