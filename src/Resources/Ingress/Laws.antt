-- ===== src/Resources/Ingress/Laws.antt =====
-- pkg/resources/kubernetes/ingress.go: the printed port, and the host that is found.
use text.Mathlib.TextLemmas.{cons-append, nil-append}
use hawtio_operator.Base.{
  ℕ, zero, suc, ◌+◌, ◌-◌, ◌*◌, ◌/◌, ◌%◌, ◌^◌, ◌<◌, code, String, ◌<>◌, ◌≡◌, inl, inr, refl, ◌∙◌, ap,
  arith, eq_iff, List, [], ◌∷◌, ◌++◌,
}
use hawtio_operator.Base.{◌==◌, ltb, if◌then◌else◌, Bool-cases}
use hawtio_operator.Kube.Network.{Ingress, LoadBalancerIngress}
use hawtio_operator.Resources.Ingress.{
  digit, digits, format_int, status_host, scan_statuses, last_port, get_ingress_host_and_port,
}

-- The number that a text of digits spells behind `n`.
abbrev pub value : ℕ → String → ℕ
value n String.[] = n
value n (String.◌∷◌ c s) = value (n * 10 + (code c - b'0')) s

value-append : (n : ℕ) (s t : String) → value n (s <> t) ≡ value (value n s) t
value-append n String.[] t = rw nil-append refl
value-append n (String.◌∷◌ c s) t = rw cons-append (value-append (n * 10 + (code c - b'0')) s t)

value-digit : (n d : ℕ) → d < 10 → value n (digit d) ≡ n * 10 + d
value-digit n zero h = ground arith
value-digit n (suc zero) h = refl
value-digit n (suc (suc zero)) h = refl
value-digit n (suc (suc (suc zero))) h = refl
value-digit n (suc (suc (suc (suc zero)))) h = refl
value-digit n (suc (suc (suc (suc (suc zero))))) h = refl
value-digit n (suc (suc (suc (suc (suc (suc zero)))))) h = refl
value-digit n (suc (suc (suc (suc (suc (suc (suc zero))))))) h = refl
value-digit n (suc (suc (suc (suc (suc (suc (suc (suc zero)))))))) h = refl
value-digit n (suc (suc (suc (suc (suc (suc (suc (suc (suc zero))))))))) h = refl
value-digit n (suc (suc (suc (suc (suc (suc (suc (suc (suc (suc d)))))))))) h = absurd (omega arith)

-- Ten times ten, so many times.
ten_to : ℕ → ℕ
ten_to zero = 10
ten_to (suc k) = 10 * ten_to k

value-digits : (k n : ℕ) → n < ten_to k → value 0 (digits k n) ≡ n
unfolding digits ten_to
value-digits zero n h = value-digit 0 (n % 10) (omega arith) ∙ omega arith
value-digits (suc k) n h = elim (Bool-cases (ltb n 10)) [
  | inl e ↦ rw e (value-digit 0 n (ground arith) ∙ omega arith)
  | inr e ↦
      rw
        (
          e,
          value-append,
          value-digits k (n / 10) (omega arith),
          value-digit (n / 10) (n % 10) (omega arith),
        )
        (omega arith)
]

-- Printing is given 20 rounds, which are enough for an int64.
value-format_int : (n : ℕ) → n < 2 ^ 63 → value 0 (format_int n) ≡ n
unfolding format_int ten_to
value-format_int n h = value-digits 20 n (omega arith)

-- The port that the URL takes from a load balancer is the last of its ports, printed so that it reads back as the
-- same number, for every number below 2 ^ 63.
pub value-last_port :
    (ports : List ℕ) (p : ℕ) (port : String)
    → p < 2 ^ 63
    → value 0 (last_port (ports ++ p ∷ []) port) ≡ p
unfolding last_port
value-last_port [] p port h = value-format_int p h
value-last_port (q ∷ ports) p port h = value-last_port ports p (format_int q) h

-- The name of a load balancer: its host name, or else its address.
abbrev pub own_name : LoadBalancerIngress → String
own_name i = if i.hostname == "" then i.ip else i.hostname

-- The name of the last load balancer that has one.
abbrev pub last_name : List LoadBalancerIngress → String
last_name [] = ""
last_name (i ∷ is) = let rest = last_name is in if rest == "" then own_name i else rest

scan_statuses-host :
    (is : List LoadBalancerIngress) (host port : String)
    → (scan_statuses is host port).0 ≡ (if last_name is == "" then host else last_name is)
unfolding scan_statuses
scan_statuses-host [] host port = refl
scan_statuses-host (i ∷ is) host port =
    let found = status_host i host in
    let seen_port = if found == "" then port else last_port i.ports port in
    ground (arith, scan_statuses-host is found seen_port)

abbrev pub or_star : String → String
or_star host = if host == "" then "*" else host

or_empty : (s : String) → (if s == "" then "" else s) ≡ s
or_empty s = ground (arith, eq_iff s "")

-- Once an ingress has load balancers, the host of its URL is the name of the last one that has a name, whatever the
-- rules say, and the star if none has.
pub get_ingress_host_and_port-host :
    (ingress : Ingress) (i : LoadBalancerIngress) (is : List LoadBalancerIngress)
    → ingress.load_balancer ≡ i ∷ is
    → (get_ingress_host_and_port ingress).0 ≡ or_star (last_name (i ∷ is))
unfolding get_ingress_host_and_port
get_ingress_host_and_port-host ingress i is e =
    ap (λ l. (get_ingress_host_and_port (record ingress { load_balancer = l })).0) e
    ∙ ap or_star (scan_statuses-host (i ∷ is) "" "" ∙ or_empty (last_name (i ∷ is)))
