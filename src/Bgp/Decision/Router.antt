-- ===== src/Bgp/Decision/Router.antt =====
-- Step 3 of the decision process: among the routes left, one with the lowest router address.
use ixp_irc.Prelude.{
  ℕ, ◌≤◌, ◌<◌, ◌^◌, List, [], ◌∷◌, ltb, ◌≡◌, ◌≢◌, refl, sym, ◌∙◌, arith, Bool-cases, inl, inr, ◌⊎◌,
  In, ltb→lt, list_beq_iff, nat_eq, list_eq, ◌==◌, ok, ok-injective,
}
use ixp_irc.Bgp.Text.{Text}
use ixp_irc.Bgp.Inet.{ip_to_long, inet_ntoa}
use ixp_irc.Bgp.Inet.RoundTrip.{ip_to_long-inet_ntoa, long_to_ip_lem}
use ixp_irc.Bgp.Rib.{Route}
use ixp_irc.Bgp.Decision.{lowest_ip, at_next_hop, lowest_router}

-- The next hop is an address in the form that `inet_ntoa` writes.
abbrev pub IsDotted : Route → Type 0
IsDotted r = (n : ℕ) × (n < 2 ^ 32) × (r.next_hop ≡ inet_ntoa n)

-- The first router has no higher address than the second.
abbrev pub RouterLe : Route → Route → Type 0
RouterLe r r' = (m n : ℕ) → ip_to_long r.next_hop ≡ ok m → ip_to_long r'.next_hop ≡ ok n → m ≤ n

pub RouterLe-refl : (r : Route) → RouterLe r r
RouterLe-refl r m n p q = let same : m ≡ n = ok-injective (sym p ∙ q) in omega arith

ip_to_long-IsDotted : (r : Route) (d : IsDotted r) → ip_to_long r.next_hop ≡ ok d.0
ip_to_long-IsDotted r (n, h, q) = rw q (ip_to_long-inet_ntoa n h)

-- `l` is the lowest address of `m` and the routes.
record IsLowestIp (m l : ℕ) (rs : List Route) : Type 0 where
  start : l ≤ m
  least : (r : Route) (n : ℕ) → In r rs → ip_to_long r.next_hop ≡ ok n → l ≤ n
  attained : (l ≡ m) ⊎ ((r : Route) × In r rs × (r.next_hop ≡ inet_ntoa l) × (l < 2 ^ 32))

lowest_ip-IsLowestIp :
    (m : ℕ) (rs : List Route)
    → ((r : Route) → In r rs → IsDotted r)
    → (l : ℕ) × (lowest_ip m rs ≡ ok l) × IsLowestIp m l rs
unfolding lowest_ip
lowest_ip-IsLowestIp m [] dotted =
    (m, refl, record { start = omega arith; least = λ r n i. absurd i; attained = inl refl })
lowest_ip-IsLowestIp m (r ∷ rs) dotted =
    let (n, h, q) = dotted r (inl refl) in
    let read = ip_to_long-IsDotted r (n, h, q) in
    elim (Bool-cases (ltb n m)) [
      | inl t ↦
          let (l, e, s) = lowest_ip-IsLowestIp n rs (λ x i. dotted x (inr i)) in
          (l, rw read (rw t e), lower n h q read (ltb→lt n m t) s)
      | inr f ↦
          let (l, e, s) = lowest_ip-IsLowestIp m rs (λ x i. dotted x (inr i)) in
          (l, rw read (rw f e), same n read (ground arith) s)
    ]
  where
    lower :
        {l : ℕ} (n : ℕ)
        → n < 2 ^ 32
        → r.next_hop ≡ inet_ntoa n
        → ip_to_long r.next_hop ≡ ok n
        → n < m
        → IsLowestIp n l rs
        → IsLowestIp m l (r ∷ rs)
    lower {l} n h q read t s = record {
      start = omega (arith, s.start);
      least = λ x k i p. elim i [
        | inl u ↦ let same : n ≡ k = ok-injective (sym read ∙ rw u at p) in omega (arith, s.start)
        | inr j ↦ s.least x k j p
      ];
      attained = elim s.attained [
        | inl u ↦ inr (r, inl refl, rw u q, rw u h)
        | inr (x, i, u, k) ↦ inr (x, inr i, u, k)
      ];
    }

    same :
        {l : ℕ} (n : ℕ)
        → ip_to_long r.next_hop ≡ ok n
        → m ≤ n
        → IsLowestIp m l rs
        → IsLowestIp m l (r ∷ rs)
    same {l} n read t s = record {
      start = s.start;
      least = λ x k i p. elim i [
        | inl u ↦ let same : n ≡ k = ok-injective (sym read ∙ rw u at p) in omega (arith, s.start)
        | inr j ↦ s.least x k j p
      ];
      attained = elim s.attained [ inl u ↦ inl u | inr (x, i, u, k) ↦ inr (x, inr i, u, k) ];
    }

at_next_hop_lem :
    (t : Text) (r : Route) (rs : List Route)
    → In r rs
    → r.next_hop ≡ t
    → (x : Route) × (at_next_hop t rs ≡ ok x) × In x rs × (x.next_hop ≡ t)
unfolding at_next_hop
at_next_hop_lem t r [] i h = absurd i
at_next_hop_lem t r (y ∷ rs) i h = elim (Bool-cases (y.next_hop == t)) [
  | inl u ↦ (y, rw u, inl refl, (list_beq_iff y.next_hop t).0 u)
  | inr f ↦ elim i [
    | inl q ↦ cc (f, (list_beq_iff y.next_hop t).1 (rw q at h))
    | inr j ↦ let (x, e, k, q) = at_next_hop_lem t r rs j h in (x, rw f e, inr k, q)
  ]
]

-- Of routes with dotted next hops, `lowest_router` returns one whose address is not above another's.
pub lowest_router_lem :
    (rs : List Route)
    → rs ≢ []
    → ((r : Route) → In r rs → IsDotted r)
    → (x : Route) × (lowest_router rs ≡ ok x) × In x rs × ((r : Route) → In r rs → RouterLe x r)
unfolding lowest_router
lowest_router_lem [] ne dotted = absurd (ne refl)
lowest_router_lem (r ∷ rs) ne dotted =
    let (n, h, q) = dotted r (inl refl) in
    let read = ip_to_long-IsDotted r (n, h, q) in
    let (l, e, s) = lowest_ip-IsLowestIp n rs (λ x i. dotted x (inr i)) in
    let (y, j, u, small) = attained_by n h q s in
    let (x, found, i, v) = at_next_hop_lem (inet_ntoa l) y (r ∷ rs) j u in
    (
      x,
      rw read (rw e (rw (long_to_ip_lem l small) found)),
      i,
      λ r' i' m k p p'.
          let same : m ≡ l = ok-injective (sym p ∙ rw v (ip_to_long-inet_ntoa l small)) in
          let bound : l ≤ k = lowest_of n read s r' k i' p' in omega arith,
    )
  where
    attained_by :
        {l : ℕ} (n : ℕ)
        → n < 2 ^ 32
        → r.next_hop ≡ inet_ntoa n
        → IsLowestIp n l rs
        → (y : Route) × In y (r ∷ rs) × (y.next_hop ≡ inet_ntoa l) × (l < 2 ^ 32)
    attained_by {l} n h q s = elim s.attained [
      | inl u ↦ (r, inl refl, rw u q, rw u h)
      | inr (x, i, u, k) ↦ (x, inr i, u, k)
    ]

    lowest_of :
        {l : ℕ} (n : ℕ)
        → ip_to_long r.next_hop ≡ ok n
        → IsLowestIp n l rs
        → (r' : Route) (k : ℕ) → In r' (r ∷ rs)
        → ip_to_long r'.next_hop ≡ ok k
        → l ≤ k
    lowest_of {l} n read s r' k (inl u) p =
        let same : n ≡ k = ok-injective (sym read ∙ rw u at p) in omega (arith, s.start)
    lowest_of {l} n read s r' k (inr i) p = s.least r' k i p
