-- ===== src/Bgp/Decision/Members.antt =====
-- `best_path_selection` returns one of the routes it is given (bgp/decision_process.py).
use ixp_irc.Prelude.{
  ℕ, zero, suc, ◌+◌, List, [], ◌∷◌, ◌++◌, length, filter, get_elem?, Option-cases, Bool-cases, inl,
  inr, ◌⊎◌, either, In, In-append, In-filter, ltb, eqb, Result, ok, ◌>>=◌, bind_ok, ok-injective,
  ◌≡◌, sym, nat_eq, list_eq, ◌==◌,
}
use ixp_irc.Bgp.Text.{Text}
use ixp_irc.Bgp.Inet.{ip_to_long, long_to_ip}
use ixp_irc.Bgp.Rib.{Route}
use ixp_irc.Bgp.Decision.{
  path_length, shortest, advertised, sort, count, is_advertised_by, lowest_med, scalar_eq,
  with_lowest_med, med_loop, post_med, lowest_ip, at_next_hop, lowest_router, only_or,
  best_path_selection,
}

abbrev AllIn : List Route → List Route → Type 0
AllIn xs ys = (r : Route) → In r xs → In r ys

In-shortest :
    (best : List Route) (m : ℕ) (rs : List Route) (x : Route)
    → In x (shortest best m rs)
    → In x best ⊎ In x rs
unfolding shortest
In-shortest best m [] x i = inl i
In-shortest [] m (r ∷ rs) x i = elim (In-shortest (r ∷ []) (path_length r) rs x i) [
  | inl j ↦ inr (either inl (λ z. absurd z) j)
  | inr j ↦ inr (inr j)
]
In-shortest (b ∷ bs) m (r ∷ rs) x i = elim (Bool-cases (eqb m (path_length r))) [
  | inl t ↦ elim (In-shortest ((b ∷ bs) ++ r ∷ []) m rs x (rw (t, shortest) at i)) [
    | inl j ↦ elim (In-append x (b ∷ bs) (r ∷ []) j) [
      | inl k ↦ inl k
      | inr k ↦ inr (either inl (λ z. absurd z) k)
    ]
    | inr j ↦ inr (inr j)
  ]
  | inr f ↦ elim (Bool-cases (ltb (path_length r) m)) [
    | inl t ↦ elim (In-shortest (r ∷ []) (path_length r) rs x (rw (f, t, shortest) at i)) [
      | inl j ↦ inr (either inl (λ z. absurd z) j)
      | inr j ↦ inr (inr j)
    ]
    | inr g ↦ elim (In-shortest (b ∷ bs) m rs x (rw (f, g, shortest) at i)) [
      | inl j ↦ inl j
      | inr j ↦ inr (inr j)
    ]
  ]
]

with_lowest_med-AllIn :
    (l : List Route) {kept : List Route} → with_lowest_med l ≡ ok kept → AllIn kept l
unfolding with_lowest_med
with_lowest_med-AllIn [] h r i = cc
with_lowest_med-AllIn (x ∷ l) h r i =
    (In-filter (λ y. scalar_eq y.med (lowest_med x.med l)) r (x ∷ l)
      (rw (sym (ok-injective h)) at i)).0

append-AllIn : (xs ys best : List Route) → AllIn xs best → AllIn ys best → AllIn (xs ++ ys) best
append-AllIn xs ys best a b r i = either (a r) (b r) (In-append r xs ys i)

from_as-AllIn : (v : Text) (best : List Route) → AllIn (filter (is_advertised_by v) best) best
from_as-AllIn v best r i = (In-filter (is_advertised_by v) r best i).0

med_loop-AllIn :
    (fuel i : ℕ) (as_list : List Text) (best post : List Route) {out : List Route}
    → AllIn post best
    → med_loop fuel i as_list best post ≡ ok out
    → AllIn out best
unfolding med_loop
med_loop-AllIn zero i as_list best post a h = λ r j. a r (rw (sym (ok-injective h)) at j)
med_loop-AllIn (suc fuel) i as_list best post {out} a h =
    elim (Option-cases (get_elem? as_list i)) [
      | inl q ↦ λ r j. a r (rw (sym (ok-injective (rw (q, med_loop) at h))) at j)
      | inr (v, q) ↦ elim (Bool-cases (ltb 1 (count v as_list))) [
        | inl t ↦
            let (kept, e, h2) =
              bind_ok (with_lowest_med (filter (is_advertised_by v) best)) _
                (rw (q, t, med_loop) at h) in
            med_loop-AllIn fuel (i + count v as_list) as_list best (post ++ kept)
              (append-AllIn post kept best a (λ r j.
                from_as-AllIn v best r
                  (with_lowest_med-AllIn (filter (is_advertised_by v) best) e r j)))
              h2
        | inr f ↦
            med_loop-AllIn fuel (i + 1) as_list best (post ++ filter (is_advertised_by v) best)
              (append-AllIn post (filter (is_advertised_by v) best) best a (from_as-AllIn v best))
              (rw (q, f, med_loop) at h)
      ]
    ]

post_med-AllIn : (best : List Route) {out : List Route} → post_med best ≡ ok out → AllIn out best
unfolding post_med
post_med-AllIn best h =
    let (as_list, e, h2) = bind_ok (advertised best) _ h in
    med_loop-AllIn (length as_list) 0 (sort as_list) best [] (λ r i. absurd i) h2

at_next_hop-In : (v : Text) (l : List Route) {r : Route} → at_next_hop v l ≡ ok r → In r l
unfolding at_next_hop
at_next_hop-In v [] h = cc
at_next_hop-In v (x ∷ l) h = elim (Bool-cases (x.next_hop == v)) [
  | inl t ↦ inl (sym (ok-injective (rw (t, at_next_hop) at h)))
  | inr f ↦ inr (at_next_hop-In v l (rw (f, at_next_hop) at h))
]

lowest_router-In : (l : List Route) {r : Route} → lowest_router l ≡ ok r → In r l
unfolding lowest_router
lowest_router-In [] h = cc
lowest_router-In (x ∷ l) h =
    let (m, e1, h1) = bind_ok (ip_to_long x.next_hop) _ h in
    let (lowest, e2, h2) = bind_ok (lowest_ip m l) _ h1 in
    let (ip, e3, h3) = bind_ok (long_to_ip lowest) _ h2 in at_next_hop-In ip (x ∷ l) h3

only_or-In :
    (l best : List Route) (more : Result Route) {r : Route}
    → AllIn l best
    → (more ≡ ok r → In r best)
    → only_or l more ≡ ok r
    → In r best
only_or-In [] best more a f h = f h
only_or-In (x ∷ []) best more {r} a f h = a r (inl (sym (ok-injective h)))
only_or-In (x ∷ y ∷ l) best more a f h = f h

-- The route that `best_path_selection` returns is one of those it is given.
pub best_path_selection-In :
    (routes : List Route) {r : Route} → best_path_selection routes ≡ ok r → In r routes
unfolding best_path_selection
best_path_selection-In routes {r} h =
    let best = shortest [] 0 routes in
    let i : In r best =
      only_or-In best best (post_med best >>= λ kept. only_or kept (lowest_router kept)) (λ x j. j)
        (λ q.
          let (kept, e, h2) =
            bind_ok (post_med best) (λ kept. only_or kept (lowest_router kept)) q in
          only_or-In kept best (lowest_router kept) (post_med-AllIn best e)
            (λ q2. post_med-AllIn best e r (lowest_router-In kept q2)) h2)
        h in
    either (λ z. absurd z) (λ j. j) (In-shortest [] 0 routes r i)
