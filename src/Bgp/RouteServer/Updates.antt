-- ===== src/Bgp/RouteServer/Updates.antt =====
-- What the first loop of the route server leaves to the second (bgp/route_server.py).
use ixp_irc.Prelude.{
  true, false, List, [], ◌∷◌, ◌++◌, Option, some, nat_eq, list_eq, list_beq_iff, ◌==◌, inl, inr,
  ◌⊎◌, contains, Distinct, ◌≡◌, refl, sym, ap, ◌∙◌, keys, lookup, Bool-cases,
}
use ixp_irc.Bgp.Text.{Text}
use ixp_irc.Bgp.Rib.{Route}
use ixp_irc.Bgp.Peer.{Peer, Item, input_rib, local_rib, get_routes}
use ixp_irc.Bgp.Peer.Effects.{
  announced_items, prefixes, withdrawn_items, deleted_prefixes, Announces, Withdraws,
}
use ixp_irc.Bgp.Peer.Routine.{Effect}
use ixp_irc.Bgp.Decision.{Participants, on_peer, peer_of, other_routes}
use ixp_irc.Bgp.Decision.Rows.{rows_of, Decided}
use ixp_irc.Bgp.Decision.Loops.{Grown, Decided-along, Decided-Grown}
use ixp_irc.Bgp.Decision.Dropped.{Shrunk, Decided-Shrunk}
use ixp_irc.Bgp.RouteServer.Decided.{Awaiting}
use ixp_irc.Bgp.RouteServer.Keys.{on_peer_absent}

-- Every participant has, for every prefix, what the rules choose among the routes of the others.
abbrev pub IsDecided : Participants → Type 0
IsDecided ps = (n j : Text) → Decided (rows_of n j ps) (other_routes n j ps)

abbrev pub set_peer : Text → Peer → Participants → Participants
set_peer m p' ps = on_peer m (λ q. p') ps

same_rows :
    (j : Text) (p p' : Peer)
    → p'.local ≡ p.local
    → get_routes local_rib j p' ≡ get_routes local_rib j p
unfolding get_routes
same_rows j p p' h = rw h

some_peer : {x y : Peer} → some x ≡ some y → x ≡ y
some_peer e = cc

skip_first :
    (m k : Text) (p : Peer) (ps : Participants) (q : Peer)
    → (m == k) ≡ false
    → lookup m ((k, p) ∷ ps) ≡ some q
    → lookup m ps ≡ some q
unfolding lookup
skip_first m k p ps q f e = rw f at e

at_first :
    (m k : Text) (p : Peer) (ps : Participants) (q : Peer)
    → (m == k) ≡ true
    → lookup m ((k, p) ∷ ps) ≡ some q
    → p ≡ q
unfolding lookup
at_first m k p ps q t e = some_peer (rw t at e)

-- The change of one participant, from the participants that are there once each.
module _ (j m : Text) (p p' : Peer) where
  rows_of-set_peer :
      (n : Text) (ps : Participants)
      → Distinct (keys ps)
      → lookup m ps ≡ some p
      → p'.local ≡ p.local
      → rows_of n j (set_peer m p' ps) ≡ rows_of n j ps
  unfolding rows_of on_peer peer_of
  rows_of-set_peer n [] d h same = refl
  rows_of-set_peer n ((k, q) ∷ ps) d h same = elim (Bool-cases (m == k)) [
    | inl u ↦
        let e : q ≡ p = at_first m k q ps p u h in
        let me : m ≡ k = (list_beq_iff m k).0 u in
        let absent : on_peer m (λ x. p') ps ≡ ps = on_peer_absent m _ ps (rw me d.0) in
        elim (Bool-cases (n == k)) [
          | inl t ↦
              rw (t, rows_of)
                (rw u (ap some (same_rows j p p' same ∙ ap (get_routes local_rib j) (sym e))))
          | inr f ↦ rw (f, rows_of) (ap (rows_of n j) absent)
        ]
    | inr u ↦ elim (Bool-cases (n == k)) [
      | inl t ↦ rw (t, rows_of) (rw u refl)
      | inr f ↦ rw (f, rows_of) (rows_of-set_peer n ps d.1 (skip_first m k q ps p u h) same)
    ]
  ]

  other_routes-set_peer :
      (R : List Route → List Route → Type 0)
      → ((l : List Route) → R l l)
      → ((a b c d : List Route) → R a b → R c d → R (a ++ c) (b ++ d))
      → (n : Text) (ps : Participants) → Distinct (keys ps)
      → lookup m ps ≡ some p
      → R (get_routes input_rib j p') (get_routes input_rib j p)
      → R (other_routes n j (set_peer m p' ps)) (other_routes n j ps)
  unfolding other_routes on_peer
  other_routes-set_peer R same app n [] d h r = same []
  other_routes-set_peer R same app n ((k, q) ∷ ps) d h r = elim (Bool-cases (m == k)) [
    | inl u ↦
        let e : q ≡ p = at_first m k q ps p u h in
        let me : m ≡ k = (list_beq_iff m k).0 u in
        let absent : on_peer m (λ x. p') ps ≡ ps = on_peer_absent m _ ps (rw me d.0) in
        elim (Bool-cases (n == k)) [
          | inl t ↦ rw (t, other_routes) (rw absent (same (other_routes n j ps)))
          | inr f ↦
              rw (f, other_routes)
                (rw u (
                  rw absent (
                    rw e (
                      app (get_routes input_rib j p') (get_routes input_rib j p)
                        (other_routes n j ps) (other_routes n j ps) r
                        (same (other_routes n j ps))))))
        ]
    | inr u ↦
        let rest = other_routes-set_peer R same app n ps d.1 (skip_first m k q ps p u h) r in
        elim (Bool-cases (n == k)) [
          | inl t ↦ rw (t, other_routes) rest
          | inr f ↦
              rw (f, other_routes)
                (rw u (
                  app (get_routes input_rib j q) (get_routes input_rib j q)
                    (other_routes n j (set_peer m p' ps)) (other_routes n j ps)
                    (same (get_routes input_rib j q)) rest))
        ]
  ]

append_empty : (a c : List Route) → a ++ c ≡ [] → (a ≡ []) × (c ≡ [])
append_empty [] c h = (refl, h)
append_empty (x ∷ a) c h = cc

empty_append : (a c : List Route) → a ≡ [] → c ≡ [] → a ++ c ≡ []
empty_append a c p q = rw p q

module _ (m : Text) (p p' : Peer) (ps : Participants) (d : Distinct (keys ps))
    (h : lookup m ps ≡ some p) where
  offers_same :
      (n j : Text)
      → get_routes input_rib j p' ≡ get_routes input_rib j p
      → other_routes n j (set_peer m p' ps) ≡ other_routes n j ps
  offers_same n j =
      other_routes-set_peer j m p p' (λ a b. a ≡ b) (λ l. refl)
        (λ a b c e x y. ap (λ z. z ++ c) x ∙ ap (λ z. b ++ z) y) n ps d h

  offers_more :
      (n j : Text)
      → (get_routes input_rib j p' ≡ [] → get_routes input_rib j p ≡ [])
      → other_routes n j (set_peer m p' ps) ≡ []
      → other_routes n j ps ≡ []
  offers_more n j =
      other_routes-set_peer j m p p' (λ a b. a ≡ [] → b ≡ []) (λ l z. z)
        (λ a b c e x y z. let w = append_empty a c z in empty_append b e (x w.0) (y w.1)) n ps d h

  offers_fewer :
      (n j : Text)
      → (get_routes input_rib j p ≡ [] → get_routes input_rib j p' ≡ [])
      → other_routes n j ps ≡ []
      → other_routes n j (set_peer m p' ps) ≡ []
  offers_fewer n j =
      other_routes-set_peer j m p p' (λ a b. b ≡ [] → a ≡ []) (λ l z. z)
        (λ a b c e x y z. let w = append_empty b e z in empty_append a c (x w.0) (y w.1)) n ps d h

  Announces-Awaiting :
      (rs : List Route)
      → IsDecided ps
      → Announces p rs p'
      → (n j : Text)
      → Awaiting Grown j
          (prefixes rs)
          (rows_of n j (set_peer m p' ps))
          (other_routes n j (set_peer m p' ps))
  Announces-Awaiting rs decided (same, more, others) n j =
      let rows : rows_of n j (set_peer m p' ps) ≡ rows_of n j ps =
        rows_of-set_peer j m p p' n ps d h same in
      elim (Bool-cases (contains j (prefixes rs))) [
        | inl t ↦ inr (
          (λ l e o.
              Decided-Grown (rows_of n j ps) (other_routes n j ps) (decided n j) l (sym rows ∙ e)
                (offers_more n j (more j) o)),
          t,
        )
        | inr f ↦ inl (
            Decided-along (rows_of n j ps) _ (other_routes n j ps) _ rows
              (offers_same n j (others j f)) (decided n j))
      ]

  Withdraws-Awaiting :
      (os : List (Option Route))
      → IsDecided ps
      → Withdraws p os p'
      → (n j : Text)
      → Awaiting Shrunk j
          (deleted_prefixes os)
          (rows_of n j (set_peer m p' ps))
          (other_routes n j (set_peer m p' ps))
  Withdraws-Awaiting os decided (same, fewer, others) n j =
      let rows : rows_of n j (set_peer m p' ps) ≡ rows_of n j ps =
        rows_of-set_peer j m p p' n ps d h same in
      elim (Bool-cases (contains j (deleted_prefixes os))) [
        | inl t ↦ inr (
          (λ e.
              offers_fewer n j (fewer j) (
                Decided-Shrunk (rows_of n j ps) (other_routes n j ps) (decided n j)
                  (sym rows ∙ e))),
          t,
        )
        | inr f ↦ inl (
            Decided-along (rows_of n j ps) _ (other_routes n j ps) _ rows
              (offers_same n j (others j f)) (decided n j))
      ]

-- What the items are to decide.
abbrev pub Prepared : List Item → Participants → Type 0
Prepared items ps =
    ((rs : List Route) × (items ≡ announced_items rs)
      × ((n j : Text) → Awaiting Grown j (prefixes rs) (rows_of n j ps) (other_routes n j ps)))
    ⊎ ((os : List (Option Route)) × (items ≡ withdrawn_items os)
        × ((n j : Text)
            → Awaiting Shrunk j (deleted_prefixes os) (rows_of n j ps) (other_routes n j ps)))

pub Effect-Prepared :
    (m : Text) (p p' : Peer) (ps : Participants) (items : List Item)
    → Distinct (keys ps)
    → lookup m ps ≡ some p
    → IsDecided ps
    → Effect p items p'
    → Prepared items (set_peer m p' ps)
Effect-Prepared m p p' ps items d h decided (inl (rs, i, a)) =
    inl (rs, i, Announces-Awaiting m p p' ps d h rs decided a)
Effect-Prepared m p p' ps items d h decided (inr (os, i, w)) =
    inr (os, i, Withdraws-Awaiting m p p' ps d h os decided w)

-- Without items, all is decided.
pub Prepared-IsDecided : (ps : Participants) → Prepared [] ps → IsDecided ps
unfolding contains
Prepared-IsDecided ps (inl ([], i, a)) n j = elim (a n j) [ inl d ↦ d | inr (g, c) ↦ cc ]
Prepared-IsDecided ps (inl (r ∷ rs, i, a)) n j = cc
Prepared-IsDecided ps (inr ([], i, a)) n j = elim (a n j) [ inl d ↦ d | inr (g, c) ↦ cc ]
Prepared-IsDecided ps (inr (r ∷ rs, i, a)) n j = cc
