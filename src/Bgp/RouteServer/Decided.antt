-- ===== src/Bgp/RouteServer/Decided.antt =====
-- The second loop of the route server decides what the items of the first changed
-- (bgp/route_server.py).
use ixp_irc.Prelude.{
  true, false, List, [], ◌∷◌, ◌++◌, Option, none, some, nat_eq, list_eq, list_beq_iff, ◌==◌, inl,
  inr, ◌⊎◌, contains, ok, ◌≡◌, refl, sym, ◌∙◌, keys, Result-cases, Bool-cases, not-ok_raise,
}
use ixp_irc.Bgp.Text.{Text}
use ixp_irc.Bgp.Rib.{Route}
use ixp_irc.Bgp.Peer.{Item, announced, withdrawn}
use ixp_irc.Bgp.Peer.Effects.{announced_items, prefixes, withdrawn_items, deleted_prefixes}
use ixp_irc.Bgp.Decision.{Participants, Best, peer_of, other_routes, decision_process}
use ixp_irc.Bgp.Decision.Inputs.{announce_loop-SameOffers, withdraw_loop-SameOffers}
use ixp_irc.Bgp.Decision.Rows.{rows_of, Decided}
use ixp_irc.Bgp.Decision.Loops.{
  Grown, Ready, Decided-along, announce_loop-Decided, announce_loop-other,
}
use ixp_irc.Bgp.Decision.Dropped.{Shrunk}
use ixp_irc.Bgp.Decision.Withdrawals.{withdraw_loop-Decided, withdraw_loop-other}
use ixp_irc.Bgp.RouteServer.{decide}

-- Decided, or among the prefixes that are still to be decided and can be.
abbrev pub Awaiting :
    (Option (List Route) → List Route → Type 0)
    → Text
    → List Text
    → Option (List Route)
    → List Route
    → Type 0
Awaiting Can j js rows offers = Decided rows offers ⊎ (Can rows offers × (contains j js ≡ true))

-- Nobody else holds routes.
not_participant :
    (n j : Text) (ps : Participants) → contains n (keys ps) ≡ false → rows_of n j ps ≡ none
unfolding rows_of peer_of contains
not_participant n j [] h = refl
not_participant n j ((other, p) ∷ ps) h = elim (Bool-cases (n == other)) [
  | inl t ↦ let v : true ≡ false = (rw t at h) in cc
  | inr f ↦ rw (f, rows_of) (not_participant n j ps (rw f at h))
]

Can-Ready :
    (Can : Option (List Route) → List Route → Type 0) (n k : Text) (ps : Participants)
    → Decided (rows_of n k ps) (other_routes n k ps) ⊎ Can (rows_of n k ps) (other_routes n k ps)
    → Ready Can n k (keys ps) ps
Can-Ready Can n k ps (inl d) = inl d
Can-Ready Can n k ps (inr g) = elim (Bool-cases (contains n (keys ps))) [
  | inl t ↦ inr (g, t)
  | inr f ↦ inl (λ l e. let z : none ≡ some l = sym (not_participant n k ps f) ∙ e in cc)
]

either_can :
    (Can : Option (List Route) → List Route → Type 0) (j : Text) (js : List Text)
    (rows : Option (List Route)) (offers : List Route)
    → Awaiting Can j js rows offers
    → Decided rows offers ⊎ Can rows offers
either_can Can j js rows offers (inl d) = inl d
either_can Can j js rows offers (inr (g, c)) = inr g

-- Deciding one prefix.
settle :
    (Can : Option (List Route) → List Route → Type 0) (n j k : Text) (js : List Text)
    (ps ps' : Participants)
    → ((j == k) ≡ false → rows_of n j ps' ≡ rows_of n j ps)
    → other_routes n j ps' ≡ other_routes n j ps
    → (Ready Can n k (keys ps) ps → Decided (rows_of n k ps') (other_routes n k ps'))
    → Awaiting Can j (k ∷ js) (rows_of n j ps) (other_routes n j ps)
    → Awaiting Can j js (rows_of n j ps') (other_routes n j ps')
unfolding contains
settle Can n j k js ps ps' others offers decides a = elim (Bool-cases (j == k)) [
  | inl t ↦
      let e : j ≡ k = (list_beq_iff j k).0 t in
      let r : Ready Can n k (keys ps) ps =
        Can-Ready Can n k ps
          (rw e at (either_can Can j (k ∷ js) (rows_of n j ps) (other_routes n j ps) a)) in
      inl (rw e (decides r))
  | inr f ↦ elim a [
    | inl d ↦ inl (Decided-along (rows_of n j ps) _ (other_routes n j ps) _ (others f) offers d)
    | inr (g, c) ↦ inr (rw (others f) (rw offers g), rw f at c)
  ]
]

decide_turn :
    (item : Item) (items : List Item) (updates : List Best) (ps : Participants) {l : List Best}
    → (decide (item ∷ items) updates ps).0 ≡ ok l
    → (best : List Best) × ((decision_process ps item).0 ≡ ok best)
      × (decide (item ∷ items) updates ps
          ≡ decide items (updates ++ best) (decision_process ps item).1)
unfolding decide
decide_turn item items updates ps h = elim (Result-cases (decision_process ps item).0) [
  | inl (best, e) ↦ (best, e, rw (e, decide) refl)
  | inr (x, e) ↦ absurd (not-ok_raise (rw (e, decide) at h))
]

settle_announced :
    (n j : Text) (r : Route) (js : List Text) (ps : Participants) {l : List Best}
    → (decision_process ps (announced (some r))).0 ≡ ok l
    → Awaiting Grown j (r.prefix ∷ js) (rows_of n j ps) (other_routes n j ps)
    → Awaiting Grown j js
        (rows_of n j (decision_process ps (announced (some r))).1)
        (other_routes n j (decision_process ps (announced (some r))).1)
unfolding decision_process
settle_announced n j r js ps h =
    settle Grown n j r.prefix js ps _ (announce_loop-other n j r.prefix (keys ps) ps [] h)
      (announce_loop-SameOffers r.prefix (keys ps) ps [] n j)
      (announce_loop-Decided n r.prefix (keys ps) ps [] h)

settle_withdrawn :
    (n j : Text) (r : Route) (js : List Text) (ps : Participants) {l : List Best}
    → (decision_process ps (withdrawn (some r))).0 ≡ ok l
    → Awaiting Shrunk j (r.prefix ∷ js) (rows_of n j ps) (other_routes n j ps)
    → Awaiting Shrunk j js
        (rows_of n j (decision_process ps (withdrawn (some r))).1)
        (other_routes n j (decision_process ps (withdrawn (some r))).1)
unfolding decision_process
settle_withdrawn n j r js ps h =
    settle Shrunk n j r.prefix js ps _ (withdraw_loop-other n j r.prefix (keys ps) ps [] h)
      (withdraw_loop-SameOffers r.prefix (keys ps) ps [] n j)
      (withdraw_loop-Decided n r.prefix (keys ps) ps [] h)

pub decide_announced :
    (n j : Text) (rs : List Route) (updates : List Best) (ps : Participants) {l : List Best}
    → (decide (announced_items rs) updates ps).0 ≡ ok l
    → Awaiting Grown j (prefixes rs) (rows_of n j ps) (other_routes n j ps)
    → Decided
        (rows_of n j (decide (announced_items rs) updates ps).1)
        (other_routes n j (decide (announced_items rs) updates ps).1)
unfolding decide contains
decide_announced n j [] updates ps h (inl d) = d
decide_announced n j [] updates ps h (inr (g, c)) = cc
decide_announced n j (r ∷ rs) updates ps h a =
    let (best, e, q) = decide_turn (announced (some r)) (announced_items rs) updates ps h in
    rw q (
      decide_announced n j rs (updates ++ best) (decision_process ps (announced (some r))).1
        (rw q at h) (settle_announced n j r (prefixes rs) ps e a))

pub decide_withdrawn :
    (n j : Text) (os : List (Option Route)) (updates : List Best) (ps : Participants)
    {l : List Best}
    → (decide (withdrawn_items os) updates ps).0 ≡ ok l
    → Awaiting Shrunk j (deleted_prefixes os) (rows_of n j ps) (other_routes n j ps)
    → Decided
        (rows_of n j (decide (withdrawn_items os) updates ps).1)
        (other_routes n j (decide (withdrawn_items os) updates ps).1)
unfolding decide contains decision_process
decide_withdrawn n j [] updates ps h (inl d) = d
decide_withdrawn n j [] updates ps h (inr (g, c)) = cc
decide_withdrawn n j (none ∷ os) updates ps h a = decide_withdrawn n j os (updates ++ []) ps h a
decide_withdrawn n j (some r ∷ os) updates ps h a =
    let (best, e, q) = decide_turn (withdrawn (some r)) (withdrawn_items os) updates ps h in
    rw q (
      decide_withdrawn n j os (updates ++ best) (decision_process ps (withdrawn (some r))).1
        (rw q at h) (settle_withdrawn n j r (deleted_prefixes os) ps e a))
