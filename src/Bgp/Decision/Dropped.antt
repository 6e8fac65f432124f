-- ===== src/Bgp/Decision/Dropped.antt =====
-- One turn of the loop for a withdrawn prefix (bgp/decision_process.py).
use ixp_irc.Prelude.{
  false, List, [], ◌∷◌, ◌++◌, Option, some, nat_eq, list_eq, beq_refl, ◌==◌, if◌then◌else◌,
  Bool-cases, inl, inr, ◌⊎◌, ok, ◌≡◌, refl, sym, ap, ◌∙◌, cons-cases, Result-cases, not-ok_raise,
}
use ixp_irc.Bgp.Rib.Laws.{IsRowFor}
use ixp_irc.Bgp.Text.{Text}
use ixp_irc.Bgp.Rib.{Route}
use ixp_irc.Bgp.Peer.{Peer, local_rib, add_route, delete_route}
use ixp_irc.Bgp.Decision.{
  Participants, Best, withdraw_best, on_peer, peer_of, uses, other_routes, best_path_selection,
  withdraw_loop,
}
use ixp_irc.Bgp.Decision.Inputs.{on_peer-SameOffers, added, deleted}
use ixp_irc.Bgp.Decision.Rows.{
  rows_of, choice, Decided, on_rows, rows_of-on_peer, rows-delete, rows-add,
}
use ixp_irc.Bgp.Decision.Loops.{on_rows_id, either_way}

-- If the participant has no route, the others have none.
abbrev pub Shrunk : Option (List Route) → List Route → Type 0
Shrunk rows offers = rows ≡ some [] → offers ≡ []

choice_none : (r : Route) (rs : List Route) → choice (r ∷ rs) ≡ ok [] → ⊥
unfolding choice
choice_none r rs h = elim (Result-cases (best_path_selection (r ∷ rs))) [
  | inl (b, e) ↦ let z : ok (b ∷ []) ≡ ok [] = (rw (e, choice) at h) in cc
  | inr (x, e) ↦ not-ok_raise (rw (e, choice) at h)
]

pub Decided-Shrunk :
    (rows : Option (List Route)) (offers : List Route) → Decided rows offers → Shrunk rows offers
Decided-Shrunk rows offers d e = elim (cons-cases offers) [
  | inl q ↦ q
  | inr (r, rs, q) ↦ absurd (choice_none r rs (ap choice (sym q) ∙ d [] e))
]

abbrev pub drop : Text → Peer → Peer
drop k p = delete_route local_rib k p

abbrev pub put_best : Route → Peer → Peer
put_best b p = add_route local_rib b.prefix b p

-- One turn of the loop that does not raise: the participant has no route, or it loses its routes, and
-- has the best of the others' routes if there is one.
pub withdraw_turn :
    (k m : Text) (ns : List Text) (ps : Participants) (best : List Best) {l : List Best}
    → (withdraw_loop k (m ∷ ns) ps best).0 ≡ ok l
    → ((uses k (peer_of m ps) ≡ false)
        × (withdraw_loop k (m ∷ ns) ps best ≡ withdraw_loop k ns ps best))
      ⊎ (((other_routes m k (on_peer m (drop k) ps) ≡ [])
            × (withdraw_loop k (m ∷ ns) ps best ≡ withdraw_loop k ns (on_peer m (drop k) ps) best))
          ⊎ ((b : Route) × (best_path_selection (other_routes m k (on_peer m (drop k) ps)) ≡ ok b)
              × (choice (other_routes m k (on_peer m (drop k) ps)) ≡ ok (b ∷ []))
              × (withdraw_loop k (m ∷ ns) ps best
                  ≡ withdraw_loop k ns
                      (on_peer m (put_best b) (on_peer m (drop k) ps))
                      (best ++ withdraw_best b ∷ []))))
unfolding withdraw_loop choice
withdraw_turn k m ns ps best h = elim (Bool-cases (uses k (peer_of m ps))) [
  | inr f ↦ inl (f, rw (f, withdraw_loop) refl)
  | inl t ↦ elim (cons-cases (other_routes m k (on_peer m (drop k) ps))) [
    | inl q ↦ inr (inl (q, rw (t, withdraw_loop) (rw (q, withdraw_loop) refl)))
    | inr (r, rs, q) ↦ elim (Result-cases (best_path_selection (r ∷ rs))) [
      | inl (b, e) ↦ inr (
          inr (
            b,
            ap best_path_selection q ∙ e,
            rw (q, choice) (rw e refl),
            rw (t, withdraw_loop) (rw (q, withdraw_loop) (rw (e, withdraw_loop) refl)),
          ))
      | inr (z, e) ↦ absurd (
          not-ok_raise
            (rw (e, withdraw_loop) at (rw (q, withdraw_loop) at (rw (t, withdraw_loop) at h))))
    ]
  ]
]

pub offers_dropped :
    (n m j k : Text) (ps : Participants)
    → other_routes n j (on_peer m (drop k) ps) ≡ other_routes n j ps
offers_dropped n m j k ps = on_peer-SameOffers m (drop k) (λ q p. deleted q k p) ps n j

pub offers_put :
    (n m j : Text) (b : Route) (ps : Participants)
    → other_routes n j (on_peer m (put_best b) ps) ≡ other_routes n j ps
offers_put n m j b ps = on_peer-SameOffers m (put_best b) (λ q p. added q b.prefix b p) ps n j

pub rows_dropped :
    (n m k : Text) (ps : Participants)
    → rows_of n k (on_peer m (drop k) ps)
      ≡ (if n == m then on_rows (λ l. []) (rows_of n k ps) else rows_of n k ps)
rows_dropped n m k ps =
    rows_of-on_peer m (drop k) k (λ l. []) (λ p. rows-delete k k p ∙ rw (beq_refl k) refl) n ps

pub rows_dropped_other :
    (n m j k : Text) (ps : Participants)
    → (j == k) ≡ false
    → rows_of n j (on_peer m (drop k) ps) ≡ rows_of n j ps
rows_dropped_other n m j k ps f =
    rows_of-on_peer m (drop k) j (λ l. l) (λ p. rows-delete j k p ∙ rw f refl) n ps
    ∙ rw (on_rows_id (rows_of n j ps)) (either_way (n == m) (rows_of n j ps))

pub rows_put :
    (n m k : Text) (b : Route) (ps : Participants)
    → IsRowFor k b
    → rows_of n k (on_peer m (put_best b) ps)
      ≡ (if n == m then on_rows (λ l. l ++ b ∷ []) (rows_of n k ps) else rows_of n k ps)
rows_put n m k b ps h =
    rows_of-on_peer m (put_best b) k (λ l. l ++ b ∷ [])
      (λ p. rows-add k k b p h ∙ rw (beq_refl k) refl) n ps

pub rows_put_other :
    (n m j k : Text) (b : Route) (ps : Participants)
    → IsRowFor k b
    → (j == k) ≡ false
    → rows_of n j (on_peer m (put_best b) ps) ≡ rows_of n j ps
rows_put_other n m j k b ps h f =
    rows_of-on_peer m (put_best b) j (λ l. l) (λ p. rows-add j k b p h ∙ rw f refl) n ps
    ∙ rw (on_rows_id (rows_of n j ps)) (either_way (n == m) (rows_of n j ps))
