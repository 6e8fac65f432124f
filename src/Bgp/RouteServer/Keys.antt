-- ===== src/Bgp/RouteServer/Keys.antt =====
-- The participants of the route server stay the same (bgp/route_server.py, bgp/decision_process.py).
use ixp_irc.Prelude.{
  false, List, [], ◌∷◌, ◌++◌, Option, none, some, nat_eq, list_eq, inl, inr, ok, ◌≡◌, refl, ap, ◌∙◌,
  arith, keys, cons-cases, Result-cases, Bool-cases, get, contains,
}
use ixp_irc.Bgp.Text.{Text}
use ixp_irc.Bgp.Peer.{
  Peer, Item, announced, withdrawn, Message, update, local_rib, add_route, delete_route,
}
use ixp_irc.Bgp.Decision.{
  Participants, Best, announce_best, withdraw_best, on_peer, peer_of, uses, other_routes,
  best_path_selection, announce_loop, withdraw_loop, decision_process,
}
use ixp_irc.Bgp.Decision.Inputs.{announce_none-participants}
use ixp_irc.Bgp.RouteServer.{
  VnhTables, PolicyThread, update_ribs, decide, withdrawals, send_all, after_update, round,
}

pub keys-on_peer :
    (m : Text) (f : Peer → Peer) (ps : Participants) → keys (on_peer m f ps) ≡ keys ps
unfolding on_peer
keys-on_peer m f [] = refl
keys-on_peer m f ((other, p) ∷ ps) = rw (keys-on_peer m f ps)

-- Who is no participant has no tables to change.
pub on_peer_absent :
    (m : Text) (f : Peer → Peer) (ps : Participants)
    → contains m (keys ps) ≡ false
    → on_peer m f ps ≡ ps
unfolding on_peer contains
on_peer_absent m f [] h = refl
on_peer_absent m f ((k, q) ∷ ps) h = ground (arith, on_peer_absent m f ps)

pub keys-announce_loop :
    (k : Text) (ns : List Text) (ps : Participants) (best : List Best)
    → keys (announce_loop k ns ps best).1 ≡ keys ps
unfolding announce_loop
keys-announce_loop k [] ps best = refl
keys-announce_loop k (m ∷ ns) ps best = elim (cons-cases (other_routes m k ps)) [
  | inl q ↦ rw (q, announce_loop) (keys-announce_loop k ns ps best)
  | inr (r, rs, q) ↦ elim (Result-cases (best_path_selection (r ∷ rs))) [
    | inl (b, e) ↦
        rw (q, announce_loop)
          (rw (e, announce_loop)
            (keys-announce_loop k ns
                (on_peer m (λ p. add_route local_rib b.prefix b (delete_route local_rib k p)) ps)
                (best ++ announce_best b ∷ [])
              ∙ keys-on_peer m _ ps))
    | inr (x, e) ↦ rw (q, announce_loop) (rw (e, announce_loop) refl)
  ]
]

pub keys-withdraw_loop :
    (k : Text) (ns : List Text) (ps : Participants) (best : List Best)
    → keys (withdraw_loop k ns ps best).1 ≡ keys ps
unfolding withdraw_loop
keys-withdraw_loop k [] ps best = refl
keys-withdraw_loop k (m ∷ ns) ps best = elim (Bool-cases (uses k (peer_of m ps))) [
  | inr f ↦ rw (f, withdraw_loop) (keys-withdraw_loop k ns ps best)
  | inl t ↦
      let ps' = on_peer m (delete_route local_rib k) ps in
      rw (t, withdraw_loop)
        (elim (cons-cases (other_routes m k ps')) [
          | inl q ↦ rw (q, withdraw_loop) (keys-withdraw_loop k ns ps' best ∙ keys-on_peer m _ ps)
          | inr (r, rs, q) ↦ elim (Result-cases (best_path_selection (r ∷ rs))) [
            | inl (b, e) ↦
                rw (q, withdraw_loop)
                  (rw (e, withdraw_loop)
                    (keys-withdraw_loop k ns (on_peer m (add_route local_rib b.prefix b) ps')
                        (best ++ withdraw_best b ∷ [])
                      ∙ (keys-on_peer m _ ps' ∙ keys-on_peer m _ ps)))
            | inr (x, e) ↦ rw (q, withdraw_loop) (rw (e, withdraw_loop) (keys-on_peer m _ ps))
          ]
        ])
]

pub keys-decision_process :
    (ps : Participants) (item : Item) → keys (decision_process ps item).1 ≡ keys ps
unfolding decision_process
keys-decision_process ps (announced none) = ap keys (announce_none-participants ps)
keys-decision_process ps (announced (some r)) = keys-announce_loop r.prefix (keys ps) ps []
keys-decision_process ps (withdrawn none) = refl
keys-decision_process ps (withdrawn (some r)) = keys-withdraw_loop r.prefix (keys ps) ps []

pub keys-decide :
    (items : List Item) (updates : List Best) (ps : Participants)
    → keys (decide items updates ps).1 ≡ keys ps
unfolding decide
keys-decide [] updates ps = refl
keys-decide (item ∷ items) updates ps = elim (Result-cases (decision_process ps item).0) [
  | inl (best, e) ↦
      rw (e, decide)
        (keys-decide items (updates ++ best) (decision_process ps item).1
          ∙ keys-decision_process ps item)
  | inr (x, e) ↦ rw (e, decide) (keys-decision_process ps item)
]

keys-update_ribs :
    (message : Message) (ms : List Text) (l : Option (List Item)) (ps : Participants)
    → keys (update_ribs message ms l ps).1 ≡ keys ps
unfolding update_ribs
keys-update_ribs message [] l ps = refl
keys-update_ribs message (m ∷ ms) l ps = elim (Result-cases (get ps m)) [
  | inr (x, q) ↦ rw (q, update_ribs) refl
  | inl (p, q) ↦
      let same : keys (on_peer m (λ y. (update message p).1) ps) ≡ keys ps = keys-on_peer m _ ps in
      elim (Result-cases (update message p).0) [
        | inr (x, e) ↦ rw (q, update_ribs) (rw (e, update_ribs) same)
        | inl (is, e) ↦ elim (cons-cases is) [
          | inl z ↦
              rw (q, update_ribs)
                (rw (e ∙ ap ok z, update_ribs)
                  (keys-update_ribs message ms (some []) (on_peer m (λ y. (update message p).1) ps)
                    ∙ same))
          | inr (i, rest, z) ↦ rw (q, update_ribs) (rw (e ∙ ap ok z, update_ribs) same)
        ]
      ]
]

pub send_all-participants :
    (policies : PolicyThread) (t : VnhTables) (items : List Item) (ps : Participants)
    → (send_all policies t items ps).participants ≡ ps
unfolding send_all
send_all-participants policies t items ps = elim (Result-cases (withdrawals t items).1) [
  | inl (sent, q) ↦ rw (q, send_all) refl
  | inr (x, q) ↦ rw (q, send_all) refl
]

keys-after_update :
    (policies : PolicyThread) (t : VnhTables) (items : Option (List Item)) (ps : Participants)
    → keys (after_update policies t items ps).participants ≡ keys ps
unfolding after_update
keys-after_update policies t none ps = refl
keys-after_update policies t (some is) ps = elim (Result-cases (decide is [] ps).0) [
  | inr (x, q) ↦ rw (q, after_update) (keys-decide is [] ps)
  | inl (updates, q) ↦
      rw (q, after_update)
        (ap keys (send_all-participants policies t is (decide is [] ps).1) ∙ keys-decide is [] ps)
]

-- Whatever happens in a round.
pub keys-round :
    (policies : PolicyThread) (t : VnhTables) (message : Message) (ps : Participants)
    → keys (round policies t message ps).participants ≡ keys ps
unfolding round
keys-round policies t message ps = elim (Result-cases (update_ribs message (keys ps) none ps).0) [
  | inr (x, q) ↦ rw (q, round) (keys-update_ribs message (keys ps) none ps)
  | inl (items, q) ↦
      rw (q, round)
        (keys-after_update policies t items (update_ribs message (keys ps) none ps).1
          ∙ keys-update_ribs message (keys ps) none ps)
]
