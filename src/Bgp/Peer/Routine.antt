-- ===== src/Bgp/Peer/Routine.antt =====
-- What a message that is no "down" and no shutdown does to a participant (bgp/peer.py).
use ixp_irc.Prelude.{
  true, false, List, [], Option, none, some, nat_eq, list_eq, inl, inr, ◌⊎◌, contains, ok, ◌≡◌,
  refl, sym, ◌∙◌, Bool-cases, Option-cases, ok-injective,
}
use ixp_irc.Bgp.Text.{Text}
use ixp_irc.Bgp.Rib.{Route}
use ixp_irc.Bgp.Peer.{
  Peer, Item, withdraw_all, Message, Neighbor, Update, neighbor, notification, other, handle_update,
  handle_neighbor, update, values_of,
}
use ixp_irc.Bgp.Peer.Effects.{
  announced_items, withdrawn_items, Announces, Withdraws, announce_all-Announces,
  withdraw_all-Withdraws,
}

-- Announced routes, or withdrawn ones, with what they do to the tables.
abbrev pub Effect : Peer → List Item → Peer → Type 0
Effect p items p' =
    ((rs : List Route) × (items ≡ announced_items rs) × Announces p rs p')
    ⊎ ((os : List (Option Route)) × (items ≡ withdrawn_items os) × Withdraws p os p')

-- The message is neither a neighbor's "down" nor a shutdown.
abbrev pub IsRoutine : Message → Type 0
IsRoutine (neighbor m) = m.is_down ≡ false
IsRoutine (notification b) = b ≡ false
IsRoutine other = Unit

no-Effect : (p : Peer) {items : List Item} → ok [] ≡ ok items → Effect p items p
no-Effect p e = inl ([], sym (ok-injective e), (refl, (λ j q. q), (λ j c. refl)))

withdraw-Effect :
    (ks : List Text) (p : Peer) {items : List Item}
    → ok (withdraw_all ks [] p).0 ≡ ok items
    → Effect p items (withdraw_all ks [] p).1
withdraw-Effect ks p e =
    let (os, i, w) = withdraw_all-Withdraws ks [] p in inr (os, sym (ok-injective e) ∙ i, w)

handle_update-Effect :
    (u : Update) (p : Peer) {items : List Item}
    → (handle_update u p).0 ≡ ok items
    → Effect p items (handle_update u p).1
unfolding handle_update
handle_update-Effect u p e = elim (Option-cases u.announce) [
  | inr (none, q) ↦ rw (q, handle_update) (no-Effect p (rw (q, handle_update) at e))
  | inr (some ds, q) ↦
      rw (q, handle_update)
        (inl (announce_all-Announces (values_of u.attribute) ds [] p (rw (q, handle_update) at e)))
  | inl q ↦ elim (Option-cases u.withdraw) [
    | inl r ↦
        rw (q, handle_update)
          (rw (r, handle_update)
            (no-Effect p (rw (r, handle_update) at (rw (q, handle_update) at e))))
    | inr (none, r) ↦
        rw (q, handle_update)
          (rw (r, handle_update)
            (no-Effect p (rw (r, handle_update) at (rw (q, handle_update) at e))))
    | inr (some ks, r) ↦
        rw (q, handle_update)
          (rw (r, handle_update)
            (withdraw-Effect ks p (rw (r, handle_update) at (rw (q, handle_update) at e))))
  ]
]

handle_neighbor-cases :
    (m : Neighbor) (p : Peer)
    → m.is_down ≡ false
    → (handle_neighbor m p ≡ (ok [], p))
      ⊎ ((u : Update) × (handle_neighbor m p ≡ handle_update u p))
unfolding handle_neighbor
handle_neighbor-cases m p up = elim (Option-cases m.ip) [
  | inl q ↦ inl (rw (q, handle_neighbor) refl)
  | inr (ip, q) ↦ elim (Bool-cases (contains ip p.ips)) [
    | inr f ↦ inl (rw (q, handle_neighbor) (rw (f, handle_neighbor) refl))
    | inl t ↦ elim (Option-cases m.update) [
      | inl r ↦
          inl (
            rw (q, handle_neighbor)
              (rw (t, handle_neighbor) (rw (r, handle_neighbor) (rw up refl))))
      | inr (u, r) ↦ inr (
        u,
        rw (q, handle_neighbor) (rw (t, handle_neighbor) (rw (r, handle_neighbor) (rw up refl))),
      )
    ]
  ]
]

handle_neighbor-Effect :
    (m : Neighbor) (p : Peer) {items : List Item}
    → m.is_down ≡ false
    → (handle_neighbor m p).0 ≡ ok items
    → Effect p items (handle_neighbor m p).1
handle_neighbor-Effect m p up e = elim (handle_neighbor-cases m p up) [
  | inl q ↦ rw q (no-Effect p (rw q at e))
  | inr (u, q) ↦ rw q (handle_update-Effect u p (rw q at e))
]

pub update-Effect :
    (message : Message) (p : Peer) {items : List Item}
    → IsRoutine message
    → (update message p).0 ≡ ok items
    → Effect p items (update message p).1
unfolding update
update-Effect (neighbor m) p h e = handle_neighbor-Effect m p h e
update-Effect (notification true) p h e = cc
update-Effect (notification false) p h e = no-Effect p e
update-Effect other p h e = no-Effect p e
