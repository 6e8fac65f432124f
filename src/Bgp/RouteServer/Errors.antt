-- ===== src/Bgp/RouteServer/Errors.antt =====
-- A withdrawal of a route that was never announced (bgp/route_server.py).
use ixp_irc.Prelude.{
  true, false, List, [], ◌∷◌, Option, none, some, nat_eq, list_eq, beq_refl, beq_comm, list_beq_iff,
  ◌==◌, if◌then◌else◌, Bool-cases, inl, inr, In, contains, get, lookup, Dict, ◌≡◌, ◌≢◌, refl, sym,
  ap, ◌∙◌, keys, ok, raise, type_error,
}
use ixp_irc.Bgp.Text.{Text}
use ixp_irc.Bgp.Rib.{delete, commit}
use ixp_irc.Bgp.Rib.{get as get_row}
use ixp_irc.Bgp.Peer.{
  Attribute, Message, neighbor, Item, withdrawn, Peer, handle_neighbor, handle_update, withdraw_all,
  update,
}
use ixp_irc.Bgp.Decision.{Participants, decision_process, on_peer}
use ixp_irc.Bgp.RouteServer.{
  VnhTables, PolicyThread, update_ribs, decide, withdrawal, withdrawals, send_all, after_update,
  round, put_all,
}

-- The message of a neighbor that withdraws one prefix.
abbrev pub withdraw_message : Text → Option Attribute → Text → Message
withdraw_message ip attribute prefix = neighbor (record {
  ip = some ip;
  is_down = false;
  update =
      some
        (record { attribute = attribute; announce = none; withdraw = some (some (prefix ∷ [])) });
})

-- No participant with the address has a route for the prefix.
abbrev pub IsUnknown : Text → Text → Participants → Type 0
IsUnknown ip prefix ps =
    (n : Text) (q : Peer)
    → lookup n ps ≡ some q
    → contains ip q.ips ≡ true
    → get_row prefix q.input ≡ none

keys-found : (ps : Participants) (m : Text) → In m (keys ps) → (q : Peer) × (lookup m ps ≡ some q)
unfolding lookup
keys-found [] m i = absurd i
keys-found ((k, p) ∷ ps) m i = elim (Bool-cases (m == k)) [
  | inl t ↦ (p, rw (t, lookup) refl)
  | inr f ↦ elim i [
    | inl z ↦ let clash : true ≡ false = sym (beq_refl m) ∙ (ap (λ x. m == x) z ∙ f) in cc
    | inr j ↦ let (q, e) = keys-found ps m j in (q, rw (f, lookup) e)
  ]
]

found-keys : (m : Text) (ps : Participants) {q : Peer} → lookup m ps ≡ some q → In m (keys ps)
unfolding lookup
found-keys m [] h = cc
found-keys m ((k, p) ∷ ps) h = elim (Bool-cases (m == k)) [
  | inl t ↦ inl ((list_beq_iff m k).0 t)
  | inr f ↦ inr (found-keys m ps (rw (f, lookup) at h))
]

lookup-on_peer_other :
    (m : Text) (f : Peer → Peer) (n : Text) (ps : Participants)
    → (n == m) ≡ false
    → lookup n (on_peer m f ps) ≡ lookup n ps
unfolding lookup on_peer
lookup-on_peer_other m f n [] h = refl
lookup-on_peer_other m f n ((k, p) ∷ ps) h = elim (Bool-cases (n == k)) [
  | inr g ↦ rw (g, lookup) (lookup-on_peer_other m f n ps h)
  | inl t ↦
      let e : n ≡ k = (list_beq_iff n k).0 t in
      let g : (m == k) ≡ false = ap (λ x. m == x) (sym e) ∙ (beq_comm m n ∙ h) in
      rw (t, lookup) (rw g refl)
]

-- Who is put back as he is.
lookup-on_peer_same :
    (m : Text) (p : Peer) (ps : Participants)
    → lookup m ps ≡ some p
    → (n : Text) → lookup n (on_peer m (λ x. p) ps) ≡ lookup n ps
unfolding lookup on_peer
lookup-on_peer_same m p [] h n = refl
lookup-on_peer_same m p ((k, q) ∷ ps) h n = elim (Bool-cases (m == k)) [
  | inr f ↦
      rw f (
        ap (λ x. if n == k then some q else x) (lookup-on_peer_same m p ps (rw (f, lookup) at h) n))
  | inl t ↦
      let same : some q ≡ some p = (rw (t, lookup) at h) in
      let e : m ≡ k = (list_beq_iff m k).0 t in
      rw t (elim (Bool-cases (n == k)) [
        | inl u ↦ rw (u, lookup) (sym same)
        | inr f ↦ rw (f, lookup) (lookup-on_peer_other m (λ x. p) n ps (ap (λ x. n == x) e ∙ f))
      ])
]

update_ribs-hit :
    (message : Message) (m : Text) (p p' : Peer) (names : List Text) (l : Option (List Item))
    (ps : Participants) (x : Item) (xs : List Item)
    → lookup m ps ≡ some p
    → update message p ≡ (ok (x ∷ xs), p')
    → update_ribs message (m ∷ names) l ps ≡ (ok (some (x ∷ xs)), on_peer m (λ q. p') ps)
unfolding update_ribs get
update_ribs-hit message m p p' names l ps x xs e h =
    let result : (update message p).0 ≡ ok (x ∷ xs) = ap (λ u. u.0) h in
    let peer : (update message p).1 ≡ p' = ap (λ u. u.1) h in
    rw (e, update_ribs) (rw (result, update_ribs) (rw peer refl))

update_ribs-pass :
    (message : Message) (m : Text) (p : Peer) (names : List Text) (l : Option (List Item))
    (ps : Participants)
    → lookup m ps ≡ some p
    → update message p ≡ (ok [], p)
    → update_ribs message (m ∷ names) l ps
      ≡ update_ribs message names (some []) (on_peer m (λ q. p) ps)
unfolding update_ribs get
update_ribs-pass message m p names l ps e h =
    let result : (update message p).0 ≡ ok [] = ap (λ u. u.0) h in
    let peer : (update message p).1 ≡ p = ap (λ u. u.1) h in
    rw (e, update_ribs) (rw (result, update_ribs) (rw peer refl))

module _ (ip prefix : Text) (attribute : Option Attribute) where
  abbrev message : Message
  message = withdraw_message ip attribute prefix

  after : Peer → Peer
  after p = record p { input = commit (delete prefix p.input) }

  update-withdraw_unknown :
      (p : Peer)
      → contains ip p.ips ≡ true
      → get_row prefix p.input ≡ none
      → update message p ≡ (ok (withdrawn none ∷ []), after p)
  unfolding update handle_neighbor handle_update withdraw_all after
  update-withdraw_unknown p known unknown = rw (known, handle_neighbor) (rw unknown refl)

  update-other : (p : Peer) → contains ip p.ips ≡ false → update message p ≡ (ok [], p)
  unfolding update handle_neighbor
  update-other p other = rw (other, handle_neighbor) refl

  -- Where a participant with the address stands among the names, the first one ends the loop.
  update_ribs-unknown :
      (names : List Text) (l : Option (List Item)) (ps : Participants) (name : Text) (p : Peer)
      → ((m : Text) → In m names → (q : Peer) × (lookup m ps ≡ some q))
      → IsUnknown ip prefix ps
      → In name names
      → lookup name ps ≡ some p
      → contains ip p.ips ≡ true
      → (update_ribs message names l ps).0 ≡ ok (some (withdrawn none ∷ []))
  update_ribs-unknown [] l ps name p found unknown i h known = absurd i
  update_ribs-unknown (m ∷ names) l ps name p found unknown i h known =
      let (q, e) = found m (inl refl) in
      elim (Bool-cases (contains ip q.ips)) [
        | inl t ↦
            ap (λ u. u.0)
              (update_ribs-hit message m q (after q) names l ps (withdrawn none) [] e
                (update-withdraw_unknown q t (unknown m q e t)))
        | inr f ↦
            let ps' = on_peer m (λ x. q) ps in
            let same : (n : Text) → lookup n ps' ≡ lookup n ps = lookup-on_peer_same m q ps e in
            let r =
              update_ribs-unknown names (some []) ps' name p
                (λ n j. let (q', e') = found n (inr j) in (q', same n ∙ e'))
                (λ n q' e'. unknown n q' (sym (same n) ∙ e'))
                (elim i [
                  | inr j ↦ j
                  | inl z ↦
                      let both : some p ≡ some q = sym h ∙ (ap (λ x. lookup x ps) z ∙ e) in
                      let alike : p ≡ q = (cc both) in
                      let clash : true ≡ false =
                        sym known ∙ (ap (λ (x : Peer). contains ip x.ips) alike ∙ f) in
                      cc
                ])
                (same name ∙ h) known in
            ap (λ u. u.0) (update_ribs-pass message m q names l ps e (update-other q f)) ∙ r
      ]

send_all_unknown :
    (policies : PolicyThread) (t : VnhTables) (ps : Participants)
    → t.vnh_2_pfx ≢ []
    → ((send_all policies t (withdrawn none ∷ []) ps).sent ≡ [])
      × ((send_all policies t (withdrawn none ∷ []) ps).result ≡ raise type_error)
unfolding send_all withdrawals withdrawal put_all
send_all_unknown policies t ps h =
    let q : (withdrawal t.vnh_2_ip none t.vnh_2_pfx ≡ raise type_error) = raises t.vnh_2_pfx h in
    let w : withdrawals t (withdrawn none ∷ []) ≡ ([], raise type_error) =
      ap (λ x. put_all x ([], ok tt)) q in
    (rw (ap (λ s. s.1) w, send_all) (ap (λ s. s.0) w), rw (ap (λ s. s.1) w, send_all) refl)
  where
    raises : (d : Dict Text (List Text)) → d ≢ [] → withdrawal t.vnh_2_ip none d ≡ raise type_error
    raises [] ne = absurd (ne refl)
    raises (v ∷ d) ne = refl

-- Let a neighbor withdraw a prefix, in a message with this one prefix, that no participant with the
-- neighbor's address has a route for, while some participant has the address and some virtual next
-- hop is in use. Then the round raises a TypeError, whatever the policy thread would do, and sends
-- nothing.
pub round-withdraw_unknown :
    (policies : PolicyThread) (t : VnhTables) (ip prefix name : Text) (attribute : Option Attribute)
    (p : Peer) (ps : Participants)
    → IsUnknown ip prefix ps
    → lookup name ps ≡ some p
    → contains ip p.ips ≡ true
    → t.vnh_2_pfx ≢ []
    → ((round policies t (withdraw_message ip attribute prefix) ps).sent ≡ [])
      × ((round policies t (withdraw_message ip attribute prefix) ps).result ≡ raise type_error)
unfolding round after_update decide decision_process
round-withdraw_unknown policies t ip prefix name attribute p ps unknown h known some_vnh =
    let q =
      update_ribs-unknown ip prefix attribute (keys ps) none ps name p (keys-found ps) unknown
        (found-keys name ps h) h known in
    rw (q, round) (send_all_unknown policies t _ some_vnh)
