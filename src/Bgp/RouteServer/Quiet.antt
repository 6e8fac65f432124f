-- ===== src/Bgp/RouteServer/Quiet.antt =====
-- Messages that change tables without a decision: a neighbor that goes down, and a shutdown
-- (bgp/route_server.py, bgp/peer.py).
use ixp_irc.Prelude.{
  true, false, List, [], ◌∷◌, ◌++◌, Option, none, some, nat_eq, list_eq, beq_refl, beq_comm,
  if◌then◌else◌, contains, contains-append, Distinct, Result, ok, ◌≡◌, refl, sym, ap, ◌∙◌, arith,
  keys, inl, inr, ◌⊎◌, Bool-cases, ◌==◌, lookup, lookup-append_skip, lookup_head, get, append_assoc,
}
use ixp_irc.Bgp.Text.{Text}
use ixp_irc.Bgp.Peer.{
  Peer, Item, Message, neighbor, notification, update, handle_neighbor, shutdown, go_down,
}
use ixp_irc.Bgp.Rib.{get_all, delete_all, commit}
use ixp_irc.Bgp.Peer.Laws.{has_prefix, go_down_lem}
use ixp_irc.Bgp.Decision.{Participants, on_peer}
use ixp_irc.Bgp.RouteServer.{
  VnhTables, PolicyThread, update_ribs, decide, after_update, round, for_all,
}
use ixp_irc.Bgp.RouteServer.Keys.{send_all-participants, on_peer_absent}

on_peer-append :
    (k : Text) (f : Peer → Peer) (done : Participants) (p : Peer) (rest : Participants)
    → contains k (keys done) ≡ false
    → contains k (keys rest) ≡ false
    → on_peer k f (done ++ (k, p) ∷ rest) ≡ done ++ (k, f p) ∷ rest
unfolding on_peer contains
on_peer-append k f [] p rest h g =
    rw (beq_refl k) (ap (λ x. (k, f p) ∷ x) (on_peer_absent k f rest g))
on_peer-append k f ((j, q) ∷ done) p rest h g = ground (arith, on_peer-append k f done p rest)

keys-append_one :
    (done : Participants) (k : Text) (p : Peer) → keys (done ++ (k, p) ∷ []) ≡ keys done ++ k ∷ []
keys-append_one [] k p = refl
keys-append_one ((j, q) ∷ done) k p = ap (λ x. j ∷ x) (keys-append_one done k p)

-- None of the names stands among the others.
abbrev Apart : List Text → List Text → Type 0
Apart [] others = Unit
Apart (k ∷ ks) others = (contains k others ≡ false) × Apart ks others

Apart-one :
    (ks others : List Text) (k : Text)
    → Apart ks others
    → contains k ks ≡ false
    → Apart ks (others ++ k ∷ [])
unfolding contains
Apart-one [] others k a h = tt
Apart-one (j ∷ ks) others k a h = (
  rw (contains-append j others (k ∷ [])) (ground (arith, a.0, beq_comm j k, h)),
  Apart-one ks others k a.1 (ground arith),
)

abbrev ribs_updated : Option (List Item) → Participants → Result (Option (List Item)) × Participants
ribs_updated l ps = (ok l, ps)

same_outcome :
    {l l' : Option (List Item)} {ps ps' : Participants}
    → l ≡ l'
    → ps ≡ ps'
    → ribs_updated l ps ≡ ribs_updated l' ps'
same_outcome e g = rw e (rw g refl)

-- The messages that the program handles without a result, by a change of each participant.
module _ (message : Message) (f : Peer → Peer)
    (quiet : (p : Peer) → update message p ≡ (ok [], f p)) where
  abbrev final : Option (List Item) → Participants → Option (List Item)
  final l [] = l
  final l (x ∷ xs) = some []

  quiet_turn :
      (k : Text) (p : Peer) (ms : List Text) (l : Option (List Item)) (ps : Participants)
      → lookup k ps ≡ some p
      → update_ribs message (k ∷ ms) l ps
        ≡ update_ribs message ms (some []) (on_peer k (λ q. f p) ps)
  unfolding update_ribs get
  quiet_turn k p ms l ps h =
      let result : (update message p).0 ≡ ok [] = ap (λ u. u.0) (quiet p) in
      let left : (update message p).1 ≡ f p = ap (λ u. u.1) (quiet p) in
      rw (h, update_ribs) (rw (result, update_ribs) (rw left refl))

  final-some : (rest : Participants) → final (some []) rest ≡ some []
  final-some [] = refl
  final-some (x ∷ rest) = refl

  update_ribs-quiet :
      (rest done : Participants) (l : Option (List Item))
      → Distinct (keys rest)
      → Apart (keys rest) (keys done)
      → update_ribs message (keys rest) l (done ++ rest)
        ≡ (ok (final l rest), done ++ for_all f rest)
  unfolding update_ribs for_all
  update_ribs-quiet [] done l d a = refl
  update_ribs-quiet ((k, p) ∷ rest) done l d a =
      quiet_turn k p (keys rest) l (done ++ (k, p) ∷ rest)
        (lookup-append_skip k done ((k, p) ∷ rest) a.0 ∙ lookup_head k p rest)
      ∙ (ap (update_ribs message (keys rest) (some [])) (
            on_peer-append k (λ q. f p) done p rest a.0 d.0
            ∙ sym (append_assoc done ((k, f p) ∷ []) rest))
          ∙ (update_ribs-quiet rest (done ++ (k, f p) ∷ []) (some []) d.1
                (rw (keys-append_one done k (f p)) (Apart-one (keys rest) (keys done) k a.1 d.0))
              ∙ same_outcome (final-some rest)
                  (append_assoc done ((k, f p) ∷ []) (for_all f rest))))

  Apart-none : (ks : List Text) → Apart ks []
  unfolding contains
  Apart-none [] = tt
  Apart-none (k ∷ ks) = (refl, Apart-none ks)

  after_quiet :
      (policies : PolicyThread) (t : VnhTables) (ps qs : Participants)
      → (after_update policies t (final none ps) qs).participants ≡ qs
  unfolding after_update decide
  after_quiet policies t [] qs = refl
  after_quiet policies t (x ∷ ps) qs = send_all-participants policies t [] qs

  pub round-quiet :
      (policies : PolicyThread) (t : VnhTables) (ps : Participants)
      → Distinct (keys ps)
      → (round policies t message ps).participants ≡ for_all f ps
  unfolding round
  round-quiet policies t ps d =
      let q = update_ribs-quiet ps [] none d (Apart-none (keys ps)) in
      let result : (update_ribs message (keys ps) none ps).0 ≡ ok (final none ps) =
        ap (λ u. u.0) q in
      let left : (update_ribs message (keys ps) none ps).1 ≡ for_all f ps = ap (λ u. u.1) q in
      rw (result, round) (rw left (after_quiet policies t ps (for_all f ps)))

abbrev pub down_message : Text → Message
down_message ip = neighbor (record { ip = some ip; is_down = true; update = none })

lookup-for_all :
    (f : Peer → Peer) (name : Text) (ps : Participants) {p : Peer}
    → lookup name ps ≡ some p
    → lookup name (for_all f ps) ≡ some (f p)
unfolding lookup for_all
lookup-for_all f name [] h = cc
lookup-for_all f name ((k, q) ∷ ps) {p} h = elim (Bool-cases (name == k)) [
  | inl t ↦
      let same : some q ≡ some p = (rw (t, lookup) at h) in
      let e : q ≡ p = (cc same) in rw (t, lookup) (ap (λ x. some (f x)) e)
  | inr g ↦ rw (g, lookup) (lookup-for_all f name ps (rw (g, lookup) at h))
]

-- What a participant `p'` is after the neighbor with the address went down, who was `p` before.
abbrev pub AfterDown : Text → Peer → Peer → Type 0
AfterDown ip p p' =
    ((contains ip p.ips ≡ false) × (p' ≡ p))
    ⊎ ((contains ip p.ips ≡ true)
        × (get_all none p'.input ≡ [])
        × ((k : Text)
            → get_all (some k) p'.local
              ≡ (if has_prefix k (get_all none p.input) then [] else get_all (some k) p.local)))

down : Text → Peer → Peer
down ip p = if contains ip p.ips then go_down p else p

down-AfterDown : (ip : Text) (p : Peer) → AfterDown ip p (down ip p)
unfolding down
down-AfterDown ip p = elim (Bool-cases (contains ip p.ips)) [
  | inr f ↦ inl (f, rw f refl)
  | inl t ↦ inr (t, rw t (go_down_lem [] p).0, λ k. rw t (go_down_lem k p).1)
]

-- Let the participants be there once each. After the round for a neighbor that went down, with no
-- update in the message, every participant that has the neighbor's address has no row in `input`, and in `local` no row for a prefix that
-- `input` had and the rows of before for every other; every other participant is the same as before,
-- also in the best routes that it has from that neighbor.
pub round-down :
    (policies : PolicyThread) (t : VnhTables) (ip : Text) (ps : Participants)
    → Distinct (keys ps)
    → (name : Text) (p : Peer) → lookup name ps ≡ some p
    → (p' : Peer) × (lookup name (round policies t (down_message ip) ps).participants ≡ some p')
      × AfterDown ip p p'
unfolding update handle_neighbor down
round-down policies t ip ps d name p h =
    let q = round-quiet (down_message ip) (λ x. down ip x) (λ x. ground arith) policies t ps d in
    (down ip p, rw q (lookup-for_all (λ x. down ip x) name ps h), down-AfterDown ip p)

-- After the round for a shutdown, whoever sent it, every participant, if they are there once each, has
-- no row in either table.
pub round-shutdown :
    (policies : PolicyThread) (t : VnhTables) (ps : Participants)
    → Distinct (keys ps)
    → (name : Text) (p : Peer) → lookup name ps ≡ some p
    → (p' : Peer) × (lookup name (round policies t (notification true) ps).participants ≡ some p')
      × (get_all none p'.input ≡ [])
      × (get_all none p'.local ≡ [])
unfolding update shutdown get_all delete_all commit
round-shutdown policies t ps d name p h =
    let q = round-quiet (notification true) shutdown (λ x. refl) policies t ps d in
    (shutdown p, rw q (lookup-for_all shutdown name ps h), refl, refl)
