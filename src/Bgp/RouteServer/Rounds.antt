-- ===== src/Bgp/RouteServer/Rounds.antt =====
-- The tables of the participants over the rounds of the route server (bgp/route_server.py).
use ixp_irc.Prelude.{
  List, [], ◌∷◌, Option, none, some, nat_eq, list_eq, inl, inr, ◌⊎◌, Distinct, Result, ok, ◌≡◌,
  refl, sym, ap, ◌∙◌, arith, keys, lookup, get, Result-cases, not-ok_raise, Option-cases,
  cons-cases, ok-injective, Bool-cases, filter, ◌==◌,
}
use ixp_irc.Bgp.Text.{Text}
use ixp_irc.Bgp.Rib.{Route, get_all}
use ixp_irc.Bgp.Peer.{Peer, Item, Message, update, get_routes, local_rib}
use ixp_irc.Bgp.Peer.Routine.{IsRoutine, update-Effect}
use ixp_irc.Bgp.Decision.{Participants, Best, other_routes, peer_of}
use ixp_irc.Bgp.Decision.Rows.{rows_of, choice}
use ixp_irc.Bgp.Decision.Loops.{some-injective}
use ixp_irc.Bgp.RouteServer.{
  VnhTables, PolicyThread, update_ribs, decide, send_all, after_update, round,
}
use ixp_irc.Bgp.RouteServer.Decided.{decide_announced, decide_withdrawn}
use ixp_irc.Bgp.RouteServer.Keys.{keys-on_peer, send_all-participants, keys-round}
use ixp_irc.Bgp.RouteServer.Updates.{
  IsDecided, set_peer, Prepared, Effect-Prepared, Prepared-IsDecided,
}

get-lookup : (ps : Participants) (m : Text) {p : Peer} → get ps m ≡ ok p → lookup m ps ≡ some p
unfolding get
get-lookup ps m {p} h = elim (Option-cases (lookup m ps)) [
  | inl q ↦ let z : Result.raise _ ≡ ok p = (rw (q, get) at h) in cc
  | inr (x, q) ↦ let z : ok x ≡ ok p = (rw (q, get) at h) in q ∙ ap some (ok-injective z)
]

-- One turn of the first loop that does not raise.
update_turn :
    (message : Message) (m : Text) (ms : List Text) (l : Option (List Item)) (ps : Participants)
    {items : Option (List Item)}
    → (update_ribs message (m ∷ ms) l ps).0 ≡ ok items
    → (p : Peer) × (is : List Item) × (lookup m ps ≡ some p)
      × ((update message p).0 ≡ ok is)
      × (((is ≡ [])
            × (update_ribs message (m ∷ ms) l ps
                ≡ update_ribs message ms (some []) (set_peer m (update message p).1 ps)))
          ⊎ (update_ribs message (m ∷ ms) l ps
              ≡ (ok (some is), set_peer m (update message p).1 ps)))
unfolding update_ribs
update_turn message m ms l ps h = elim (Result-cases (get ps m)) [
  | inr (x, q) ↦ absurd (not-ok_raise (rw (q, update_ribs) at h))
  | inl (p, q) ↦ elim (Result-cases (update message p).0) [
    | inr (x, e) ↦ absurd (not-ok_raise (rw (e, update_ribs) at (rw (q, update_ribs) at h)))
    | inl (is, e) ↦ elim (cons-cases is) [
      | inl z ↦ (
        p,
        is,
        get-lookup ps m q,
        e,
        inl (z, rw (q, update_ribs) (rw (e ∙ ap ok z, update_ribs) refl)),
      )
      | inr (i, rest, z) ↦ (
        p,
        is,
        get-lookup ps m q,
        e,
        inr (rw (q, update_ribs) (rw (e ∙ ap ok z, update_ribs) (rw z refl))),
      )
    ]
  ]
]

update_ribs-Prepared :
    (message : Message) (ms : List Text) (l : Option (List Item)) (ps : Participants)
    {items : List Item}
    → IsRoutine message
    → Distinct (keys ps)
    → IsDecided ps
    → (l ≡ none) ⊎ (l ≡ some [])
    → (update_ribs message ms l ps).0 ≡ ok (some items)
    → Prepared items (update_ribs message ms l ps).1
unfolding update_ribs
update_ribs-Prepared message [] l ps {items} r d decided (inl z) h =
    let y : none ≡ some items = sym z ∙ ok-injective h in cc
update_ribs-Prepared message [] l ps {items} r d decided (inr z) h =
    let y : some [] ≡ some items = sym z ∙ ok-injective h in
    let e : items ≡ [] = (cc y) in inl ([], e, λ n j. inl (decided n j))
update_ribs-Prepared message (m ∷ ms) l ps {items} r d decided before h =
    let (p, is, found, e, next) = update_turn message m ms l ps h in
    let p' = (update message p).1 in
    let prepared : Prepared is (set_peer m p' ps) =
      Effect-Prepared m p p' ps is d found decided (update-Effect message p r e) in
    let same : keys (set_peer m p' ps) ≡ keys ps = keys-on_peer m _ ps in
    elim next [
      | inl (z, q) ↦ rw q (
          update_ribs-Prepared message ms (some []) (set_peer m p' ps) r (rw same d)
            (Prepared-IsDecided (set_peer m p' ps) (rw z at prepared)) (inr refl) (rw q at h))
      | inr q ↦
          let z : ok (some is) ≡ ok (some items) = (rw q at h) in
          let y : is ≡ items = cc z in rw q (rw y at prepared)
    ]

decide-IsDecided :
    (items : List Item) (ps : Participants) {updates : List Best}
    → Prepared items ps
    → (decide items [] ps).0 ≡ ok updates
    → IsDecided (decide items [] ps).1
decide-IsDecided items ps (inl (rs, i, a)) h n j =
    rw i (decide_announced n j rs [] ps (rw i at h) (a n j))
decide-IsDecided items ps (inr (os, i, a)) h n j =
    rw i (decide_withdrawn n j os [] ps (rw i at h) (a n j))

after_update-IsDecided :
    (policies : PolicyThread) (t : VnhTables) (items : Option (List Item)) (ps : Participants)
    → ((is : List Item) → items ≡ some is → Prepared is ps)
    → (after_update policies t items ps).result ≡ ok tt
    → IsDecided (after_update policies t items ps).participants
unfolding after_update
after_update-IsDecided policies t none ps a h = absurd (not-ok_raise h)
after_update-IsDecided policies t (some is) ps a h = elim (Result-cases (decide is [] ps).0) [
  | inr (x, q) ↦ absurd (not-ok_raise (rw (q, after_update) at h))
  | inl (updates, q) ↦
      let e : (send_all policies t is (decide is [] ps).1).participants ≡ (decide is [] ps).1 =
        send_all-participants policies t is (decide is [] ps).1 in
      rw (q, after_update) (rw e (decide-IsDecided is ps (a is refl) q))
]

-- A round that ends without an exception, for a message that is neither a "down" nor a shutdown and
-- with any policy thread, keeps it, for participants that are there once each, that every
-- participant's `local` holds, for every prefix, what the rules choose among the routes that the
-- others announced.
pub round-IsDecided :
    (policies : PolicyThread) (t : VnhTables) (message : Message) (ps : Participants)
    → IsRoutine message
    → Distinct (keys ps)
    → IsDecided ps
    → (round policies t message ps).result ≡ ok tt
    → IsDecided (round policies t message ps).participants
unfolding round
round-IsDecided policies t message ps r d decided h =
    elim (Result-cases (update_ribs message (keys ps) none ps).0) [
      | inr (x, q) ↦ absurd (not-ok_raise (rw (q, round) at h))
      | inl (items, q) ↦
          rw (q, round)
            (after_update-IsDecided policies t items (update_ribs message (keys ps) none ps).1
              (λ is e.
                update_ribs-Prepared message (keys ps) none ps r d decided (inl refl) (q ∙ ap ok e))
              (rw (q, round) at h))
    ]

-- A round of the route server that takes a routine message and ends without an exception: the tables of
-- the virtual next hops before it and the policy thread are whatever they are.
pub data Rounds : Participants → Participants → Type 0 where
  begun : {ps : Participants} → Rounds ps ps
  then_round :
      {ps ps' : Participants} (policies : PolicyThread) (t : VnhTables) (message : Message)
      → Rounds ps ps'
      → IsRoutine message
      → (round policies t message ps').result ≡ ok tt
      → Rounds ps (round policies t message ps').participants

abbrev HasEmptyTables : Peer → Type 0
HasEmptyTables p = (p.input.rows ≡ []) × (p.local.rows ≡ [])

-- The participants as the route server starts with new tables.
abbrev pub HaveEmptyTables : Participants → Type 0
HaveEmptyTables [] = Unit
HaveEmptyTables ((name, p) ∷ ps) = HasEmptyTables p × HaveEmptyTables ps

keys-Rounds : {ps ps' : Participants} → Rounds ps ps' → keys ps' ≡ keys ps
keys-Rounds begun = refl
keys-Rounds (then_round {ps' = ps'} policies t message rs r h) =
    keys-round policies t message ps' ∙ keys-Rounds rs

pub Rounds-IsDecided :
    {ps ps' : Participants} → Rounds ps ps' → Distinct (keys ps) → IsDecided ps → IsDecided ps'
Rounds-IsDecided begun d decided = decided
Rounds-IsDecided (then_round {ps' = ps'} policies t message rs r h) d decided =
    round-IsDecided policies t message ps' r (rw (keys-Rounds rs) d) (Rounds-IsDecided rs d decided)
      h

empty_offers : (n j : Text) (ps : Participants) → HaveEmptyTables ps → other_routes n j ps ≡ []
unfolding other_routes get_routes get_all filter
empty_offers n j [] h = refl
empty_offers n j ((k, p) ∷ ps) h = ground (arith, empty_offers n j ps h.1, h.0.0)

no_rows : (j : Text) (p : Peer) → HasEmptyTables p → get_routes local_rib j p ≡ []
unfolding get_routes get_all filter
no_rows j p h = rw h.1 refl

empty_rows :
    (n j : Text) (ps : Participants) (l : List Route)
    → HaveEmptyTables ps
    → rows_of n j ps ≡ some l
    → l ≡ []
unfolding rows_of peer_of
empty_rows n j [] l h e = cc
empty_rows n j ((k, p) ∷ ps) l h e = elim (Bool-cases (n == k)) [
  | inl t ↦
      let z : some (get_routes local_rib j p) ≡ some l = (rw (t, rows_of) at e) in
      sym (some-injective z) ∙ no_rows j p h.0
  | inr f ↦ empty_rows n j ps l h.1 (rw (f, rows_of) at e)
]

-- From participants with empty tables, each there once, any sequence of rounds of the route server in
-- which no message is a "down" or a shutdown and no round ends with an exception leads to tables in
-- which every participant's `local` has, for every prefix, no route if the others have announced none
-- for it, and else exactly the one that `best_path_selection` chooses among all that they announced.
pub Rounds-from_empty :
    (ps ps' : Participants)
    → HaveEmptyTables ps
    → Distinct (keys ps)
    → Rounds ps ps'
    → IsDecided ps'
unfolding choice
Rounds-from_empty ps ps' h d rs = Rounds-IsDecided rs d (λ n j l e.
    let none_offered : other_routes n j ps ≡ [] = empty_offers n j ps h in
    let no_route : l ≡ [] = empty_rows n j ps l h e in rw none_offered (ap ok (sym no_route)))
