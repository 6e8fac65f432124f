-- ===== src/Bgp/RouteServer.antt =====
-- bgp/route_server.py: one round of the loop of `start`, for a message that has been decoded; with
-- `announce_route` and `withdraw_route` of bgp/peer.py, the texts that are sent, and
-- `decision_process_simple` of bgp/decision_process_simple.py.
pub mod Errors
pub mod Keys
pub mod Decided
pub mod Updates
pub mod Rounds
pub mod Quiet
pub mod Announcing
pub mod Tests
use ixp_irc.Prelude.{
  ℕ, Bool, true, false, List, [], ◌∷◌, ◌++◌, Option, none, some, nat_eq, list_eq, ◌==◌, contains,
  get, if◌then◌else◌, Dict, keys, Exception, Result, ok, raise, ◌>>=◌, type_error, index_error,
  get_elem?,
}
use ixp_irc.Bgp.Text.{Text, codes}
use ixp_irc.Bgp.Rib.{Route, Rib, delete, add, commit}
use ixp_irc.Bgp.Peer.{Peer, Item, announced, withdrawn, Message, local_rib, get_route, update}
use ixp_irc.Bgp.Decision.{Participants, Best, decision_process, on_peer}

-- `"announce route " + … + " next-hop " + … + " as-path [ " + … + " ]"` for a row of a table: with
-- the next hop that is given if it is not empty, else with the row's own.
unfoldable pub route_text : Text → Route → Text → Text
route_text verb route next_hop =
    let inext_hop : Text = elim next_hop [ [] ↦ route.next_hop | c ∷ cs ↦ c ∷ cs ] in
    verb
    ++ (codes " route "
        ++ (route.prefix
            ++ (codes " next-hop "
                ++ (inext_hop ++ (codes " as-path [ " ++ (route.as_path ++ codes " ]"))))))

unfoldable pub announce_route : Route → Text → Text
unfolding route_text
announce_route = route_text (codes "announce")

unfoldable pub withdraw_route : Route → Text → Text
unfolding route_text
withdraw_route = route_text (codes "withdraw")

-- `route[i]` of a tuple
abbrev pub item_at : List Text → ℕ → Result Text
item_at route i = elim (get_elem? route i) [ none ↦ raise index_error | some t ↦ ok t ]

-- The text with the path, if `key` is one of the items.
unfoldable pub with_path : Text → List Text → Text → Result Text
unfolding contains
with_path key route value = elim (contains key route) as (λ x. Result Text) [
  | false ↦ ok value
  | true ↦
      item_at route 3 >>= λ as_path. ok (value ++ (codes " as-path [ " ++ (as_path ++ codes " ]")))
]

-- The texts for a tuple, of texts where they are read.
unfoldable pub tuple_text : Text → Text → List Text → Text → Result Text
unfolding with_path
tuple_text verb key route next_hop = do
  inext_hop ← elim next_hop as (λ x. Result Text) [ [] ↦ item_at route 1 | c ∷ cs ↦ ok (c ∷ cs) ]
  prefix ← item_at route 0
  with_path key route (verb ++ (codes " route " ++ (prefix ++ (codes " next-hop " ++ inext_hop))))

unfoldable pub announce_tuple : List Text → Text → Result Text
unfolding tuple_text
announce_tuple = tuple_text (codes "announce") (codes "as_path")

unfoldable pub withdraw_tuple : List Text → Text → Result Text
unfolding tuple_text
withdraw_tuple = tuple_text (codes "withdraw") (codes "as-path")

-- The part of the SDX state that the loop reads: `VNH_2_pfx` and `VNH_2_IP`.
pub record VnhTables : Type 0 where
  pub vnh_2_pfx : Dict Text (List Text)
  pub vnh_2_ip : Dict Text Text

-- The first loop: the first participant whose `update` returns a list that is not empty ends it.
-- `none` is the value `None` that `route_list` has when there is no participant.
unfoldable pub update_ribs :
    Message
    → List Text
    → Option (List Item)
    → Participants
    → Result (Option (List Item)) × Participants
unfolding update
update_ribs message [] route_list ps = (ok route_list, ps)
update_ribs message (name ∷ names) route_list ps = elim (get ps name) [
  | raise x ↦ (raise x, ps)
  | ok p ↦
      let (result, p') = update message p in
      let ps' = on_peer name (λ q. p') ps in
      elim result [
        | raise x ↦ (raise x, ps')
        | ok [] ↦ update_ribs message names (some []) ps'
        | ok (i ∷ is) ↦ (ok (some (i ∷ is)), ps')
      ]
]

-- The second loop: the decision process for each item.
unfoldable pub decide : List Item → List Best → Participants → Result (List Best) × Participants
unfolding decision_process
decide [] updates ps = (ok updates, ps)
decide (item ∷ items) updates ps =
    let (result, ps') = decision_process ps item in
    elim result [ raise x ↦ (raise x, ps') | ok best ↦ decide items (updates ++ best) ps' ]

-- The message for a withdrawn route: with the address of the first virtual next hop whose set has
-- the prefix. A withdrawn `None` has no prefix, which is a TypeError.
unfoldable pub withdrawal :
    Dict Text Text → Option Route → Dict Text (List Text) → Result (List Text)
unfolding withdraw_route get contains
withdrawal ips route [] = ok []
withdrawal ips none ((vnh, prefixes) ∷ rest) = raise type_error
withdrawal ips (some route) ((vnh, prefixes) ∷ rest) =
    let next = withdrawal ips (some route) rest in
    if contains route.prefix prefixes
    then (get ips vnh >>= λ ip. ok (withdraw_route route ip ∷ []))
    else next

-- The texts that a loop has put into the queue of the sender, and how it ends: what is in the queue at
-- an exception stays there.
abbrev pub Sent : Type 0
Sent = List Text × Result {0} Unit

-- A turn of a loop, and then the rest of it.
unfoldable pub put_all : Result (List Text) → Sent → Sent
put_all (raise x) rest = ([], raise x)
put_all (ok texts) (more, result) = (texts ++ more, result)

-- A loop, and then what follows it.
unfoldable pub and_then : Sent → Sent → Sent
and_then (texts, raise x) next = (texts, raise x)
and_then (texts, ok u) (more, result) = (texts ++ more, result)

-- The third loop.
unfoldable pub withdrawals : VnhTables → List Item → Sent
unfolding withdrawal put_all
withdrawals t [] = ([], ok tt)
withdrawals t (announced r ∷ items) = withdrawals t items
withdrawals t (withdrawn r ∷ items) =
    put_all (withdrawal t.vnh_2_ip r t.vnh_2_pfx) (withdrawals t items)

-- The first participant with a best route for the prefix gives the announcement.
unfoldable pub announcement : Dict Text Text → Text → Text → Participants → Result (List Text)
unfolding announce_route get_route get
announcement ips vnh prefix [] = ok []
announcement ips vnh prefix ((name, p) ∷ ps) = elim (get_route local_rib prefix p) [
  | none ↦ announcement ips vnh prefix ps
  | some route ↦ get ips vnh >>= λ ip. ok (announce_route route ip ∷ [])
]

unfoldable pub announcements_for : Dict Text Text → Text → List Text → Participants → Sent
unfolding announcement put_all
announcements_for ips vnh [] ps = ([], ok tt)
announcements_for ips vnh (prefix ∷ prefixes) ps =
    put_all (announcement ips vnh prefix ps) (announcements_for ips vnh prefixes ps)

-- The last loops.
unfoldable pub announcements : Dict Text Text → Dict Text (List Text) → Participants → Sent
unfolding announcements_for and_then
announcements ips [] ps = ([], ok tt)
announcements ips ((vnh, prefixes) ∷ rest) ps =
    and_then (announcements_for ips vnh prefixes ps) (announcements ips rest ps)

-- What `bgp_trigger_update` waits for: the policy thread's new tables, from the routes as they are.
abbrev pub PolicyThread : Type 0
PolicyThread = Participants → VnhTables → VnhTables

-- What a round does: the messages sent, in order, how it ends, the tables and the participants after it.
pub record Outcome : Type 0 where
  pub sent : List Text
  pub result : Result {0} Unit
  pub tables : VnhTables
  pub participants : Participants

-- After the routes are decided: withdrawals, the wait for the policies, announcements.
unfoldable pub send_all : PolicyThread → VnhTables → List Item → Participants → Outcome
unfolding withdrawals announcements and_then
send_all policies t items ps =
    let (texts, result) = withdrawals t items in
    elim result [
      | raise x ↦ record { sent = texts; result = raise x; tables = t; participants = ps }
      | ok u ↦
          let t' = policies ps t in
          let (sent, result') =
            and_then (texts, ok tt) (announcements t'.vnh_2_ip t'.vnh_2_pfx ps) in
          record { sent = sent; result = result'; tables = t'; participants = ps }
    ]

-- A round that ends before it has sent anything.
abbrev ended : Exception → VnhTables → Participants → Outcome
ended x t ps = record { sent = []; result = raise x; tables = t; participants = ps }

unfoldable pub after_update : PolicyThread → VnhTables → Option (List Item) → Participants → Outcome
unfolding decide send_all
after_update policies t none ps = ended type_error t ps
after_update policies t (some items) ps =
    let (result, ps') = decide items [] ps in
    elim result [ raise x ↦ ended x t ps' | ok updates ↦ send_all policies t items ps' ]

unfoldable pub round : PolicyThread → VnhTables → Message → Participants → Outcome
unfolding update_ribs after_update
round policies t message ps =
    let (result, ps') = update_ribs message (keys ps) none ps in
    elim result [ raise x ↦ ended x t ps' | ok route_list ↦ after_update policies t route_list ps' ]

-- The loop of `start` over the messages that arrive: what each round sends and how it ends. An exception
-- ends the loop.
unfoldable pub serve : PolicyThread → List Message → VnhTables → Participants → List Sent
unfolding round
serve policies [] t ps = []
serve policies (message ∷ messages) t ps =
    let o = round policies t message ps in
    let rest = serve policies messages o.tables o.participants in
    elim o.result [ raise x ↦ (o.sent, raise x) ∷ [] | ok u ↦ (o.sent, ok tt) ∷ rest ]

-- bgp/decision_process_simple.py: every participant takes the announced route.
unfoldable pub replace_local : Route → Peer → Peer
unfolding delete add commit
replace_local r p = record p { local = commit (add r.prefix r (delete r.prefix p.local)) }

unfoldable pub drop_local : Route → Peer → Peer
unfolding delete commit
drop_local r p = record p { local = commit (delete r.prefix p.local) }

unfoldable pub for_all : (Peer → Peer) → Participants → Participants
for_all f [] = []
for_all f ((name, p) ∷ ps) = (name, f p) ∷ for_all f ps

unfoldable pub decision_process_simple : Participants → Item → Option Item × Participants
unfolding for_all replace_local drop_local
decision_process_simple ps (announced none) = (none, ps)
decision_process_simple ps (announced (some r)) =
    (some (announced (some r)), for_all (replace_local r) ps)
decision_process_simple ps (withdrawn none) = (some (withdrawn none), ps)
decision_process_simple ps (withdrawn (some r)) =
    (some (withdrawn (some r)), for_all (drop_local r) ps)
