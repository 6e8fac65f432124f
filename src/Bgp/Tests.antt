-- ===== src/Bgp/Tests.antt =====
-- Small inputs of bgp/.
use ixp_irc.Prelude.{
  ◌∙◌, ℕ, ◌≤◌, ap, length, length-append, ◌<◌, ◌^◌, List, [], ◌∷◌, ◌++◌, ◌≡◌, refl, inl, inr, In,
  ok, raise, type_error, struct_error, ◌⊎◌, Bool-cases, sym, lookup, true, list_eq, nat_eq, ◌==◌,
  if◌then◌else◌, none, some, arith, filter, contains,
}
use ixp_irc.Bgp.Text.{
  Text, codes, aspath_length, get_advertised_as, AsItem, as_number, segment, as_path_text, str,
}
use ixp_irc.Bgp.Text.Ases.{aspath_length-as_path_text}
use ixp_irc.Bgp.Relay.{client_sender, server_receiver}
use ixp_irc.Bgp.Relay.Delivery.{HasShortRuns, messages, server_receiver-client_sender}
use ixp_irc.Bgp.Inet.{ip_to_long, inet_ntoa, long_to_ip}
use ixp_irc.Bgp.Inet.RoundTrip.{ip_to_long-inet_ntoa, ip_to_long-long_to_ip}
use ixp_irc.Bgp.Rib.{Route, Rib, empty, number, text, add, get_all, get}
use ixp_irc.Bgp.Rib.Laws.{row_for, get-add}
use ixp_irc.Bgp.Peer.{Peer, Message, announced, go_down}
use ixp_irc.Bgp.Decision.Inputs.{SameOffers, decision_process-SameOffers}
use ixp_irc.Bgp.Peer.Laws.{has_prefix, go_down_lem}
use ixp_irc.Bgp.RouteServer.{VnhTables, round}
use ixp_irc.Bgp.RouteServer.Errors.{withdraw_message, IsUnknown, round-withdraw_unknown}
use ixp_irc.Bgp.Decision.{
  Participants, decision_process, shortest, advertised, post_med, best_path_selection,
}
use ixp_irc.Bgp.Decision.Paths.{IsShortest, shortest-IsShortest}
use ixp_irc.Bgp.Decision.Filter.{IsMedFiltered, post_med-IsMedFiltered}
use ixp_irc.Bgp.Decision.Router.{IsDotted}
use ixp_irc.Bgp.Decision.Selection.{NamesAs, IsBest, best_path_selection-IsBest}

abbrev net : Text
net = codes "11.0.0.0/8"

abbrev by : Text → Text → ℕ → Route
by next_hop as_path med = record {
  prefix = net;
  next_hop = next_hop;
  origin = text (codes "igp");
  as_path = as_path;
  med = number med;
  atomic_aggregate = text [];
}

-- one path of three, and three of two: two from 100, of which one has the lower MED, and one from 200
abbrev long_one : Route
long_one = by (codes "172.0.0.1") (codes "100 200 300") 0

abbrev one_low : Route
one_low = by (codes "172.0.0.22") (codes "100 300") 5

abbrev one_high : Route
one_high = by (codes "172.0.0.2") (codes "100 300") 7

abbrev other_as : Route
other_as = by (codes "172.0.0.31") (codes "200 300") 9

abbrev four_routes : List Route
four_routes = long_one ∷ one_high ∷ one_low ∷ other_as ∷ []

best_of_four : best_path_selection four_routes ≡ ok one_low
unfolding best_path_selection filter aspath_length
best_of_four = refl

four_named : (r : Route) → In r four_routes → NamesAs r
unfolding get_advertised_as
four_named r i = elim i [
  | inl q ↦ rw q (codes "100", refl)
  | inr (inl q) ↦ rw q (codes "100", refl)
  | inr (inr (inl q)) ↦ rw q (codes "100", refl)
  | inr (inr (inr (inl q))) ↦ rw q (codes "200", refl)
  | inr (inr (inr (inr z))) ↦ absurd z
]

dotted : (r : Route) (n : ℕ) → n < 2 ^ 32 → r.next_hop ≡ inet_ntoa n → IsDotted r
dotted r n h q = (n, h, q)

four-IsDotted : (r : Route) → In r four_routes → IsDotted r
unfolding inet_ntoa
four-IsDotted r i = elim i [
  | inl q ↦ rw q (dotted long_one 0xAC000001 (omega arith) refl)
  | inr (inl q) ↦ rw q (dotted one_high 0xAC000002 (omega arith) refl)
  | inr (inr (inl q)) ↦ rw q (dotted one_low 0xAC000016 (omega arith) refl)
  | inr (inr (inr (inl q))) ↦ rw q (dotted other_as 0xAC00001F (omega arith) refl)
  | inr (inr (inr (inr z))) ↦ absurd z
]

best_path_selection-IsBest_example :
    (r : Route) × (best_path_selection four_routes ≡ ok r) × IsBest four_routes r
best_path_selection-IsBest_example =
    best_path_selection-IsBest four_routes (λ q. cc q) four_named four-IsDotted

shortest-IsShortest_example : (m : ℕ) × IsShortest four_routes (shortest [] 0 four_routes) m
shortest-IsShortest_example = shortest-IsShortest long_one (one_high ∷ one_low ∷ other_as ∷ [])

abbrev equal_routes : List Route
equal_routes = one_high ∷ one_low ∷ other_as ∷ []

equal_advertised : advertised equal_routes ≡ ok (codes "100" ∷ codes "100" ∷ codes "200" ∷ [])
unfolding advertised
equal_advertised = refl

post_med-IsMedFiltered_example :
    (post : List Route) × (post_med equal_routes ≡ ok post) × IsMedFiltered equal_routes post
post_med-IsMedFiltered_example =
    post_med-IsMedFiltered equal_routes (codes "100" ∷ codes "100" ∷ codes "200" ∷ [])
      equal_advertised

ip_to_long-inet_ntoa_example : ip_to_long (inet_ntoa 0xAC000016) ≡ ok 0xAC000016
ip_to_long-inet_ntoa_example = ip_to_long-inet_ntoa 0xAC000016 (omega arith)

long_to_ip_22 : long_to_ip 0xAC000016 ≡ ok (codes "172.0.0.22")
unfolding long_to_ip
long_to_ip_22 = refl

ip_to_long-long_to_ip_example :
    ((0xAC000016 < 2 ^ 32)
      × ((t : Text) × (long_to_ip 0xAC000016 ≡ ok t) × (ip_to_long t ≡ ok 0xAC000016)))
    ⊎ ((2 ^ 32 ≤ 0xAC000016) × (long_to_ip 0xAC000016 ≡ raise struct_error))
ip_to_long-long_to_ip_example = ip_to_long-long_to_ip 0xAC000016

abbrev one_row : Rib
one_row = record { rows = long_one ∷ []; committed = [] }

get-add_example :
    get net (add net one_low one_row)
    ≡ (elim (get net one_row) [ none ↦ some (row_for net one_low) | some old ↦ some old ])
get-add_example = get-add net one_low one_row

abbrev one_peer : Peer
one_peer = record {
  ips = codes "172.0.0.1" ∷ [];
  input = one_row;
  local = record { rows = one_low ∷ []; committed = [] };
}

go_down_lem_example :
    (get_all none (go_down one_peer).input ≡ [])
    × (get_all (some net) (go_down one_peer).local ≡ (
        if has_prefix net (get_all none one_peer.input)
        then []
        else get_all (some net) one_peer.local))
go_down_lem_example = go_down_lem net one_peer

abbrev one_vnh : VnhTables
one_vnh = record {
  vnh_2_pfx = (codes "VNH1", net ∷ []) ∷ [];
  vnh_2_ip = (codes "VNH1", codes "172.0.1.1") ∷ [];
}

abbrev other_net : Text
other_net = codes "12.0.0.0/8"

abbrev withdrawal_of_other : Message
withdrawal_of_other = withdraw_message (codes "172.0.0.1") none other_net

abbrev other_peer : Peer
other_peer = record { ips = codes "172.0.0.9" ∷ []; input = empty; local = empty }

abbrev two_peers : Participants
two_peers = (codes "B", other_peer) ∷ (codes "A", one_peer) ∷ []

-- Nobody has a route for the other prefix.
two_peers-IsUnknown : IsUnknown (codes "172.0.0.1") other_net two_peers
unfolding lookup contains get get_all
two_peers-IsUnknown n q e t = elim (Bool-cases (n == codes "B")) [
  | inl u ↦
      let same : some other_peer ≡ some q = (rw (u, lookup) at e) in
      let it : other_peer ≡ q = (cc same) in
      let known : contains (codes "172.0.0.1") other_peer.ips ≡ true =
        ap (λ (x : Peer). contains (codes "172.0.0.1") x.ips) it ∙ t in
      cc known
  | inr f ↦ elim (Bool-cases (n == codes "A")) [
    | inl u ↦
        let same : some one_peer ≡ some q = (rw (u, lookup) at (rw (f, lookup) at e)) in
        let it : one_peer ≡ q = (cc same) in rw (sym it) refl
    | inr g ↦ let nobody : none ≡ some q = (rw (g, lookup) at (rw (f, lookup) at e)) in cc nobody
  ]
]

round-withdraw_unknown_example :
    ((round (λ ps t. t) one_vnh withdrawal_of_other two_peers).sent ≡ [])
    × ((round (λ ps t. t) one_vnh withdrawal_of_other two_peers).result ≡ raise type_error)
unfolding contains get get_all lookup
round-withdraw_unknown_example =
    round-withdraw_unknown (λ ps t. t) one_vnh (codes "172.0.0.1") other_net (codes "A") none
      one_peer two_peers two_peers-IsUnknown refl refl (λ q. cc q)

decision_process-SameOffers_example :
    SameOffers
      ((codes "A", one_peer) ∷ (codes "B", one_peer) ∷ [])
      (decision_process
        ((codes "A", one_peer) ∷ (codes "B", one_peer) ∷ [])
        (announced (some long_one))).1
decision_process-SameOffers_example =
    decision_process-SameOffers ((codes "A", one_peer) ∷ (codes "B", one_peer) ∷ [])
      (announced (some long_one))

abbrev path : List AsItem
path = as_number 100 ∷ segment (200 ∷ 300 ∷ []) ∷ segment [] ∷ []

path_text : as_path_text path ≡ codes "100 200 300 "
unfolding as_path_text filter contains
path_text = refl

aspath_length-as_path_text_example :
    (aspath_length (as_path_text path) ≡ 3)
    × (get_advertised_as (as_path_text path) ≡ ok (codes "100"))
unfolding str
aspath_length-as_path_text_example = aspath_length-as_path_text path

abbrev lines : List Text
lines = codes " {\"neighbor\": 1} " ∷ codes " " ∷ codes "{}" ∷ []

two_delivered :
    server_receiver (client_sender 0 lines) [] ≡ codes "{\"neighbor\": 1}" ∷ codes "{}" ∷ []
unfolding client_sender server_receiver
two_delivered = refl

short-HasShortRuns : (ls : List Text) → length ls ≤ 100 → HasShortRuns ls
short-HasShortRuns ls h before run after q a =
    omega (arith, h, ap length q, length-append before (run ++ after), length-append run after)

server_receiver-client_sender_example :
    server_receiver (client_sender 0 lines) [] ≡ [] ++ messages lines
server_receiver-client_sender_example =
    server_receiver-client_sender lines [] (short-HasShortRuns lines (omega arith))
