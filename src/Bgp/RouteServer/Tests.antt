-- ===== src/Bgp/RouteServer/Tests.antt =====
-- Small rounds of the route server.
use ixp_irc.Prelude.{
  In, ◌↔◌, List, true, false, [], nat_eq, list_eq, filter, contains, keys, lookup, get, Distinct,
  none, some, ok, raise, key_error, ◌++◌, refl, ◌≡◌, map, length, ◌∷◌,
}
use ixp_irc.Bgp.Text.{Text, codes, aspath_length}
use ixp_irc.Bgp.Rib.{Route, null, get_all, empty}
use ixp_irc.Bgp.Peer.{Peer, Message, neighbor, notification}
use ixp_irc.Bgp.Decision.{Participants, best_path_selection}
use ixp_irc.Bgp.RouteServer.Announcing.{HaveAddresses, AnnouncesVnh, announcements_iff}
use ixp_irc.Bgp.RouteServer.{announcements, VnhTables, PolicyThread, round}
use ixp_irc.Bgp.RouteServer.Updates.{IsDecided}
use ixp_irc.Bgp.RouteServer.Rounds.{
  Rounds, begun, then_round, HaveEmptyTables, round-IsDecided, Rounds-from_empty,
}
use ixp_irc.Bgp.RouteServer.Errors.{withdraw_message}
use ixp_irc.Bgp.RouteServer.Quiet.{down_message, AfterDown, round-down, round-shutdown}
use ixp_irc.Bgp.Text.{as_number}

abbrev net : Text
net = codes "11.0.0.0/8"

abbrev no_vnhs : VnhTables
no_vnhs = record { vnh_2_pfx = []; vnh_2_ip = [] }

abbrev idle_policies : PolicyThread
idle_policies ps t = t

abbrev new_peer : Text → Peer
new_peer ip = record { ips = ip ∷ []; input = empty; local = empty }

abbrev three : Participants
three =
    (codes "A", new_peer (codes "172.0.0.1"))
    ∷ (codes "B", new_peer (codes "172.0.0.2"))
    ∷ (codes "C", new_peer (codes "172.0.0.3"))
    ∷ []

-- The neighbor with the address announces the prefix, with one AS on the path.
abbrev announce_message : Text → Message
announce_message ip = neighbor (record {
  ip = some ip;
  is_down = false;
  update = some (record {
    attribute = some (record {
      origin = none;
      as_path = some (as_number 100 ∷ []);
      med = none;
      atomic_aggregate = none;
    });
    announce = some (some ((net, some ip) ∷ []));
    withdraw = none;
  });
})

abbrev first : Message
first = announce_message (codes "172.0.0.1")

abbrev second : Message
second = withdraw_message (codes "172.0.0.1") none net

abbrev after_first : Participants
after_first = (round idle_policies no_vnhs first three).participants

abbrev after_second : Participants
after_second = (round idle_policies no_vnhs second after_first).participants

first_returns : (round idle_policies no_vnhs first three).result ≡ ok tt
unfolding round filter contains lookup get aspath_length best_path_selection
first_returns = refl

second_returns : (round idle_policies no_vnhs second after_first).result ≡ ok tt
unfolding round filter contains lookup get aspath_length best_path_selection
second_returns = refl

-- After the announcement the others use the route, and after the withdrawal nobody does.
used_after_first : map (λ e. length e.1.local.rows) after_first ≡ 0 ∷ 1 ∷ 1 ∷ []
unfolding round filter contains lookup get aspath_length best_path_selection
used_after_first = refl

used_after_second : map (λ e. length e.1.local.rows) after_second ≡ 0 ∷ 0 ∷ 0 ∷ []
unfolding round filter contains lookup get aspath_length best_path_selection
used_after_second = refl

three-HaveEmptyTables : HaveEmptyTables three
three-HaveEmptyTables = ((refl, refl), ((refl, refl), ((refl, refl), tt)))

three-Distinct : Distinct (keys three)
unfolding contains
three-Distinct = (refl, (refl, (refl, tt)))

two-Rounds : Rounds three after_second
two-Rounds =
    then_round idle_policies no_vnhs second
      (then_round idle_policies no_vnhs first begun refl first_returns) refl second_returns

Rounds-from_empty_example : IsDecided after_second
Rounds-from_empty_example =
    Rounds-from_empty three after_second three-HaveEmptyTables three-Distinct two-Rounds

three-IsDecided : IsDecided three
three-IsDecided = Rounds-from_empty three three three-HaveEmptyTables three-Distinct begun

round-IsDecided_example : IsDecided after_first
round-IsDecided_example =
    round-IsDecided idle_policies no_vnhs first three refl three-Distinct three-IsDecided
      first_returns

-- B keeps the route of A, which went down.
stale :
    map
      (λ e. length e.1.local.rows)
      (round idle_policies no_vnhs (down_message (codes "172.0.0.1")) after_first).participants
    ≡ 0 ∷ 1 ∷ 1 ∷ []
unfolding round filter contains lookup get aspath_length best_path_selection
stale = refl

abbrev row : Route
row = record {
  prefix = net;
  next_hop = codes "172.0.0.1";
  origin = null;
  as_path = codes "100";
  med = null;
  atomic_aggregate = null;
}

abbrev busy_peer : Peer
busy_peer = record {
  ips = codes "172.0.0.1" ∷ [];
  input = record { rows = row ∷ []; committed = [] };
  local = record { rows = row ∷ []; committed = [] };
}

abbrev busy : Participants
busy = (codes "A", busy_peer) ∷ (codes "B", new_peer (codes "172.0.0.2")) ∷ []

round-down_example :
    (p : Peer) × (lookup
        (codes "A")
        (round idle_policies no_vnhs (down_message (codes "172.0.0.1")) busy).participants
      ≡ some p)
    × AfterDown (codes "172.0.0.1") busy_peer p
unfolding contains lookup
round-down_example =
    round-down idle_policies no_vnhs (codes "172.0.0.1") busy (refl, (refl, tt)) (codes "A")
      busy_peer refl

round-shutdown_example :
    (p : Peer) × (lookup
        (codes "A")
        (round idle_policies no_vnhs (notification true) busy).participants
      ≡ some p)
    × (get_all none p.input ≡ [])
    × (get_all none p.local ≡ [])
unfolding contains lookup
round-shutdown_example =
    round-shutdown idle_policies no_vnhs busy (refl, (refl, tt)) (codes "A") busy_peer refl

abbrev vnh_prefixes : List (Text × List Text)
vnh_prefixes = (codes "VNH1", net ∷ codes "12.0.0.0/8" ∷ []) ∷ []

abbrev vnh_ips : List (Text × Text)
vnh_ips = (codes "VNH1", codes "172.0.1.1") ∷ []

sends_one :
    announcements vnh_ips vnh_prefixes after_first
    ≡ (codes "announce route 11.0.0.0/8 next-hop 172.0.1.1 as-path [ 100 ]" ∷ [], ok tt)
unfolding announcements round filter contains lookup get aspath_length best_path_selection
sends_one = refl

vnh-HaveAddresses : HaveAddresses vnh_ips vnh_prefixes
unfolding get lookup
vnh-HaveAddresses = ((codes "172.0.1.1", refl), tt)

announcements_iff_example :
    (texts : List Text) × (announcements vnh_ips vnh_prefixes after_first ≡ (texts, ok tt))
    × ((t : Text) → In t texts ↔ AnnouncesVnh vnh_ips after_first vnh_prefixes t)
announcements_iff_example = announcements_iff vnh_ips vnh_prefixes after_first vnh-HaveAddresses

-- What is announced before an exception stays sent: the second virtual next hop has no address.
sends_before_raise :
    announcements vnh_ips (vnh_prefixes ++ (codes "VNH2", net ∷ []) ∷ []) after_first
    ≡ (codes "announce route 11.0.0.0/8 next-hop 172.0.1.1 as-path [ 100 ]" ∷ [], raise key_error)
unfolding announcements round filter contains lookup get aspath_length best_path_selection
sends_before_raise = refl
