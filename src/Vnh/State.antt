-- ===== src/Vnh/State.antt =====
-- The part of the SDX state (lib/core.py, lib/common.py) that the assignment uses, and the reads
-- of the tables in lib/bgp_interface.py.
use ixp_irc.Prelude.{
  ℕ, List, [], ◌∷◌, ◌++◌, nat_eq, list_eq, Dict, get, put, lookup, none, some, Result, ok, ◌>>=◌,
}
use ixp_irc.Bgp.Text.{Text}
use ixp_irc.Bgp.Rib.{Route, next_hop_column}
use ixp_irc.Bgp.Peer.{Peer, input_rib, local_rib, filter_route, get_all_routes}
use ixp_irc.Vnh.Policy.{Policy}

pub record PhysicalPort : Type 0 where
  pub id : ℕ
  pub mac : Text
  pub ip : Text

-- `peers` gives for each peer its virtual port, which stands for the peer.
pub record Participant : Type 0 where
  pub id : Text
  pub phys_ports : List PhysicalPort
  pub peers : List Text
  pub policies : Policy
  pub rs_client : Peer

-- `vnh_pool` and `vnh_mac` are the values under 'VNH' in `VNH_2_IP` and `VNH_2_MAC`.
pub record Sdx : Type 0 where
  pub participants : Dict Text Participant
  pub sdx_ports : Dict Text (List PhysicalPort)
  pub participant_2_port : Dict Text (Dict Text (List ℕ))
  pub port_2_participant : Dict ℕ Text
  pub vnh_pool : List Text
  pub vnh_mac : Text
  pub vnh_2_pfx : Dict Text (List Text)
  pub vnh_2_ip : Dict Text Text
  pub vnh_2_mac : Dict Text Text
  pub part_2_vnh : Dict Text (Dict Text (List Text))

unfoldable pub prefixes_of : List Route → List Text
prefixes_of [] = []
prefixes_of (r ∷ routes) = r.prefix ∷ prefixes_of routes

-- One port of a peer in `bgp_get_best_routes`.
unfoldable pub add_best : Text → List Route → Dict Text (List Text) → Result (Dict Text (List Text))
unfolding put get prefixes_of lookup
add_best peer_name [] best_routes = ok best_routes
add_best peer_name (r ∷ routes) best_routes =
    let old : List Text = elim (lookup peer_name best_routes) [ none ↦ [] | some l ↦ l ] in
    ok (put peer_name (old ++ prefixes_of (r ∷ routes)) best_routes)

unfoldable pub best_of_ports :
    Peer → Text → List PhysicalPort → Dict Text (List Text) → Result (Dict Text (List Text))
unfolding add_best filter_route
best_of_ports client peer_name [] best_routes = ok best_routes
best_of_ports client peer_name (port ∷ ports) best_routes = do
  routes ← filter_route local_rib next_hop_column port.ip client
  best ← add_best peer_name routes best_routes
  best_of_ports client peer_name ports best

unfoldable pub best_of_peers :
    Dict Text (List PhysicalPort)
    → Peer
    → List Text
    → Dict Text (List Text)
    → Result (Dict Text (List Text))
unfolding best_of_ports get
best_of_peers sdx_ports client [] best_routes = ok best_routes
best_of_peers sdx_ports client (peer_name ∷ peers) best_routes = do
  ports ← get sdx_ports peer_name
  best ← best_of_ports client peer_name ports best_routes
  best_of_peers sdx_ports client peers best

unfoldable pub bgp_get_best_routes : Sdx → Text → Result (Dict Text (List Text))
unfolding best_of_peers get
bgp_get_best_routes sdx name = do
  participant ← get sdx.participants name
  best_of_peers sdx.sdx_ports participant.rs_client participant.peers []

unfoldable pub bgp_get_announced_routes : Sdx → Text → Result (List Text)
unfolding get prefixes_of get_all_routes
bgp_get_announced_routes sdx name =
    get sdx.participants name >>= λ p. ok (prefixes_of (get_all_routes input_rib p.rs_client))
