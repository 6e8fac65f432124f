-- ===== src/Core.antt =====
-- lib/core.py: the tables of ports that `sdx_parse_config` builds from the configuration, and the
-- methods of `SDX` that use them. The configuration is the decoded JSON.
pub mod Config
pub mod Variables
use ixp_irc.Prelude.{
  ℕ, ◌+◌, ◌-◌, Bool, true, false, ◌&&◌, leb, List, [], ◌∷◌, ◌++◌, map, nat_eq, list_eq, Dict, keys,
  has_key, contains, get, put, lookup, Option, none, some, if◌then◌else◌, Result, ok, raise, ◌>>=◌,
  index_error,
}
use ixp_irc.Bgp.Text.{Text, codes, str}
use ixp_irc.Vnh.Policy.{Policy, modify, no_fields}
use ixp_irc.Vnh.State.{PhysicalPort}

-- `participant["Ports"]` and `participant["Peers"]`
pub record ParticipantConfig : Type 0 where
  pub ports : List PhysicalPort
  pub peers : List Text

-- An `SDXParticipant` as the configuration makes it; a virtual port is its number.
pub record Member : Type 0 where
  pub id : Text
  pub vport : ℕ
  pub phys_ports : List PhysicalPort
  pub peers : Dict Text ℕ

pub record Tables : Type 0 where
  pub participants : Dict Text Member
  pub sdx_ports : Dict Text (List PhysicalPort)
  pub sdx_vports : Dict Text ℕ
  pub participant_2_port : Dict Text (Dict Text (List ℕ))
  pub port_2_participant : Dict ℕ Text
  pub participant_id_to_in_var : Dict Text Text
  pub out_var_to_port : Dict Text PhysicalPort
  pub port_id_to_out_var : Dict ℕ Text

abbrev pub no_tables : Tables
no_tables = record {
  participants = [];
  sdx_ports = [];
  sdx_vports = [];
  participant_2_port = [];
  port_2_participant = [];
  participant_id_to_in_var = [];
  out_var_to_port = [];
  port_id_to_out_var = [];
}

-- `id_.upper()`, for ASCII
unfoldable pub upper : Text → Text
upper = map (λ c. if leb b'a' c && leb c b'z' then c - 32 else c)

unfoldable pub port_ids : List PhysicalPort → List ℕ
port_ids [] = []
port_ids (p ∷ ports) = p.id ∷ port_ids ports

unfoldable pub put_ports : Text → List PhysicalPort → Dict ℕ Text → Dict ℕ Text
unfolding put
put_ports name [] d = d
put_ports name (p ∷ ports) d = put_ports name ports (put p.id name d)

-- The first loop: the ports of one participant, of which the first one is the virtual port.
unfoldable pub add_ports : Text → ParticipantConfig → Tables → Result Tables
unfolding put put_ports port_ids
add_ports name config t = elim config.ports [
  | [] ↦ raise index_error
  | p ∷ ports ↦ ok (record t {
    sdx_ports = put name config.ports t.sdx_ports;
    participant_2_port = put name ((name, port_ids config.ports) ∷ []) t.participant_2_port;
    port_2_participant = put_ports name config.ports t.port_2_participant;
    sdx_vports = put name p.id t.sdx_vports;
  })
]

unfoldable pub add_all_ports : Dict Text ParticipantConfig → Tables → Result Tables
unfolding add_ports
add_all_ports [] t = ok t
add_all_ports ((name, config) ∷ rest) t = add_ports name config t >>= λ t'. add_all_ports rest t'

-- The peers of one participant, and the entries of `participant_2_port[participant_name]`.
unfoldable pub add_peers :
    Dict Text ℕ
    → List Text
    → Dict Text ℕ
    → Dict Text (List ℕ)
    → Result (Dict Text ℕ × Dict Text (List ℕ))
unfolding put get
add_peers vports [] peers ports = ok (peers, ports)
add_peers vports (peer ∷ names) peers ports =
    get vports peer >>= λ id. add_peers vports names (put peer id peers) (put peer (id ∷ []) ports)

unfoldable pub out_var : Text → ℕ → Text
unfolding upper str
out_var id i = codes "out" ++ (upper id ++ (codes "_" ++ str i))

-- The loop of `add_participant` over the physical ports, from the index `i`.
unfoldable pub add_out_vars : Text → ℕ → List PhysicalPort → Tables → Tables
unfolding out_var put
add_out_vars id i [] t = t
add_out_vars id i (p ∷ ports) t = add_out_vars id (i + 1) ports (record t {
  port_id_to_out_var = put p.id (out_var id i) t.port_id_to_out_var;
  out_var_to_port = put (out_var id i) p t.out_var_to_port;
})

unfoldable pub add_participant : Member → Text → Tables → Tables
unfolding add_out_vars put upper
add_participant participant name t =
    add_out_vars participant.id 0 participant.phys_ports (record t {
      participants = put name participant t.participants;
      participant_id_to_in_var =
          put participant.id (codes "in" ++ upper participant.id) t.participant_id_to_in_var;
    })

-- The second loop, for one participant.
unfoldable pub add_member : Text → ParticipantConfig → Tables → Result Tables
unfolding add_peers add_participant get put
add_member name config t = do
  ports ← get t.participant_2_port name
  r ← add_peers t.sdx_vports config.peers [] ports
  vport ← get t.sdx_vports name
  phys_ports ← get t.sdx_ports name
  ok (
      add_participant (record { id = name; vport = vport; phys_ports = phys_ports; peers = r.0 })
        name (record t { participant_2_port = put name r.1 t.participant_2_port }))

unfoldable pub add_members : Dict Text ParticipantConfig → Tables → Result Tables
unfolding add_member
add_members [] t = ok t
add_members ((name, config) ∷ rest) t = add_member name config t >>= λ t'. add_members rest t'

unfoldable pub sdx_parse_config : Dict Text ParticipantConfig → Result Tables
unfolding add_all_ports add_members
sdx_parse_config sdx_config = add_all_ports sdx_config no_tables >>= λ t. add_members sdx_config t

unfoldable pub get_neighbor_list : Text → Dict Text Member → List Text
unfolding contains
get_neighbor_list sname [] = []
get_neighbor_list sname ((name, m) ∷ participants) =
    let rest = get_neighbor_list sname participants in
    if has_key sname m.peers then m.id ∷ rest else rest

-- `SDX.fwd`, for a physical port and for the virtual port of a participant
unfoldable pub fwd_physical : PhysicalPort → Tables → Result Policy
unfolding get
fwd_physical port t = get t.port_id_to_out_var port.id >>= λ state.
    ok (modify (record no_fields { state = some state; dstmac = some port.mac }))

unfoldable pub fwd_virtual : Member → Tables → Result Policy
unfolding get
fwd_virtual participant t = get t.participant_id_to_in_var participant.id >>= λ state.
    ok (modify (record no_fields { state = some state }))
