-- ===== src/Utils.antt =====
-- utils/__init__.py: the addresses of the participants' ports, from which the route server makes
-- the peers, and the MAC addresses of the virtual next hops.
use ixp_irc.Prelude.{
  true, false, List, [], ◌∷◌, nat_eq, list_eq, ◌==◌, Dict, get, put, Result, ok, ◌>>=◌,
}
use ixp_irc.Bgp.Text.{Text, codes}
use ixp_irc.Vnh.State.{PhysicalPort}
use ixp_irc.Core.{Member}

unfoldable pub port_ips : List PhysicalPort → List Text
port_ips [] = []
port_ips (p ∷ ports) = p.ip ∷ port_ips ports

unfoldable pub get_participants_ports_list : Dict Text Member → Dict Text (List Text)
unfolding port_ips
get_participants_ports_list [] = []
get_participants_ports_list ((name, m) ∷ participants) =
    (name, port_ips m.phys_ports) ∷ get_participants_ports_list participants

-- The addresses are keys as the texts that `IPAddr` is given.
unfoldable pub ip_mac_from :
    Dict Text Text → Dict Text Text → Dict Text Text → Result (Dict Text Text)
unfolding get put
ip_mac_from [] mac_list found = ok found
ip_mac_from ((key, ip) ∷ ip_list) mac_list found = do
  found' ← elim (key == codes "VNH") as (λ x. Result (Dict Text Text)) [
    | true ↦ ok found
    | false ↦ get mac_list key >>= λ mac. ok (put ip mac found)
  ]
  ip_mac_from ip_list mac_list found'

unfoldable pub get_ip_mac_list : Dict Text Text → Dict Text Text → Result (Dict Text Text)
unfolding ip_mac_from
get_ip_mac_list ip_list mac_list = ip_mac_from ip_list mac_list []
