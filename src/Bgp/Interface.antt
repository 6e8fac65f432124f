-- ===== src/Bgp/Interface.antt =====
-- lib/bgp_interface.py: `bgp_announce_route`, which puts the JSON text of a route into the queue of the
-- route server. The route is a dictionary of texts.
use ixp_irc.Prelude.{List, [], ◌∷◌, ◌++◌, nat_eq, list_eq, Dict, get, Result, ok, ◌>>=◌}
use ixp_irc.Bgp.Text.{Text, codes}

unfoldable pub route_json : Dict Text Text → Result Text
unfolding get
route_json route = do
  ip ← get route (codes "ip")
  origin ← get route (codes "origin")
  as_path ← get route (codes "as-path")
  atomic_aggregate ← get route (codes "atomic-aggregate")
  med ← get route (codes "med")
  prefix ← get route (codes "prefix")
  next_hop ← get route (codes "next-hop")
  ok (
      codes "{ \"neighbor\": {\n                         \"ip\": \""
      ++ (ip
          ++ (codes
                "\",\n                         \"update\": {\n                             \"attribute\": {\n                                 \"origin\": \""
              ++ (origin
                  ++ (codes "\",\n                                 \"as-path\": ["
                      ++ (as_path
                          ++ (codes "],\n                                 \"atomic-aggregate\": "
                              ++ (atomic_aggregate
                                  ++ (codes ",\n                                 \"med\": "
                                      ++ (med
                                          ++ (codes
                                                "\n                             },\n                             \"announce\": {\n                                 \"ipv4 unicast\": {\n                                     \""
                                              ++ (prefix
                                                  ++ (codes
                                                        "\": {\n                                         \"next-hop\": \""
                                                      ++ (next_hop
                                                          ++ (codes
                                                            "\"\n                                     }\n                                 }\n                             }\n                         }\n                     }\n                }")))))))))))))))

unfoldable pub bgp_announce_route : List Text → Dict Text Text → Result (List Text)
unfolding route_json
bgp_announce_route receiver_queue route =
    route_json route >>= λ json. ok (receiver_queue ++ json ∷ [])
