-- ===== src/Vnh/Tests.antt =====
-- Small inputs of lib/vnh_assignment.py and lib/core.py.
use ixp_irc.Prelude.{
  Dict, nat_eq, list_eq, ℕ, false, List, [], ◌∷◌, none, some, ok, Result, ◌≡◌, refl, arith,
  contains, get, put, lookup, index_error,
}
use ixp_irc.Bgp.Text.{Text, codes}
use ixp_irc.SetOperations.{Group, as_set}
use ixp_irc.Core.{ParticipantConfig}
use ixp_irc.Vnh.States.{forward_actions}
use ixp_irc.Vnh.States.Ports.{forwards_to, forward_actions-forwards_to}
use ixp_irc.Vnh.Policy.{
  Policy, parallel, sequential, if_, match_, match_prefixes_set, fwd, drop, nil, cons, no_fields,
  Operators,
}
use ixp_irc.Vnh.State.{Sdx}
use ixp_irc.Vnh.Prefixes.{get_prefix}
use ixp_irc.Vnh.Forwards.{collect, out_ports, get_prefix-out_ports}
use ixp_irc.Vnh.Names.{step4}
use ixp_irc.Vnh.Names.Pool.{step4_total}
use ixp_irc.Vnh.Expansion.{expand_prefixes}
use ixp_irc.Vnh.Expansion.Shared.{marked, has_no_sequence, expand_prefixes-marked}

abbrev trees : Operators
trees = record {
  then = λ p q. sequential (cons p (cons q nil));
  plus = λ p q. parallel (cons p (cons q nil));
  union = λ p q. parallel (cons p (cons q nil));
  meet = λ p q. sequential (cons p (cons q nil));
}

abbrev announced : ℕ → Result (List Text)
announced port = ok (codes "11.0.0.0/8" ∷ [])

abbrev on_match : Policy
on_match = if_ (match_ (record no_fields { dstip = some (codes "12.0.0.0/8") })) (fwd 1) drop

-- A match marks the shared list, and the next policy is not restricted.
marks_shared :
    (expand_prefixes trees announced false on_match (record { shared = false; own = false })
      ≡ ok (on_match, marked))
    × (expand_prefixes trees announced false (fwd 2) (record { shared = false; own = false })
        ≡ ok (
          trees.then (match_prefixes_set (codes "11.0.0.0/8" ∷ [])) (fwd 2),
          record { shared = false; own = false },
        ))
unfolding expand_prefixes
marks_shared = (refl, refl)

expand_prefixes-marked_example :
    expand_prefixes trees announced false (parallel (cons (fwd 2) nil)) marked
    ≡ ok (parallel (cons (fwd 2) nil), marked)
unfolding has_no_sequence
expand_prefixes-marked_example =
    expand_prefixes-marked trees announced (parallel (cons (fwd 2) nil)) refl

abbrev can_list : Text → Result {0} Unit
can_list ip = ok tt

get_prefix-out_ports_example :
    (get_prefix announced can_list (sequential (cons on_match nil)) [] []
      ≡ collect announced (out_ports (sequential (cons on_match nil))) [])
    × (get_prefix announced can_list (sequential (cons on_match nil)) [] []
        ≡ get_prefix announced can_list (fwd 1) [] [])
unfolding out_ports
get_prefix-out_ports_example =
    get_prefix-out_ports announced can_list (λ ip. refl) (sequential (cons on_match nil)) (fwd 1) []
      refl

abbrev small_sdx : Sdx
small_sdx = record {
  participants = [];
  sdx_ports = [];
  participant_2_port = [];
  port_2_participant = [];
  vnh_pool = codes "172.0.1.0" ∷ codes "172.0.1.1" ∷ [];
  vnh_mac = codes "aa:00:00:00:00:00";
  vnh_2_pfx = [];
  vnh_2_ip = [];
  vnh_2_mac = [];
  part_2_vnh = [];
}

abbrev net_a : Group Text
net_a = as_set (codes "11.0.0.0/8" ∷ [])

step4_total_example :
    (step4 (λ n. codes "aa") ((codes "A", net_a ∷ []) ∷ []) (net_a ∷ []) small_sdx).0 ≡ none
step4_total_example =
    step4_total (λ n. codes "aa") ((codes "A", net_a ∷ []) ∷ []) (net_a ∷ []) small_sdx
      (omega arith)

-- With a set for each address of the pool, the last set has none: the first address is not used.
step4_exhausted :
    (step4 (λ n. codes "aa") ((codes "A", net_a ∷ []) ∷ []) (net_a ∷ net_a ∷ []) small_sdx).0
    ≡ some index_error
unfolding step4 get put lookup contains
step4_exhausted = refl

forward_actions-forwards_to_example :
    (contains 1 (forward_actions on_match) ≡ forwards_to 1 on_match)
    × (contains 1 (forward_actions on_match) ≡ contains 1 (forward_actions (fwd 1)))
unfolding forwards_to
forward_actions-forwards_to_example =
    forward_actions-forwards_to on_match (fwd 1) (λ k. ground arith) 1

abbrev two_participants : Dict Text ParticipantConfig
two_participants =
    (
      codes "A",
      record {
        ports = record { id = 1; mac = codes "00:01"; ip = codes "172.0.0.1" } ∷ [];
        peers = codes "B" ∷ [];
      },
    )
    ∷ (
      codes "B",
      record {
        ports = record { id = 2; mac = codes "00:02"; ip = codes "172.0.0.2" } ∷ [];
        peers = codes "A" ∷ [];
      },
    )
    ∷ []
