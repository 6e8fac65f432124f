-- ===== src/Composition/Tests.antt =====
-- A small exchange.
use ixp_irc.Prelude.{List, [], ◌∷◌, nat_eq, list_eq, get, put, lookup, ok, ◌≡◌, refl}
use ixp_irc.Bgp.Text.{Text, codes, str}
use ixp_irc.Vnh.Policy.{Policy, parallel, sequential, passthrough, drop, nil, cons, Operators}
use ixp_irc.Core.{ParticipantConfig, Tables, sdx_parse_config}
use ixp_irc.Composition.{simple_compose}
use ixp_irc.Composition.Total.{with_policies, simple_compose_total}

abbrev trees : Operators
trees = record {
  then = λ p q. sequential (cons p (cons q nil));
  plus = λ p q. parallel (cons p (cons q nil));
  union = λ p q. parallel (cons p (cons q nil));
  meet = λ p q. sequential (cons p (cons q nil));
}

abbrev config : List (Text × ParticipantConfig)
config =
    (
      codes "A",
      record {
        ports = record { id = 1; mac = codes "08:00:27:89:3b:9f"; ip = codes "172.0.0.1" } ∷ [];
        peers = codes "B" ∷ [];
      },
    )
    ∷ (
      codes "B",
      record {
        ports = record { id = 2; mac = codes "08:00:27:92:18:1f"; ip = codes "172.0.0.11" } ∷ [];
        peers = codes "A" ∷ [];
      },
    )
    ∷ []

parsed : (t : Tables) × (sdx_parse_config config ≡ ok t)
unfolding sdx_parse_config get put lookup str
parsed = (_, refl)

simple_compose_total_example :
    (p : Policy) × (simple_compose trees drop parsed.0.out_var_to_port
        parsed.0.participant_id_to_in_var
        (with_policies (λ name. passthrough) parsed.0.participants)
      ≡ ok p)
simple_compose_total_example = simple_compose_total trees drop (λ name. passthrough) config parsed.1
