-- ===== src/Composition/Total.antt =====
-- The composition of the policies for the participants of a configuration (lib/composition.py,
-- lib/core.py).
use ixp_irc.Prelude.{
  List, [], ◌∷◌, some, nat_eq, list_eq, Dict, get, lookup, ok, bind_of, ◌≡◌, refl, ◌∙◌,
}
use ixp_irc.Bgp.Text.{Text}
use ixp_irc.Vnh.Policy.{Policy, Policies, Operators}
use ixp_irc.Vnh.State.{PhysicalPort}
use ixp_irc.Core.{ParticipantConfig, Member, Tables, sdx_parse_config}
use ixp_irc.Core.Variables.{HaveVars, sdx_parse_config-HaveVars}
use ixp_irc.Composition.{
  Composed, sdx_restrict_state, restrict_all, sdx_participant_policies, port_entries, all_entries,
  sdx_preprocessing, simple_compose,
}

-- The participants with the policies that they have.
abbrev pub with_policies : (Text → Policy) → Dict Text Member → Dict Text Composed
with_policies policies [] = []
with_policies policies ((name, m) ∷ participants) =
    (name, record { id = m.id; phys_ports = m.phys_ports; policies = policies name })
    ∷ with_policies policies participants

-- Every participant's state variable is known.
abbrev pub Named : Dict Text Text → Dict Text Composed → Type 0
Named vars [] = Unit
Named vars ((name, c) ∷ participants) =
    ((v : Text) × (lookup c.id vars ≡ some v)) × Named vars participants

with_policies-Named :
    (vars : Dict Text Text) (policies : Text → Policy) (members : Dict Text Member)
    → HaveVars vars members
    → Named vars (with_policies policies members)
with_policies-Named vars policies [] h = tt
with_policies-Named vars policies ((name, m) ∷ members) h =
    (h.0, with_policies-Named vars policies members h.1)

get-some :
    (vars : Dict Text Text) (k : Text) {v : Text} → lookup k vars ≡ some v → get vars k ≡ ok v
unfolding get
get-some vars k h = rw (h, get) refl

module _ (ops : Operators) (no_packets : Policy) (outs : Dict Text PhysicalPort)
    (vars : Dict Text Text) where
  restrict_all_total :
      (members : Dict Text Composed)
      → Named vars members
      → (ps : Policies) × (restrict_all ops no_packets outs vars members ≡ ok ps)
  unfolding restrict_all sdx_restrict_state
  restrict_all_total [] h = (_, refl)
  restrict_all_total ((name, m) ∷ members) ((v, h), hs) =
      let (ps, q) = restrict_all_total members hs in
      (_, bind_of _ (bind_of _ (get-some vars m.id h)) ∙ bind_of _ q)

  port_entries_total :
      (id : Text) (ports : List PhysicalPort) (rest : Policies) {v : Text}
      → lookup id vars ≡ some v
      → (ps : Policies) × (port_entries ops no_packets vars id ports rest ≡ ok ps)
  unfolding port_entries
  port_entries_total id [] rest h = (rest, refl)
  port_entries_total id (port ∷ ports) rest h =
      let (ps, q) = port_entries_total id ports rest h in
      (_, bind_of _ (get-some vars id h) ∙ bind_of _ q)

  all_entries_total :
      (members : Dict Text Composed)
      → Named vars members
      → (ps : Policies) × (all_entries ops no_packets vars members ≡ ok ps)
  unfolding all_entries
  all_entries_total [] h = (_, refl)
  all_entries_total ((name, m) ∷ members) ((v, h), hs) =
      let (rest, q) = all_entries_total members hs in
      let (ps, p) = port_entries_total m.id m.phys_ports rest h in (ps, bind_of _ q ∙ p)

  pub compose_total :
      (members : Dict Text Composed)
      → Named vars members
      → (p : Policy) × (simple_compose ops no_packets outs vars members ≡ ok p)
  unfolding simple_compose sdx_preprocessing sdx_participant_policies
  compose_total members h =
      let (entries, p) = all_entries_total members h in
      let (ps, q) = restrict_all_total members h in
      (_, bind_of _ (bind_of _ p) ∙ bind_of _ (bind_of _ q))

-- For the participants of a configuration that `sdx_parse_config` reads, `simple_compose` returns a
-- policy, whatever the policies of the participants are: each of them has the state variable that the
-- composition looks up.
pub simple_compose_total :
    (ops : Operators) (no_packets : Policy) (policies : Text → Policy)
    (config : Dict Text ParticipantConfig) {t : Tables}
    → sdx_parse_config config ≡ ok t
    → (p : Policy) × (simple_compose ops no_packets t.out_var_to_port t.participant_id_to_in_var
          (with_policies policies t.participants)
        ≡ ok p)
simple_compose_total ops no_packets policies config {t} h =
    compose_total ops no_packets t.out_var_to_port t.participant_id_to_in_var
      (with_policies policies t.participants)
      (with_policies-Named t.participant_id_to_in_var policies t.participants
        (sdx_parse_config-HaveVars config h))
