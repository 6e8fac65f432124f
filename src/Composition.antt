-- ===== src/Composition.antt =====
-- lib/composition.py: the policy of the whole exchange, from those of the participants.
pub mod Total
pub mod Tests
use ixp_irc.Prelude.{true, List, [], ◌∷◌, nat_eq, list_eq, Dict, get, some, Result, ok, ◌>>=◌}
use ixp_irc.Bgp.Text.{Text}
use ixp_irc.Vnh.Policy.{
  Policy, Policies, nil, cons, parallel, sequential, if_, match_, modify, fwd, passthrough,
  no_fields, Operators,
}
use ixp_irc.Vnh.State.{PhysicalPort}

-- A participant with its policy, as the composition reads it.
pub record Composed : Type 0 where
  pub id : Text
  pub phys_ports : List PhysicalPort
  pub policies : Policy

abbrev pub match_state : Text → Policy
match_state state = match_ (record no_fields { state = some state })

-- `no_packets` is Pyretic's.
module _ (ops : Operators) (no_packets : Policy) where
  unfoldable pub match_macs : Policy → List PhysicalPort → Policy
  match_macs p [] = p
  match_macs p (port ∷ ports) =
      match_macs (ops.union p (match_ (record no_fields { srcmac = some port.mac }))) ports

  unfoldable pub sdx_from : Composed → Policy
  unfolding match_macs
  sdx_from participant = match_macs no_packets participant.phys_ports

  unfoldable pub match_states : Policy → Dict Text PhysicalPort → Policy
  match_states p [] = p
  match_states p ((output_var, port) ∷ out_vars) =
      match_states (ops.union p (match_state output_var)) out_vars

  unfoldable pub sdx_restrict_state :
      Dict Text PhysicalPort → Dict Text Text → Composed → Result Policy
  unfolding match_states get
  sdx_restrict_state out_var_to_port in_vars participant = get in_vars participant.id >>= λ var.
      ok (
        if_ (match_states no_packets out_var_to_port) passthrough
          (ops.then (match_state var) participant.policies))

  unfoldable pub restrict_all :
      Dict Text PhysicalPort → Dict Text Text → Dict Text Composed → Result Policies
  unfolding sdx_restrict_state
  restrict_all out_var_to_port in_vars [] = ok nil
  restrict_all out_var_to_port in_vars ((name, participant) ∷ participants) = do
    p ← sdx_restrict_state out_var_to_port in_vars participant
    rest ← restrict_all out_var_to_port in_vars participants
    ok (cons p rest)

  -- The policies of all participants, two times.
  unfoldable pub sdx_participant_policies :
      Dict Text PhysicalPort → Dict Text Text → Dict Text Composed → Result Policy
  unfolding restrict_all
  sdx_participant_policies out_var_to_port in_vars participants = do
    ps ← restrict_all out_var_to_port in_vars participants
    ok (
        sequential
          (cons (sequential (cons passthrough (cons (parallel ps) nil))) (cons (parallel ps) nil)))

  unfoldable pub port_entries :
      Dict Text Text → Text → List PhysicalPort → Policies → Result Policies
  unfolding get
  port_entries in_vars id [] rest = ok rest
  port_entries in_vars id (port ∷ ports) rest = do
    var ← get in_vars id
    entries ← port_entries in_vars id ports rest
    ok (
        cons
          (ops.then (match_ (record no_fields { inport = some port.id }))
            (modify (record no_fields { state = some var })))
          entries)

  unfoldable pub all_entries : Dict Text Text → Dict Text Composed → Result Policies
  unfolding port_entries
  all_entries in_vars [] = ok nil
  all_entries in_vars ((name, participant) ∷ participants) =
      all_entries in_vars participants
      >>= port_entries in_vars participant.id participant.phys_ports

  unfoldable pub sdx_preprocessing : Dict Text Text → Dict Text Composed → Result Policy
  unfolding all_entries
  sdx_preprocessing in_vars participants =
      all_entries in_vars participants >>= λ ps. ok (parallel ps)

  unfoldable pub exits : Dict Text PhysicalPort → Policies
  exits [] = nil
  exits ((output_var, port) ∷ out_vars) =
      cons
        (ops.then
          (ops.then (match_state output_var) (modify (record no_fields { clears_state = true })))
          (fwd port.id))
        (exits out_vars)

  unfoldable pub sdx_postprocessing : Dict Text PhysicalPort → Policy
  unfolding exits
  sdx_postprocessing out_var_to_port = parallel (exits out_var_to_port)

  unfoldable pub simple_compose :
      Dict Text PhysicalPort → Dict Text Text → Dict Text Composed → Result Policy
  unfolding sdx_preprocessing sdx_participant_policies sdx_postprocessing
  simple_compose out_var_to_port in_vars participants = do
    before ← sdx_preprocessing in_vars participants
    within ← sdx_participant_policies out_var_to_port in_vars participants
    ok (ops.then (ops.then before within) (sdx_postprocessing out_var_to_port))
