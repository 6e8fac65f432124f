-- ===== src/Vnh/States.antt =====
-- The ports that a policy forwards to, and the rewriting of policies for them, in
-- lib/vnh_assignment.py: `extract_all_forward_actions_from_policy`, `step5c`, `pre_VNH` and
-- `post_VNH`. Of the texts that Python's `int` takes, only those of decimal digits are modelled.
pub mod Ports
use ixp_irc.Prelude.{
  ℕ, zero, suc, ◌+◌, Bool, true, false, ◌&&◌, ◌||◌, List, [], ◌∷◌, ◌++◌, nat_eq, list_eq, ◌==◌,
  contains, to_set, get_elem?, length, is_nil, eqb, Dict, keys, get, put, lookup, Option, none,
  some, if◌then◌else◌, Result, ok, raise, ◌>>=◌, index_error, value_error,
}
use ixp_irc.Bgp.Text.{Text, codes, str}
use ixp_irc.Bgp.Inet.{digits}
use ixp_irc.SetOperations.Parallel.{first}
use ixp_irc.Vnh.Policy.{
  Policy, parallel, sequential, if_, match_, match_prefixes_set, fwd, modify, passthrough, drop,
  opaque, Policies, nil, cons, Fields, no_fields, Operators,
}
use ixp_irc.Vnh.State.{PhysicalPort, Participant, Sdx}
use ixp_irc.Vnh.Expansion.{match_dstmac}

unfoldable mutual
  unfolding to_set

  pub forward_actions : Policy → List ℕ
  forward_actions (parallel ps) = forward_actions_all ps
  forward_actions (sequential ps) = forward_actions_all ps
  forward_actions (if_ p t f) = to_set (forward_actions t ++ forward_actions f)
  forward_actions (fwd port) = port ∷ []
  forward_actions (match_ m) = []
  forward_actions (match_prefixes_set s) = []
  forward_actions (modify m) = []
  forward_actions passthrough = []
  forward_actions drop = []
  forward_actions (opaque n) = []

  pub forward_actions_all : Policies → List ℕ
  forward_actions_all nil = []
  forward_actions_all (cons p ps) = to_set (forward_actions p ++ forward_actions_all ps)

abbrev pub match_outport : ℕ → Policy
match_outport port = match_ (record no_fields { outport = some port })

abbrev pub modify_dstmac : Text → Policy
modify_dstmac mac = modify (record no_fields { dstmac = some mac })

-- `p`, from the pairs of names of one neighbor
unfoldable pub rename_all :
    Operators → Dict Text Text → Dict Text Text → Option Policy → Result (Option Policy)
unfolding get
rename_all ops vnh_2_mac [] p = ok p
rename_all ops vnh_2_mac ((a, b) ∷ pairs) p = do
  from ← get vnh_2_mac a
  to ← get vnh_2_mac b
  rename_all ops vnh_2_mac pairs (
      some (elim p as (λ x. Policy) [
        | none ↦ if_ (match_dstmac from) (modify_dstmac to) passthrough
        | some q ↦ ops.then q (if_ (match_dstmac from) (modify_dstmac to) passthrough)
      ]))

-- `rewrite_policy` after one neighbor
abbrev pub add_rewrite : Operators → ℕ → Option Policy → Option Policy → Option Policy
add_rewrite ops port rewrite none = rewrite
add_rewrite ops port none (some p) = some (ops.then (match_outport port) p)
add_rewrite ops port (some q) (some p) = some (ops.plus q (ops.then (match_outport port) p))

module _ (ops : Operators) (participant : Text) (participant_list : Dict Text (Dict Text (List ℕ)))
    (fwd_map : Dict Text (Dict Text (Dict Text Text))) (vnh_2_mac : Dict Text Text) where
  unfoldable pub neighbor_rewrite : Text → Option Policy → Result (Option Policy)
  unfolding get rename_all first
  neighbor_rewrite neighbor rewrite = do
    maps ← get fwd_map participant
    pairs ← get maps neighbor
    p ← rename_all ops vnh_2_mac pairs none
    elim p [
      | none ↦ ok rewrite
      | some q ↦ get participant_list participant >>= λ ports.
          (get ports neighbor >>= λ l.
          (first l >>= λ port. ok (add_rewrite ops port rewrite (some q))))
    ]

  unfoldable pub rewrite_from : List Text → Option Policy → Result (Option Policy)
  unfolding neighbor_rewrite
  rewrite_from [] rewrite = ok rewrite
  rewrite_from (neighbor ∷ neighbors) rewrite =
      let next =
        if neighbor == participant then ok rewrite else neighbor_rewrite neighbor rewrite in
      next >>= λ r. rewrite_from neighbors r

unfoldable pub owners : Dict ℕ Text → List ℕ → Result (List Text)
unfolding get
owners port_2_participant [] = ok []
owners port_2_participant (a ∷ ports) = do
  name ← get port_2_participant a
  rest ← owners port_2_participant ports
  ok (name ∷ rest)

unfoldable pub step5c :
    Operators
    → Policy
    → Text
    → Dict Text (Dict Text (List ℕ))
    → Dict ℕ Text
    → Dict Text (Dict Text (Dict Text Text))
    → Dict Text Text
    → Result Policy
unfolding forward_actions owners rewrite_from to_set
step5c ops policy participant participant_list port_2_participant fwd_map vnh_2_mac = do
  names ← owners port_2_participant (forward_actions policy)
  rewrite ← rewrite_from ops participant participant_list fwd_map vnh_2_mac (to_set names) none
  ok (elim rewrite as (λ x. Policy) [ none ↦ passthrough | some p ↦ p ])

-- The text behind the prefix, if the text starts with it.
unfoldable pub strip : Text → Text → Option Text
strip [] t = some t
strip (c ∷ cs) [] = none
strip (c ∷ cs) (d ∷ t) = let rest = strip cs t in if eqb c d then rest else none

-- `sub in text`
unfoldable pub occurs : Text → Text → Bool
unfolding strip
occurs sub [] = is_nil sub
occurs sub (c ∷ t) = elim (strip sub (c ∷ t)) [ some rest ↦ true | none ↦ occurs sub t ]

-- The text before the first `sub`.
unfoldable pub up_to : Text → Text → Text
unfolding strip
up_to sub [] = []
up_to sub (c ∷ t) = elim (strip sub (c ∷ t)) [ some rest ↦ [] | none ↦ c ∷ up_to sub t ]

-- `text.split(sub)[1]`, for a `sub` that is not empty
unfoldable pub second_part : Text → Text → Result Text
unfolding strip up_to
second_part sub [] = raise index_error
second_part sub (c ∷ t) = elim (strip sub (c ∷ t)) [
  | some rest ↦ ok (up_to sub rest)
  | none ↦ second_part sub t
]

unfoldable pub port_at : Participant → ℕ → Result ℕ
port_at participant i = elim (get_elem? participant.phys_ports i) [
  | none ↦ raise index_error
  | some port ↦ ok port.id
]

-- `participant.peers[peer].participant`; `add_participant` has put it under its name.
unfoldable pub forward_to : Sdx → Text → Participant → Text → Result Policy
unfolding occurs second_part port_at get contains digits
forward_to sdx participant_name participant state = elim (occurs (codes "in") state) [
  | true ↦ second_part (codes "in") state >>= λ peer.
      (get sdx.participants peer >>= λ other. (port_at other 0 >>= λ port. ok (fwd port)))
  | false ↦ second_part (codes "out" ++ (participant_name ++ codes "_")) state >>= λ pn.
      (elim (digits 10 pn) as (λ x. Result Policy) [
        | none ↦ raise value_error
        | some i ↦ port_at participant i >>= λ port. ok (fwd port)
      ])
]

module _ (sdx : Sdx) (participant_name : Text) (participant : Participant) where
  unfoldable mutual
    unfolding forward_to

    pub pre_vnh : Policy → Result Policy
    pre_vnh (parallel ps) = pre_vnh_all ps >>= λ qs. ok (parallel qs)
    pre_vnh (sequential ps) = pre_vnh_all ps >>= λ qs. ok (sequential qs)
    pre_vnh (if_ p t f) =
        pre_vnh p >>= λ p'. (pre_vnh t >>= λ t'. (pre_vnh f >>= λ f'. ok (if_ p' t' f')))
    pre_vnh (modify m) = elim m.state [
      | none ↦ ok (modify m)
      | some state ↦ forward_to sdx participant_name participant state
    ]
    pre_vnh (match_ m) = ok (match_ m)
    pre_vnh (match_prefixes_set s) = ok (match_prefixes_set s)
    pre_vnh (fwd port) = ok (fwd port)
    pre_vnh passthrough = ok passthrough
    pre_vnh drop = ok drop
    pre_vnh (opaque n) = ok (opaque n)

    pub pre_vnh_all : Policies → Result Policies
    pre_vnh_all nil = ok nil
    pre_vnh_all (cons p ps) = pre_vnh p >>= λ q. (pre_vnh_all ps >>= λ qs. ok (cons q qs))

-- `port_2_state` and `port_2_mac`
pub record PortStates : Type 0 where
  pub states : Dict ℕ Text
  pub macs : Dict ℕ Text

-- The states of all physical ports of the participant, from the index `i`.
unfoldable pub own_states : Sdx → Text → Text → ℕ → List ℕ → PortStates → Result PortStates
unfolding put str get
own_states sdx name peer i [] s = ok s
own_states sdx name peer i (port ∷ ids) s = get sdx.sdx_ports name >>= λ ports.
    (elim (get_elem? ports i) as (λ x. Result PortStates) [
      | none ↦ raise index_error
      | some physical ↦ own_states sdx name peer (i + 1) ids (record {
        states = put port (codes "out" ++ (peer ++ (codes "_" ++ str i))) s.states;
        macs = put port physical.mac s.macs;
      })
    ])

unfoldable pub port_states : Sdx → Text → List ℕ → PortStates → Result PortStates
unfolding get put own_states
port_states sdx name [] s = ok s
port_states sdx name (port ∷ fwdport) s = do
  peer ← get sdx.port_2_participant port
  s' ← elim (peer == name) as (λ x. Result PortStates) [
    | false ↦ ok (record s { states = put port (codes "in" ++ peer) s.states })
    | true ↦ get sdx.participant_2_port name >>= λ lists.
        (get lists peer >>= λ ids. own_states sdx name peer 0 ids s)
  ]
  port_states sdx name fwdport s'

unfoldable pub state_rules : Operators → Dict ℕ Text → Dict ℕ Text → Policy → Result Policy
unfolding occurs get
state_rules ops macs [] pol = ok pol
state_rules ops macs ((port, state) ∷ states) pol = do
  rule ← elim (occurs (codes "out") state) as (λ x. Result Policy) [
    | true ↦ get macs port >>= λ mac.
        ok (modify (record no_fields { state = some state; dstmac = some mac }))
    | false ↦ ok (modify (record no_fields { state = some state }))
  ]
  state_rules ops macs states (ops.plus pol (ops.then (match_outport port) rule))

unfoldable pub post_vnh : Operators → Policy → Sdx → Text → Result Policy
unfolding forward_actions port_states state_rules
post_vnh ops policy sdx participant_name = do
  s ← port_states sdx participant_name (forward_actions policy) (record { states = []; macs = [] })
  pol ← state_rules ops s.macs s.states drop
  ok (ops.then policy pol)
