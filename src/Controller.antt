-- ===== src/Controller.antt =====
-- main.py: the policies of the exchange, which `update_policy` composes anew on each event, with
-- `sdx_parse_policies` of lib/core.py, and the two threads with the queues between them. What
-- a participant's module makes of the participant and the exchange is a parameter, as are its import
-- and Pyretic: each of them can raise. A module reads the exchange and does not change it.
pub mod Silence
pub mod Imports
pub mod Total
pub mod Handshake
pub mod Tests
use ixp_irc.Prelude.{
  ℕ, Bool, true, false, not, List, [], ◌∷◌, ◌++◌, Option, none, some, nat_eq, list_eq, ◌==◌, Dict,
  get, lookup, put, if◌then◌else◌, Result, ok, raise, attribute_error, ◌>>=◌, ◌≡◌,
}
use ixp_irc.Bgp.Text.{Text, codes, is_part}
use ixp_irc.Bgp.RouteServer.{VnhTables, PolicyThread}
use ixp_irc.Vnh.Policy.{Policy, Policies, nil, cons, parallel, Operators}
use ixp_irc.Vnh.State.{PhysicalPort}
use ixp_irc.Composition.{Composed, simple_compose}
use ixp_irc.Utils.{get_ip_mac_list}

-- A participant, whose `policies` are `None` at first.
pub record Held : Type 0 where
  pub id : Text
  pub phys_ports : List PhysicalPort
  pub policies : Option Policy

-- The `sdx` of the controller, its `policy`, and the `mac_of` of the ARP responder.
pub record Controller : Type 0 where
  pub vnh : VnhTables
  pub vnh_2_mac : Dict Text Text
  pub participants : Dict Text Held
  pub out_var_to_port : Dict Text PhysicalPort
  pub participant_id_to_in_var : Dict Text Text
  pub policy : Policy
  pub mac_of : Dict Text Text

-- A module, by what its `policy(participant, sdx)` returns or raises.
abbrev pub Module : Type 0
Module = Held → Controller → Result Policy

-- `import_module`, which returns a module or raises.
abbrev pub ImportModule : Type 0
ImportModule = Text → Result Module

unfoldable pub import_modules : ImportModule → List Text → Result (List Module)
import_modules import_module [] = ok []
import_modules import_module (name ∷ names) = do
  m ← import_module name
  ms ← import_modules import_module names
  ok (m ∷ ms)

unfoldable pub module_policies : List Module → Held → Controller → Result Policies
module_policies [] participant c = ok nil
module_policies (m ∷ ms) participant c = do
  p ← m participant c
  ps ← module_policies ms participant c
  ok (cons p ps)

-- The loop over `sdx_policies`: the result beside the controller as the loop leaves it.
unfoldable pub assign_policies :
    ImportModule → Dict Text (List Text) → Controller → Result {0} Unit × Controller
unfolding import_modules module_policies get put
assign_policies import_module [] c = (ok tt, c)
assign_policies import_module ((name, modules) ∷ rest) c = elim (get c.participants name) [
  | raise x ↦ (raise x, c)
  | ok participant ↦
      let policies =
        import_modules import_module modules >>= λ ms. module_policies ms participant c in
      elim policies [
        | raise x ↦ (raise x, c)
        | ok ps ↦
            let held = record participant { policies = some (parallel ps) } in
            assign_policies import_module rest
              (record c { participants = put name held c.participants })
      ]
]

-- `compile` of Pyretic: it returns, or raises.
abbrev pub Compile : Type 0
Compile = Policy → Result {0} Unit

-- The loop that compiles the policies of each participant, with the participants as they are then:
-- `None` has no `compile`. What `compile` returns is not used.
unfoldable pub compile_all : Compile → Dict Text Held → Result (Dict Text Composed)
compile_all compile [] = ok []
compile_all compile ((name, h) ∷ participants) = elim h.policies [
  | none ↦ raise attribute_error
  | some p ↦ compile p >>= λ u. compile_all compile participants >>= λ rest.
      ok ((name, record { id = h.id; phys_ports = h.phys_ports; policies = p }) ∷ rest)
]

module _ (ops : Operators) (no_packets : Policy) (import_module : ImportModule)
    (compile : Compile) where
  -- After the policies are assigned.
  unfoldable pub compose_all : Controller → Result {0} Unit × Controller
  unfolding compile_all simple_compose get_ip_mac_list
  compose_all c = elim (compile_all compile c.participants) [
    | raise x ↦ (raise x, c)
    | ok participants ↦
        elim (simple_compose ops no_packets c.out_var_to_port c.participant_id_to_in_var
          participants) [
            | raise x ↦ (raise x, c)
            | ok policy ↦
                let c' = record c { policy = policy } in
                elim (get_ip_mac_list c'.vnh.vnh_2_ip c'.vnh_2_mac) [
                  | raise x ↦ (raise x, c')
                  | ok mac_of ↦ (ok tt, record c' { mac_of = mac_of })
                ]
          ]
  ]

  -- `update_policy`, for the decoded policy file
  unfoldable pub update_policy : Dict Text (List Text) → Controller → Result {0} Unit × Controller
  unfolding assign_policies compose_all
  update_policy sdx_policies c =
      let (result, c') = assign_policies import_module sdx_policies c in
      elim result [ raise x ↦ (raise x, c') | ok u ↦ compose_all c' ]

  -- What the route server sees of `update_policy`, which it waits for.
  unfoldable pub policy_thread : Dict Text (List Text) → Controller → PolicyThread
  unfolding update_policy
  policy_thread sdx_policies c ps t = (update_policy sdx_policies (record c { vnh = t })).1.vnh

-- The queues, whether the route server waits in `bgp_trigger_update`, and whether the controller has
-- put its first event.
pub record Queues : Type 0 where
  pub event_queue : List Text
  pub ready_queue : List Text
  pub waits : Bool
  pub initialized : Bool

-- The two threads run before the controller puts its first event.
abbrev pub started : Queues
started = record { event_queue = []; ready_queue = []; waits = false; initialized = false }

-- `event_queue.put("init")`
unfoldable pub initialize : Queues → Option Queues
initialize q =
    if q.initialized
    then none
    else some (record q { event_queue = q.event_queue ++ codes "init" ∷ []; initialized = true })

-- The first line of `bgp_trigger_update`, from which on the route server waits.
unfoldable pub bgp_trigger_update : Queues → Option Queues
bgp_trigger_update q =
    if q.waits
    then none
    else some (record q { event_queue = q.event_queue ++ codes "bgp" ∷ []; waits = true })

-- One turn of `dynamic_update_policy_event_hadler`, whose `update_policy` returns.
unfoldable pub handle_event : Queues → Option Queues
unfolding is_part
handle_event q = elim q.event_queue [
  | [] ↦ none
  | event_source ∷ events ↦ some (
      if is_part (codes "bgp") event_source
      then record q { event_queue = events; ready_queue = q.ready_queue ++ event_source ∷ [] }
      else record q { event_queue = events })
]

-- One turn of the loop of `bgp_trigger_update`, which ends at "bgp".
unfoldable pub take_ready : Queues → Option Queues
take_ready q = elim q.ready_queue [
  | [] ↦ none
  | source ∷ sources ↦
      if q.waits
      then some (record q { ready_queue = sources; waits = not (source == codes "bgp") })
      else none
]

-- What one of the threads does.
pub data Step : Queues → Queues → Type 0 where
  initializes : {q q' : Queues} → initialize q ≡ some q' → Step q q'
  triggers : {q q' : Queues} → bgp_trigger_update q ≡ some q' → Step q q'
  handles : {q q' : Queues} → handle_event q ≡ some q' → Step q q'
  takes : {q q' : Queues} → take_ready q ≡ some q' → Step q q'

pub data Reachable : Queues → Type 0 where
  at_start : Reachable started
  after : {q q' : Queues} → Reachable q → Step q q' → Reachable q'
