-- ===== src/Controller/Tests.antt =====
-- Small runs of the controller.
use ixp_irc.Prelude.{
  true, false, List, [], ◌∷◌, none, some, nat_eq, list_eq, filter, contains, lookup, get, put, ok,
  In, inl, inr, subst, sym, refl, ◌≡◌,
}
use ixp_irc.Bgp.Text.{Text, codes, aspath_length, as_number, is_part}
use ixp_irc.Bgp.Rib.{empty}
use ixp_irc.Bgp.Peer.{Message, neighbor}
use ixp_irc.Bgp.Decision.{Participants, best_path_selection}
use ixp_irc.Bgp.RouteServer.{serve, round, Sent}
use ixp_irc.Vnh.Policy.{parallel, sequential, passthrough, drop, nil, cons, Operators}
use ixp_irc.Controller.{
  Controller, ImportModule, Compile, update_policy, policy_thread, Queues, bgp_trigger_update,
  handle_event, initialize, initializes, triggers, handles, Reachable, at_start, after,
}
use ixp_irc.Controller.Handshake.{IsBalanced, Reachable-IsBalanced, Resumes, Reachable-Resumes}
use ixp_irc.Controller.Silence.{serve-silent}
use ixp_irc.Controller.Imports.{Returns}
use ixp_irc.Controller.Total.{update_policy_total}

-- The route server asks for the policies before the controller has met its first event.
abbrev asked : Queues
asked = record {
  event_queue = codes "bgp" ∷ codes "init" ∷ [];
  ready_queue = [];
  waits = true;
  initialized = true;
}

abbrev answered : Queues
answered = record {
  event_queue = codes "init" ∷ [];
  ready_queue = codes "bgp" ∷ [];
  waits = true;
  initialized = true;
}

asked-Reachable : Reachable asked
unfolding bgp_trigger_update initialize
asked-Reachable =
    after
      (after
        {q' = record {
          event_queue = codes "bgp" ∷ [];
          ready_queue = [];
          waits = true;
          initialized = false;
        }}
        at_start (triggers refl))
      (initializes refl)

answered-Reachable : Reachable answered
unfolding handle_event is_part
answered-Reachable = after asked-Reachable (handles refl)

Reachable-IsBalanced_example : IsBalanced answered
Reachable-IsBalanced_example = Reachable-IsBalanced answered-Reachable

Reachable-Resumes_example : Resumes asked
Reachable-Resumes_example = Reachable-Resumes asked-Reachable

abbrev trees : Operators
trees = record {
  then = λ p q. sequential (cons p (cons q nil));
  plus = λ p q. parallel (cons p (cons q nil));
  union = λ p q. parallel (cons p (cons q nil));
  meet = λ p q. sequential (cons p (cons q nil));
}

abbrev pass : ImportModule
pass name = ok (λ participant c. ok passthrough)

abbrev compiles_all : Compile
compiles_all p = ok tt

abbrev pass-Returns : Returns (pass (codes "participants.A"))
pass-Returns = ((λ participant c. ok passthrough), refl, λ h c. (passthrough, refl))

abbrev controller : Controller
controller = record {
  vnh = record { vnh_2_pfx = []; vnh_2_ip = (codes "VNH", codes "172.0.1.1") ∷ [] };
  vnh_2_mac = (codes "VNH", codes "AA:00:00:00:00:00") ∷ [];
  participants = (codes "A", record { id = codes "A"; phys_ports = []; policies = none }) ∷ [];
  out_var_to_port = [];
  participant_id_to_in_var = (codes "A", codes "inA") ∷ [];
  policy = drop;
  mac_of = [];
}

abbrev policy_files : List (Text × List Text)
policy_files = (codes "A", codes "participants.A" ∷ []) ∷ []

updates : (update_policy trees drop pass compiles_all policy_files controller).0 ≡ ok tt
unfolding update_policy get put lookup
updates = refl

abbrev peers : Participants
peers =
    (codes "A", record { ips = codes "172.0.0.1" ∷ []; input = empty; local = empty })
    ∷ (codes "B", record { ips = codes "172.0.0.2" ∷ []; input = empty; local = empty })
    ∷ []

abbrev announcement : Message
announcement = neighbor (record {
  ip = some (codes "172.0.0.1");
  is_down = false;
  update = some (record {
    attribute = some (record {
      origin = none;
      as_path = some (as_number 100 ∷ []);
      med = none;
      atomic_aggregate = none;
    });
    announce = some (some ((codes "11.0.0.0/8", some (codes "172.0.0.1")) ∷ []));
    withdraw = none;
  });
})

served :
    serve
      (policy_thread trees drop pass compiles_all policy_files controller)
      (announcement ∷ [])
      controller.vnh
      peers
    ≡ ([], ok tt) ∷ []
unfolding serve round policy_thread filter contains lookup get put aspath_length best_path_selection
served = refl

abbrev nothing : Sent
nothing = ([], ok tt)

serve-silent_example : nothing.0 ≡ []
serve-silent_example =
    serve-silent trees drop pass compiles_all policy_files controller (announcement ∷ []) peers
      nothing refl (subst (λ l. In nothing l) (sym served) (inl refl))

update_policy_total_example :
    (update_policy trees drop pass compiles_all policy_files controller).0 ≡ ok tt
unfolding lookup contains
update_policy_total_example =
    update_policy_total trees drop pass compiles_all policy_files controller (λ p. refl)
      ((pass-Returns, tt), tt) ((_, refl), tt) (refl, tt) (inr refl, tt) ((codes "inA", refl), tt)
      (inl refl, tt)
