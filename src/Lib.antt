-- ===== src/Lib.antt =====
-- SDX controller for an Internet exchange point: the route server, its decision process, and the
-- decomposition of the participants' prefixes into the sets that share a virtual next hop.
--
-- The program. Each participant of the exchange sends BGP messages, which ExaBGP turns into JSON.
-- The route server (bgp/route_server.py) gives each message to the participants' peer objects
-- (bgp/peer.py), which keep two tables (bgp/rib.py): `input`, what the participant announced, and
-- `local`, its best routes. For each announced or withdrawn route the decision process
-- (bgp/decision_process.py) chooses the best routes anew. The loop then sends withdrawals, waits
-- for the policy thread (main.py) to compose the policies of the exchange, and announces every
-- prefix that has a virtual next hop under it. The virtual next hops come from the assignment
-- (lib/vnh_assignment.py), which splits the prefixes that the participants' policies name into
-- disjoint sets (lib/set_operations.py); its call in lib/core.py is commented out. The policy
-- parser (policyparser/) writes modules of participants' policies, and the byte counter
-- (pending/byte_counter.py) records the traffic.
--
-- The files.
--   Prelude: the names and types shared by all files. Tests has the Boolean tests on numbers,
--     Classes the equality that `==` and `in` use, Lists the lists, Dicts the dictionaries as
--     association lists without a key twice, Results the results with the exceptions.
--   SetOperations: `decompose_simpler` of lib/set_operations.py, and what it calls. Step has the
--     replacement that one call of `decompose_set` makes, Round the shared set of one key, Origin
--     where a new group comes from, Partition and Cover which prefixes the groups hold, Progress
--     the invariant of the loop, Catalogue the list of sets, Decomposition the whole function.
--   SetOperations.Parallel: `decmopose_parallel` and `lcs_parallel` of the same file, which
--     decompose by halves; Keys and Halves have their proofs. Processes: the same with processes
--     (Refinement compares the two). Recompute: `prefix_decompose` and `lcs_recompute`.
--   Bgp.Text and Bgp.Inet: the texts of AS paths and addresses; Text.Ases reads a path back,
--     Inet.RoundTrip the two conversions. Bgp.Relay: bgp/client.py and bgp/server.py, the lines that
--     pass between ExaBGP and the queues; Delivery what arrives. Bgp.Interface: a route that is put
--     into the queue by lib/bgp_interface.py.
--   Bgp.Rib: bgp/rib.py, a table as its rows and the rows of the last commit; Rib.Laws reads after
--     changes.
--   Bgp.Peer: bgp/peer.py, `update` with its branches, and the other methods; Effects and Routine
--     what a message does to the tables.
--   Bgp.Decision: bgp/decision_process.py. Order, Sorting and Med are about step 2, Filter is its
--     result, Paths is step 1, Router step 3, Selection the function as a whole, Members where its
--     result comes from, Inputs what `decision_process` leaves alone, Rows, Loops, Dropped and
--     Withdrawals what its loops do to the best routes.
--   Bgp.RouteServer: one round of the loop of `start` of bgp/route_server.py, and
--     bgp/decision_process_simple.py; Errors has a message that raises in the loop, Keys the
--     participants, Updates and Decided the two loops on the tables, Rounds sequences of rounds,
--     Quiet the messages after which nothing is decided, Announcing what the last loops send.
--   Vnh: lib/vnh_assignment.py with lib/bgp_interface.py. Policy has the trees of policies, State
--     the fields of the SDX (lib/core.py, lib/common.py) and the reads of the tables, Prefixes the
--     prefixes of the policies (Forwards what they are), Names the virtual next hops (Pool the
--     addresses), Expansion step 5 and `vnh_assignment` (Shared the list that its calls share),
--     States the ports of a policy, `step5c`, `pre_VNH` and `post_VNH` (Ports the ports).
--   Core: `sdx_parse_config` of lib/core.py and the tables it fills; Config when it returns,
--     Variables the state variables of the participants.
--   Composition: lib/composition.py, the policy of the exchange; Total when there is one. Utils:
--     utils/__init__.py.
--   Controller: main.py with `sdx_parse_policies` of lib/core.py; Imports when the modules give
--     policies, Total when `update_policy` returns, Silence what the route server then sends,
--     Handshake the two queues between the threads.
--   PolicyParser: policyparser/. Json has the decoded values, Matching the check of the policies
--     (Rules and Agreement what it decides), Generator the texts of the rules (Letters how many),
--     Parse the loop over the files (Written what it writes).
--   ByteCounter: pending/byte_counter.py; Records the rows, Rates what they hold.
--
-- The state. Python objects that are changed in place are passed on and returned: the dictionary
-- `part_2_prefix`, the tables of a peer, the participants of the exchange. A function that can
-- raise returns a `Result`; where the program goes on with what was done before the exception, the
-- state stands beside the result, and so do the messages that are sent. The order in which Python
-- walks through a dictionary is that of the list that models it, and the theorems hold for any such
-- list. A set that the program builds (`get_pdict` walks through one) comes in one fixed order, that
-- of `to_set`: the last place of each element in the list that it is built from. Python's may be
-- another, and nothing is claimed for another order.
--
-- Fuel. `med_loop` has the length of `as_list` as fuel, and its index rises by at least one in
-- each turn. `decmopose_from` has the number of participants, which each half lowers. `str` has
-- one more than the number, which is more than its digits.
--
-- Not modelled. The set-up of connections and threads; sqlite3, of which is used that rows come
-- back in the order of their insertion, with values of the types of the columns; ExaBGP (exabgp/ is a copy of that project), Pyretic and
-- netaddr; the start and join of processes, but for a parent that waits for a process that died; the
-- policy modules of the participants, their import and Pyretic's compiler, which are parameters that
-- return or raise, where a module does not change the exchange; Jinja and the files that the policy parser reads and writes; the table of the
-- utilization in pending/byte_counter.py and `is_Active` of lib/vnh_assignment.py, which nothing
-- calls; the SNMP scripts of pending/, utils/arp.py, which is Pyretic's, the superseded modules of
-- stash/, and the demonstrations, topologies and experiments of examples/, scripts/ and tests/.
pub mod PolicyParser
pub mod Prelude
pub mod SetOperations
pub mod Bgp
pub mod Vnh
pub mod Core
pub mod Utils
pub mod Composition
pub mod Controller
pub mod ByteCounter
