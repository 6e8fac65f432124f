-- ===== src/Vnh.antt =====
-- lib/vnh_assignment.py: the prefixes of the participants' policies, the virtual next hops that
-- are assigned to their sets, and the policies rewritten for them; with lib/bgp_interface.py and
-- the state of lib/core.py and lib/common.py that they use.
pub mod Policy
pub mod State
pub mod Prefixes
pub mod Names
pub mod Expansion
pub mod Forwards
pub mod States
mod Tests
