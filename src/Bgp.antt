-- ===== src/Bgp.antt =====
-- The route server of bgp/: the RIB tables, a participant's peer object, the decision process, and
-- the loop that handles one message.
pub mod Text
pub mod Inet
pub mod Rib
pub mod Peer
pub mod Decision
pub mod RouteServer
pub mod Relay
pub mod Interface
mod Tests
