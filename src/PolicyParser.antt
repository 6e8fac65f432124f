-- ===== src/PolicyParser.antt =====
-- policyparser/: the check of the outbound policies against the inbound ones, and the text of the
-- policy modules that are generated.
pub mod Json
pub mod Matching
pub mod Generator
pub mod Parse
pub mod Tests
