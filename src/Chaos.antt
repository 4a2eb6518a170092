-- ===== src/Chaos.antt =====
-- The linearizability checker of chaos-test/src: the history of a run, and the search for an order of
-- its operations.
pub mod History
pub mod Checker
pub mod Member
pub mod Linear
pub mod Tries
pub mod Search
pub mod Complete
pub mod Fast
pub mod Indices
pub mod Fuel
pub mod Late
pub mod Verdict
pub mod Split
pub mod Keys
mod Tests
