-- ===== src/Machine.antt =====
-- The traits of src/state_machine/traits.rs.
pub mod Dict
pub mod Kv
use raft_vibe.Prelude.{String, Result}
use raft_vibe.Types.{ApplyResult, Bytes}

-- `trait StateMachine` and `trait Snapshotable: StateMachine`.
pub record Machine (M : Type 0) : Type 0 where
  pub validate : M → String → Result String (Unit {0})
  pub apply : M → String → ApplyResult × M
  pub snapshot : M → Result String Bytes
  pub restore : M → Bytes → Result String (Unit {0}) × M
