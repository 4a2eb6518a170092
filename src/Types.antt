-- ===== src/Types.antt =====
-- Data of src/core/raft_core.rs and src/core/snapshot.rs.
use raft_vibe.Prelude.{ℕ, String, Bool, Option, List, Result}

pub data RaftState : Type 0 where
  follower candidate leader : RaftState

pub record LogEntry : Type 0 where
  pub term : ℕ
  pub index : ℕ
  pub command : String

pub record RequestVoteArgs : Type 0 where
  pub term : ℕ
  pub candidate_id : ℕ
  pub last_log_index : ℕ
  pub last_log_term : ℕ

pub record RequestVoteResult : Type 0 where
  pub term : ℕ
  pub vote_granted : Bool

pub record AppendEntriesArgs : Type 0 where
  pub term : ℕ
  pub leader_id : ℕ
  pub prev_log_index : ℕ
  pub prev_log_term : ℕ
  pub entries : List LogEntry
  pub leader_commit : ℕ

pub record AppendEntriesResult : Type 0 where
  pub term : ℕ
  pub success : Bool
  pub conflict_term : Option ℕ
  pub conflict_index : Option ℕ

pub record HandleAppendEntriesOutput : Type 0 where
  pub result : AppendEntriesResult
  pub leader_id : Option ℕ

-- `Vec<u8>`
abbrev pub Bytes : Type 0
Bytes = List ℕ

pub record InstallSnapshotArgs : Type 0 where
  pub term : ℕ
  pub leader_id : ℕ
  pub last_included_index : ℕ
  pub last_included_term : ℕ
  pub data_bytes : Bytes

-- The `enum StorageError`.
pub data StorageError : Type 0 where
  io corruption : String → StorageError
  not_initialized : StorageError

-- The formatted `reason` of a failed installation: its format, with the arguments.
pub data Reason : Type 0 where
  stale_term : Reason
  snapshot_too_old : ℕ → ℕ → Reason
  save_failed : StorageError → Reason

pub data InstallSnapshotResult : Type 0 where
  success : (term : ℕ) → InstallSnapshotResult
  failed : (term : ℕ) → Reason → InstallSnapshotResult

pub record SnapshotMetadata : Type 0 where
  pub last_included_index : ℕ
  pub last_included_term : ℕ

pub record Snapshot : Type 0 where
  pub metadata : SnapshotMetadata
  pub data_bytes : Bytes

-- `Result<String, String>`
abbrev pub ApplyResult : Type 0
ApplyResult = Result String String

abbrev pub noop_command : String
noop_command = "NOOP"
