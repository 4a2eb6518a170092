-- ===== src/Storage.antt =====
-- The trait of src/storage/traits.rs, and what Raft needs of an implementation.
pub mod Memory
pub mod VoteLaws
pub mod Reliable
pub mod Text
pub mod TextLaws
pub mod TrimLaws
pub mod Checked
pub mod File
mod TextTests
use raft_vibe.Prelude.{ℕ, Option, List, Result}
use raft_vibe.Types.{LogEntry, Snapshot, StorageError}

-- `trait Storage`: a method that mutates returns its result and the new store.
pub record Storage (S : Type 0) : Type 0 where
  pub load_term : S → Result StorageError ℕ
  pub save_term : S → ℕ → Result StorageError (Unit {0}) × S
  pub load_voted_for : S → Result StorageError (Option ℕ)
  pub save_voted_for : S → Option ℕ → Result StorageError (Unit {0}) × S
  pub load_log : S → Result StorageError (List LogEntry)
  pub append_log_entries : S → List LogEntry → Result StorageError (Unit {0}) × S
  pub truncate_log : S → ℕ → Result StorageError (Unit {0}) × S
  pub compact_log : S → ℕ → Result StorageError (Unit {0}) × S
  pub load_snapshot : S → Result StorageError (Option Snapshot)
  pub save_snapshot : S → Snapshot → Result StorageError (Unit {0}) × S
