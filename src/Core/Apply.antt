-- ===== src/Core/Apply.antt =====
-- `apply_committed_entries`, `take_snapshot` and `load_snapshot`.
use raft_vibe.Prelude.{
  ℕ, zero, suc, ◌+◌, ◌-◌, String, Option, none, some, List, [], ◌∷◌, ◌>>=◌, Result, ok, err, retain,
  leb, ltb, ◌==◌, if◌then◌else◌, add_u64, sub_u64, ◌&&◌,
}
use raft_vibe.Types.{Bytes, LogEntry, ApplyResult, Snapshot, StorageError}
use raft_vibe.Storage.{Storage}
use raft_vibe.Machine.{Machine}
use raft_vibe.Core.State.{RaftCore}
use raft_vibe.Core.Query.{get_log_entry}

-- The errors of `take_snapshot`: each message by its format and arguments.
pub data SnapshotError : Type 0 where
  nothing_applied : SnapshotError
  already_taken : ℕ → ℕ → SnapshotError
  last_applied_missing : SnapshotError
  machine_failed : String → SnapshotError
  save_failed compact_failed : StorageError → SnapshotError

module _ {S M : Type 0} where
  -- The snapshot up to `last_applied`, whose entry is `e`.
  abbrev pub snapshot_at : RaftCore S M → LogEntry → Bytes → Snapshot
  snapshot_at c e bytes = record {
    metadata = record { last_included_index = c.last_applied; last_included_term = e.term };
    data_bytes = bytes;
  }

module _ {S M : Type 0} ⦃st : Storage S⦄ where
  unfoldable pub load_snapshot : RaftCore S M → Result StorageError (Option Snapshot)
  load_snapshot c = st.load_snapshot c.storage

module _ {S M : Type 0} ⦃st : Storage S⦄ ⦃sm : Machine M⦄ where
  -- After `save_snapshot`: the boundary moves, then the two logs are compacted. If the storage fails
  -- to compact, `?` returns before the log in memory is.
  unfoldable pub compacted :
      RaftCore S M
      → Snapshot
      → Result StorageError (Unit {0}) × S
      → Result SnapshotError (Unit {0}) × RaftCore S M
  compacted c snap (err e, s) = (
    err (compact_failed e),
    record c {
      storage = s;
      snapshot_last_index = snap.metadata.last_included_index;
      snapshot_last_term = snap.metadata.last_included_term;
    },
  )
  compacted c snap (ok _, s) = (
    ok tt,
    record c {
      storage = s;
      snapshot_last_index = snap.metadata.last_included_index;
      snapshot_last_term = snap.metadata.last_included_term;
      log = retain (λ e. leb (add_u64 snap.metadata.last_included_index 1) e.index) c.log;
    },
  )

  unfoldable pub saved :
      RaftCore S M
      → Snapshot
      → Result StorageError (Unit {0}) × S
      → Result SnapshotError (Unit {0}) × RaftCore S M
  unfolding compacted
  saved c snap (err e, s) = (err (save_failed e), record c { storage = s })
  saved c snap (ok _, s) =
      compacted c snap (st.compact_log s (add_u64 snap.metadata.last_included_index 1))

  unfoldable pub save_at :
      RaftCore S M → LogEntry → Result String Bytes → Result SnapshotError (Unit {0}) × RaftCore S M
  unfolding saved
  save_at c e (err message) = (err (machine_failed message), c)
  save_at c e (ok bytes) =
      saved c (snapshot_at c e bytes) (st.save_snapshot c.storage (snapshot_at c e bytes))

  unfoldable pub take_snapshot : RaftCore S M → Result SnapshotError (Unit {0}) × RaftCore S M
  unfolding save_at
  take_snapshot c =
      if c.last_applied == 0
      then (err nothing_applied, c)
      else if leb c.last_applied c.snapshot_last_index
      then (err (already_taken c.snapshot_last_index c.last_applied), c)
      else elim (get_log_entry c c.last_applied) [
        | none ↦ (err last_applied_missing, c)
        | some e ↦ save_at c e (sm.snapshot c.state_machine)
      ]

  -- The `while` loop: each round raises `last_applied` by one, so the rounds left are counted.
  unfoldable pub apply_loop : ℕ → RaftCore S M → Option (List (ℕ × ApplyResult) × RaftCore S M)
  apply_loop zero c = some ([], c)
  apply_loop (suc rounds) c = do
    e ← get_log_entry c (c.last_applied + 1)
    let (result, m) = sm.apply c.state_machine e.command
    (results, c') ←
        apply_loop rounds (record c { last_applied = c.last_applied + 1; state_machine = m })
    some ((c.last_applied + 1, result) ∷ results, c')

  unfoldable pub auto_snapshot : RaftCore S M → RaftCore S M
  auto_snapshot c =
      if ltb 0 c.snapshot_threshold
        && leb c.snapshot_threshold (sub_u64 c.last_applied c.snapshot_last_index)
      then (take_snapshot c).1
      else c

  unfoldable pub apply_committed_entries :
      RaftCore S M → Option (List (ℕ × ApplyResult) × RaftCore S M)
  apply_committed_entries c = do
    (results, c') ← apply_loop (c.commit_index - c.last_applied) c
    some (results, auto_snapshot c')
