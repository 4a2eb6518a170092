-- ===== src/Core/Install.antt =====
-- `handle_install_snapshot`.
use raft_vibe.Prelude.{
  Option, some, ◌>>=◌, Result, ok, err, expect, retain, ltb, leb, if◌then◌else◌, add_u64,
}
use raft_vibe.Types.{
  InstallSnapshotArgs, InstallSnapshotResult, success, failed, stale_term, snapshot_too_old,
  save_failed, Snapshot, StorageError,
}
use raft_vibe.Storage.{Storage}
use raft_vibe.Machine.{Machine}
use raft_vibe.Core.State.{RaftCore, Instant}
use raft_vibe.Core.Append.{step_down_if_newer}

abbrev pub snapshot_of : InstallSnapshotArgs → Snapshot
snapshot_of args = record {
  metadata = record {
    last_included_index = args.last_included_index;
    last_included_term = args.last_included_term;
  };
  data_bytes = args.data_bytes;
}

module _ {S M : Type 0} ⦃st : Storage S⦄ ⦃sm : Machine M⦄ where
  -- Steps 2 and 3, once the snapshot is saved. The outcome of `compact_log` is ignored.
  unfoldable pub adopt_snapshot : RaftCore S M → InstallSnapshotArgs → Option (RaftCore S M)
  adopt_snapshot c args = do
    m ← expect (sm.restore c.state_machine args.data_bytes)
    some (record c {
      storage = (st.compact_log c.storage (add_u64 args.last_included_index 1)).1;
      state_machine = m;
      snapshot_last_index = args.last_included_index;
      snapshot_last_term = args.last_included_term;
      log = retain (λ e. ltb args.last_included_index e.index) c.log;
      commit_index =
          if ltb c.commit_index args.last_included_index
          then args.last_included_index
          else c.commit_index;
      last_applied =
          if ltb c.last_applied args.last_included_index
          then args.last_included_index
          else c.last_applied;
    })

  unfoldable pub install_saved :
      RaftCore S M
      → InstallSnapshotArgs
      → Result StorageError (Unit {0}) × S
      → Option (InstallSnapshotResult × RaftCore S M)
  install_saved c args (err e, s) =
      some (failed c.current_term (save_failed e), record c { storage = s })
  install_saved c args (ok _, s) = do
    c₁ ← adopt_snapshot (record c { storage = s }) args
    some (success c₁.current_term, c₁)

  -- The part of `handle_install_snapshot` that follows the tests of the term.
  unfoldable pub install_newer :
      RaftCore S M → InstallSnapshotArgs → Option (InstallSnapshotResult × RaftCore S M)
  unfolding install_saved
  install_newer c args =
      if leb args.last_included_index c.snapshot_last_index
      then some (
        failed c.current_term (snapshot_too_old args.last_included_index c.snapshot_last_index),
        c,
      )
      else install_saved c args (st.save_snapshot c.storage (snapshot_of args))

  unfoldable pub handle_install_snapshot :
      RaftCore S M → InstallSnapshotArgs → Instant → Option (InstallSnapshotResult × RaftCore S M)
  handle_install_snapshot c args now =
      if ltb args.term c.current_term then some (failed c.current_term stale_term, c) else (do
        c₁ ← step_down_if_newer c args.term
        install_newer (record c₁ { last_heartbeat = now; current_leader = some args.leader_id })
            args)
