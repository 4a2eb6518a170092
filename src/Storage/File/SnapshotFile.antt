-- ===== src/Storage/File/SnapshotFile.antt =====
-- The snapshot of `FileStorage` in src/storage/file.rs.
use raft_vibe.Prelude.{◌≡◌, refl, String, some, Result, ok}
use raft_vibe.Types.{Snapshot}
use raft_vibe.Storage.Text.{Text}
use raft_vibe.Storage.TrimLaws.{Starts}
use raft_vibe.Storage.Checked.{Problem}
use raft_vibe.Storage.File.{FileStorage, next_fault, snapshot_from, load_snapshot, save_snapshot}
use raft_vibe.Storage.File.Read.{read-checked_line, write-ok}

module _ (message : Problem → String) (to_json : Snapshot → Result String Text)
    (from_json : Text → Result String Snapshot) where
  -- Where a snapshot has a JSON text that starts with no white space and is read back as it, a save
  -- that is `Ok` leaves that snapshot to be loaded, and the other three files as they were.
  pub load-save_snapshot :
      (s : FileStorage) (snapshot : Snapshot) (json : Text)
      → to_json snapshot ≡ ok json
      → from_json json ≡ ok snapshot
      → Starts json
      → (save_snapshot message to_json from_json s snapshot).0 ≡ ok tt
      → (load_snapshot message to_json from_json
            (save_snapshot message to_json from_json s snapshot).1
          ≡ ok (some snapshot))
        × ((save_snapshot message to_json from_json s snapshot).1.term ≡ s.term)
        × ((save_snapshot message to_json from_json s snapshot).1.voted_for ≡ s.voted_for)
        × ((save_snapshot message to_json from_json s snapshot).1.log ≡ s.log)
  unfolding load_snapshot save_snapshot
  load-save_snapshot s snapshot json prints reads starts h =
      let e = write-ok (next_fault s.faults) json s.snapshot (rw (save_snapshot, prints) at h) in
      (
        rw (save_snapshot, prints)
            (rw (e, read-checked_line message json starts) (rw (snapshot_from, reads) refl)),
        rw (save_snapshot, prints) refl,
        rw (save_snapshot, prints) refl,
        rw (save_snapshot, prints) refl,
      )
