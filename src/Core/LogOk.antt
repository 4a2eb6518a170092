-- ===== src/Core/LogOk.antt =====
-- The invariant of the log and its indices, and that `take_snapshot` keeps it.
use raft_vibe.Prelude.{
  ℕ, ◌+◌, ◌-◌, ◌≤◌, ◌<◌, ◌≡◌, refl, String, length, drop, length-drop, get_elem?-drop, add_u64,
  u64_mod, Result, ok, err, Option-cases, inl, inr, arith,
}
use raft_vibe.Types.{LogEntry, Bytes, StorageError}
use raft_vibe.Storage.{Storage}
use raft_vibe.Storage.Reliable.{Reliable}
use raft_vibe.Machine.{Machine}
use raft_vibe.Core.State.{RaftCore}
use raft_vibe.Core.Query.{get_log_entry}
use raft_vibe.Core.Apply.{compacted, saved, save_at, snapshot_at, take_snapshot, auto_snapshot}
use raft_vibe.Core.Log.{Contiguous, Contiguous-drop, retain-Contiguous}

-- No gaps; snapshot ≤ applied ≤ committed ≤ last entry; and room for one more index.
pub record LogOk {S M : Type 0} (c : RaftCore S M) : Type 0 where
  pub contiguous : Contiguous c.snapshot_last_index c.log
  pub snapshot_le : c.snapshot_last_index ≤ c.last_applied
  pub applied_le : c.last_applied ≤ c.commit_index
  pub commit_le : c.commit_index ≤ c.snapshot_last_index + length c.log
  pub fits : c.snapshot_last_index + length c.log + 1 < u64_mod

-- Entries may move into the snapshot; nothing else that concerns the log changes.
pub record Compacts {S M : Type 0} (c c' : RaftCore S M) : Type 0 where
  pub machine : c'.state_machine ≡ c.state_machine
  pub applied : c'.last_applied ≡ c.last_applied
  pub commit : c'.commit_index ≡ c.commit_index
  pub same_last : c'.snapshot_last_index + length c'.log ≡ c.snapshot_last_index + length c.log
  pub log_ok : LogOk c'
  pub entries : (i : ℕ) → c'.snapshot_last_index < i → get_log_entry c' i ≡ get_log_entry c i

module _ {S M : Type 0} where
  pub Compacts-refl : (c : RaftCore S M) → LogOk c → Compacts c c
  Compacts-refl c k = record {
    machine = refl;
    applied = refl;
    commit = refl;
    same_last = refl;
    log_ok = k;
    entries = λ i h. refl;
  }

  -- The boundary moved to `last_applied`.
  abbrev moved : RaftCore S M → S → ℕ → RaftCore S M
  moved c s term = record c {
    storage = s;
    snapshot_last_index = c.last_applied;
    snapshot_last_term = term;
    log = drop (c.last_applied - c.snapshot_last_index) c.log;
  }

  moved-Compacts : (c : RaftCore S M) (s : S) (term : ℕ) → LogOk c → Compacts c (moved c s term)
  unfolding get_log_entry
  moved-Compacts c s term k =
      let n : ℕ = c.last_applied - c.snapshot_last_index in
      let len = length-drop n c.log in
      let e : c.snapshot_last_index + n ≡ c.last_applied = omega (arith, k.snapshot_le) in
      let rest =
        Contiguous-drop n c.snapshot_last_index c.log
          (omega (arith, k.snapshot_le, k.applied_le, k.commit_le)) k.contiguous in
      record {
        machine = refl;
        applied = refl;
        commit = refl;
        same_last = omega (arith, len, k.snapshot_le, k.applied_le, k.commit_le);
        log_ok = record {
          contiguous = rw e at rest;
          snapshot_le = omega arith;
          applied_le = k.applied_le;
          commit_le = omega (arith, len, k.snapshot_le, k.applied_le, k.commit_le);
          fits = omega (arith, len, k.snapshot_le, k.applied_le, k.commit_le, k.fits);
        };
        entries =
            λ i h. ground (arith, k.snapshot_le, get_elem?-drop n c.log (i - c.last_applied - 1));
      }

module _ {S M : Type 0} ⦃st : Storage S⦄ ⦃sm : Machine M⦄ ⦃safe : Reliable S⦄ where
  compacted-Compacts :
      (c : RaftCore S M) (e : LogEntry) (b : Bytes) (r : Result StorageError (Unit {0}) × S)
      → r.0 ≡ ok tt
      → LogOk c
      → Compacts c (compacted c (snapshot_at c e b) r).1
  unfolding compacted
  compacted-Compacts c e b (err x, s) h k = absurd (ground arith)
  compacted-Compacts c e b (ok _, s) h k =
      let no_wrap : add_u64 c.last_applied 1 ≡ c.last_applied + 1 =
        omega (arith, k.applied_le, k.commit_le, k.fits) in
      let kept =
        retain-Contiguous c.last_applied c.snapshot_last_index c.log k.snapshot_le k.contiguous in
      rw (no_wrap, kept) (moved-Compacts c s e.term k)

  saved-Compacts :
      (c : RaftCore S M) (e : LogEntry) (b : Bytes) (r : Result StorageError (Unit {0}) × S)
      → LogOk c
      → Compacts c (saved c (snapshot_at c e b) r).1
  unfolding saved
  saved-Compacts c e b (err x, s) k = record {
    machine = refl;
    applied = refl;
    commit = refl;
    same_last = refl;
    log_ok = record {
      contiguous = k.contiguous;
      snapshot_le = k.snapshot_le;
      applied_le = k.applied_le;
      commit_le = k.commit_le;
      fits = k.fits;
    };
    entries = λ i h. unfold get_log_entry in refl;
  }
  saved-Compacts c e b (ok _, s) k =
      compacted-Compacts c e b (st.compact_log s (add_u64 c.last_applied 1))
        (safe.compact_ok s (add_u64 c.last_applied 1)) k

  save_at-Compacts :
      (c : RaftCore S M) (e : LogEntry) (r : Result String Bytes)
      → LogOk c
      → Compacts c (save_at c e r).1
  unfolding save_at
  save_at-Compacts c e (err x) k = Compacts-refl c k
  save_at-Compacts c e (ok b) k =
      saved-Compacts c e b (st.save_snapshot c.storage (snapshot_at c e b)) k

  -- With a storage that does not fail, a snapshot of a well-formed core loses no entry behind the
  -- new boundary, and changes neither the state machine nor the indices.
  pub take_snapshot-Compacts : (c : RaftCore S M) → LogOk c → Compacts c (take_snapshot c).1
  unfolding take_snapshot
  take_snapshot-Compacts c k = elim (Option-cases (get_log_entry c c.last_applied)) [
    | inl missing ↦ ground (arith, Compacts-refl c k)
    | inr (e, found) ↦
        ground (arith, Compacts-refl c k, save_at-Compacts c e (sm.snapshot c.state_machine) k)
  ]

  pub auto_snapshot-Compacts : (c : RaftCore S M) → LogOk c → Compacts c (auto_snapshot c)
  unfolding auto_snapshot
  auto_snapshot-Compacts c k = ground (arith, Compacts-refl c k, take_snapshot-Compacts c k)
