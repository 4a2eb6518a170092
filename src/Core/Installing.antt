-- ===== src/Core/Installing.antt =====
-- `handle_install_snapshot` where it takes the snapshot: what it leaves of the log.
use raft_vibe.Prelude.{
  ℕ, ◌+◌, ◌-◌, ◌≤◌, ◌<◌, ◌≡◌, refl, ap, ◌∙◌, some, List, [], ◌∷◌, Result, ok, err, length, drop,
  retain, ltb, leb, max, add_u64, u64_mod, length-drop, get_elem?-drop, arith, dec_lt,
  if◌then◌else◌,
}
use raft_vibe.Types.{LogEntry, InstallSnapshotArgs, success, StorageError}
use raft_vibe.Storage.{Storage}
use raft_vibe.Storage.Reliable.{Reliable}
use raft_vibe.Machine.{Machine}
use raft_vibe.Core.State.{RaftCore, Instant}
use raft_vibe.Core.Query.{get_log_entry}
use raft_vibe.Core.Install.{
  snapshot_of, adopt_snapshot, install_saved, install_newer, handle_install_snapshot,
}
use raft_vibe.Core.Log.{Contiguous, Contiguous-drop, retain-Contiguous}
use raft_vibe.Core.Compaction.{drop_all}
use raft_vibe.Core.LogOk.{LogOk}
use raft_vibe.Core.Replication.{step_down_lem}

-- `c'` is `c` with the snapshot of `args`, restored to the machine `m`, in place of its log up to
-- the snapshot's index.
pub record Installed {S M : Type 0} (c : RaftCore S M) (args : InstallSnapshotArgs) (m : M)
    (c' : RaftCore S M) : Type 0 where
  pub machine : c'.state_machine ≡ m
  pub boundary : c'.snapshot_last_index ≡ args.last_included_index
  pub boundary_term : c'.snapshot_last_term ≡ args.last_included_term
  pub commit : c'.commit_index ≡ max c.commit_index args.last_included_index
  pub applied : c'.last_applied ≡ max c.last_applied args.last_included_index
  pub log_ok : LogOk c'
  pub entries : (i : ℕ) → args.last_included_index < i → get_log_entry c' i ≡ get_log_entry c i

retain_above :
    (k : ℕ) (l : List LogEntry)
    → retain (λ e. ltb k e.index) l ≡ retain (λ e. leb (k + 1) e.index) l
retain_above k [] = refl
retain_above k (x ∷ l) = let rest = retain_above k l in ground (arith, rest)

module _ {S M : Type 0} where
  -- The core as `adopt_snapshot` leaves it.
  abbrev installed : RaftCore S M → S → InstallSnapshotArgs → M → RaftCore S M
  installed c s args m = record c {
    storage = s;
    state_machine = m;
    snapshot_last_index = args.last_included_index;
    snapshot_last_term = args.last_included_term;
    log = drop (args.last_included_index - c.snapshot_last_index) c.log;
    commit_index =
        if ltb c.commit_index args.last_included_index
        then args.last_included_index
        else c.commit_index;
    last_applied =
        if ltb c.last_applied args.last_included_index
        then args.last_included_index
        else c.last_applied;
  }

  cut-Contiguous :
      (c : RaftCore S M) (k : ℕ)
      → LogOk c
      → c.snapshot_last_index ≤ k
      → Contiguous k (drop (k - c.snapshot_last_index) c.log)
  cut-Contiguous c k ok_c le =
      let n : ℕ = k - c.snapshot_last_index in
      let e : c.snapshot_last_index + n ≡ k = omega arith in
      elim (dec_lt (length c.log) n) [
        | no within ↦
            let rest =
              Contiguous-drop n c.snapshot_last_index c.log (omega arith) ok_c.contiguous in
            rw e at rest
        | yes beyond ↦ let gone = drop_all n c.log (omega arith) in rw gone tt
      ]

  installed_lem :
      (c : RaftCore S M) (s : S) (args : InstallSnapshotArgs) (m : M)
      → LogOk c
      → c.snapshot_last_index < args.last_included_index
      → args.last_included_index + 1 < u64_mod
      → Installed c args m (installed c s args m)
  unfolding get_log_entry
  installed_lem c s args m k newer room =
      let n : ℕ = args.last_included_index - c.snapshot_last_index in
      let len = length-drop n c.log in
      record {
        machine = refl;
        boundary = refl;
        boundary_term = refl;
        commit = ground arith;
        applied = ground arith;
        log_ok = record {
          contiguous = cut-Contiguous c args.last_included_index k (omega arith);
          snapshot_le = ground arith;
          applied_le = ground (arith, k.applied_le);
          commit_le = ground (arith, len, k.commit_le);
          fits = omega (arith, len, k.fits);
        };
        entries = λ i h. ground (arith, get_elem?-drop n c.log (i - args.last_included_index - 1));
      }

module _ {S M : Type 0} ⦃st : Storage S⦄ ⦃sm : Machine M⦄ ⦃safe : Reliable S⦄ where
  install_saved_lem :
      (c : RaftCore S M) (args : InstallSnapshotArgs) (m : M)
      (r : Result StorageError (Unit {0}) × S)
      → r.0 ≡ ok tt
      → LogOk c
      → c.snapshot_last_index < args.last_included_index
      → args.last_included_index + 1 < u64_mod
      → sm.restore c.state_machine args.data_bytes ≡ (ok tt, m)
      → (c' : RaftCore S M) × (install_saved c args r ≡ some (success c.current_term, c'))
        × Installed c args m c'
  unfolding install_saved adopt_snapshot
  install_saved_lem c args m (err e, s) h k newer room restored = absurd (ground (arith, h))
  install_saved_lem c args m (ok _, s) h k newer room restored =
      let kept =
        retain-Contiguous args.last_included_index c.snapshot_last_index c.log (omega arith)
          k.contiguous in
      let above = retain_above args.last_included_index c.log in
      (
        installed c (st.compact_log s (add_u64 args.last_included_index 1)).1 args m,
        rw (restored, above, kept) refl,
        installed_lem c (st.compact_log s (add_u64 args.last_included_index 1)).1 args m k newer
            room,
      )

  -- A snapshot from a leader whose term is not stale, newer than the one the node has, over a
  -- storage that does not fail and a state machine that can restore it: the call returns and
  -- reports success in the leader's term, the machine is the restored one, no entry behind the
  -- snapshot changes, the commit index and the last applied index rise to the snapshot's where they
  -- were lower, and a well-formed core stays well-formed.
  pub handle_install_snapshot_accepts :
      (c : RaftCore S M) (args : InstallSnapshotArgs) (now : Instant) (m : M)
      → LogOk c
      → c.current_term ≤ args.term
      → c.snapshot_last_index < args.last_included_index
      → args.last_included_index + 1 < u64_mod
      → sm.restore c.state_machine args.data_bytes ≡ (ok tt, m)
      → (c' : RaftCore S M) × (handle_install_snapshot c args now ≡ some (success args.term, c'))
        × Installed c args m c'
  unfolding handle_install_snapshot install_newer get_log_entry
  handle_install_snapshot_accepts c args now m k fresh newer room restored =
      let (s, vote, state, down) = step_down_lem c args.term in
      let d : RaftCore S M = record c {
        storage = s;
        current_term = max c.current_term args.term;
        voted_for = vote;
        state = state;
        current_leader = some args.leader_id;
        last_heartbeat = now;
      } in
      let (c', call, i) =
        install_saved_lem d args m (st.save_snapshot s (snapshot_of args))
          (safe.save_snapshot_ok s (snapshot_of args))
          (record {
            contiguous = k.contiguous;
            snapshot_le = k.snapshot_le;
            applied_le = k.applied_le;
            commit_le = k.commit_le;
            fits = k.fits;
          })
          newer room restored in
      let term : max c.current_term args.term ≡ args.term = omega arith in
      let same : install_saved d args (st.save_snapshot s (snapshot_of args))
          ≡ some (success args.term, c') =
        call ∙ ap (λ t. some (success t, c')) term in
      (
        c',
        ground (arith, down, same),
        record {
          machine = i.machine;
          boundary = i.boundary;
          boundary_term = i.boundary_term;
          commit = i.commit;
          applied = i.applied;
          log_ok = i.log_ok;
          entries = i.entries;
        },
      )
