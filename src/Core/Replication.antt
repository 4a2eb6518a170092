-- ===== src/Core/Replication.antt =====
-- `handle_append_entries` as a whole: what a leader may rely on, and what a follower relies on.
use raft_vibe.Prelude.{
  ℕ, ◌+◌, ◌-◌, ◌≤◌, ◌<◌, ◌≡◌, ◌⊎◌, refl, Bool-cases, inl, inr, true, false, Option, none, some,
  List, length, drop, ltb, max, u64_mod, arith,
}
use raft_vibe.Types.{LogEntry, RaftState, follower, AppendEntriesArgs, HandleAppendEntriesOutput}
use raft_vibe.Storage.{Storage}
use raft_vibe.Storage.Reliable.{Reliable}
use raft_vibe.Machine.{Machine}
use raft_vibe.Core.State.{RaftCore, Instant}
use raft_vibe.Core.Persist.{set_term, set_voted_for, update_term}
use raft_vibe.Core.Query.{get_log_entry}
use raft_vibe.Core.Append.{
  accepted, accept, check_entry, check_prev, answer_leader, step_down_if_newer,
  handle_append_entries,
}
use raft_vibe.Core.Log.{Contiguous, last_log_index_lem}
use raft_vibe.Core.LogOk.{LogOk}
use raft_vibe.Core.Merge.{merged, with_log, apply_entries-merged}
use raft_vibe.Core.Accepting.{Agree, Accepted, merged_bounds, Contiguous-merged, advance_commit_lem}

-- A message from a leader that the follower can accept: its entries follow `prev_log_index`, they
-- agree with all that is committed, and the entry at `prev_log_index` is that of the leader.
pub record Fits {S M : Type 0} (c : RaftCore S M) (req : AppendEntriesArgs) : Type 0 where
  pub no_snapshot : c.snapshot_last_index ≡ 0
  pub log_ok : LogOk c
  pub contiguous : Contiguous req.prev_log_index req.entries
  pub room : req.prev_log_index + length req.entries + 1 < u64_mod
  pub within : req.prev_log_index ≤ length c.log
  pub prev :
      (req.prev_log_index ≡ 0)
      ⊎ ((e : LogEntry) × (get_log_entry c req.prev_log_index ≡ some e)
          × (e.term ≡ req.prev_log_term))
  pub agree :
      Agree (c.commit_index - req.prev_log_index) (drop req.prev_log_index c.log) req.entries

module _ {S M : Type 0} ⦃st : Storage S⦄ ⦃sm : Machine M⦄ ⦃safe : Reliable S⦄ where
  accept_lem :
      (c : RaftCore S M) (req : AppendEntriesArgs)
      → Fits c req
      → (c' : RaftCore S M) × (accept c req ≡ some (accepted, c'))
        × Accepted c req.leader_commit (merged req.prev_log_index c.log req.entries) c'
  unfolding accept
  accept_lem c req f =
      let p : ℕ = req.prev_log_index in
      let k = f.log_ok in
      let boundary = f.no_snapshot in
      let l : List LogEntry = merged p c.log req.entries in
      let (s, q) =
        apply_entries-merged c req.entries p boundary f.within f.contiguous
          (omega (arith, f.room)) in
      let bounds =
        merged_bounds p c.commit_index c.log req.entries f.within
          (omega (arith, k.commit_le, boundary)) f.agree (omega (arith, k.fits, boundary)) f.room in
      let k' : LogOk (with_log c s l) = record {
        contiguous = rw boundary (
            Contiguous-merged p c.log req.entries f.within (rw boundary at k.contiguous)
              f.contiguous);
        snapshot_le = k.snapshot_le;
        applied_le = k.applied_le;
        commit_le = omega (arith, bounds, boundary);
        fits = omega (arith, bounds, boundary);
      } in
      let (c', call, a) = advance_commit_lem (with_log c s l) req.leader_commit k' boundary in
      (
        c',
        rw (q, call) refl,
        record { log_ok = a.log_ok; last = a.last; entries = a.entries; commit = a.commit },
      )

  check_prev_lem :
      (c : RaftCore S M) (req : AppendEntriesArgs)
      → Fits c req
      → (c' : RaftCore S M) × (check_prev c req ≡ some (accepted, c'))
        × Accepted c req.leader_commit (merged req.prev_log_index c.log req.entries) c'
  unfolding check_prev check_entry
  check_prev_lem c req f =
      let (c', call, a) = accept_lem c req f in
      let last = last_log_index_lem c f.log_ok.contiguous in
      (c', ground (arith, call, last, f.prev, f.no_snapshot, f.within), a)

  -- Only term, vote, state and storage change when a node steps down.
  abbrev stepped : RaftCore S M → S → ℕ → Option ℕ → RaftState → RaftCore S M
  stepped c s term vote state = record c {
    storage = s;
    current_term = term;
    voted_for = vote;
    state = state;
  }

  pub step_down_lem :
      (c : RaftCore S M) (term : ℕ)
      → (s : S) × (vote : Option ℕ) × (state : RaftState) × (step_down_if_newer c term
          ≡ some (stepped c s (max c.current_term term) vote state))
  unfolding step_down_if_newer update_term set_term set_voted_for
  step_down_lem c term = elim (Bool-cases (ltb c.current_term term)) [
    | inl new ↦
        let s₁ : S = (st.save_term c.storage term).1 in
        (
          (st.save_voted_for s₁ none).1,
          none,
          follower,
          ground (arith, safe.save_term_ok c.storage term, safe.save_voted_for_ok s₁ none),
        )
    | inr old ↦ (c.storage, c.voted_for, c.state, ground arith)
  ]

  -- A message that fits a follower without a snapshot, in a term that is not stale, over a
  -- storage that does not fail: the call returns, reports success and the leader's id, and leaves
  -- a well-formed core whose log behind its snapshot is the old one merged with the entries, and
  -- whose commit index is the larger of the old one and the leader's, the latter as far as the
  -- log goes.
  pub handle_append_entries_accepts :
      (c : RaftCore S M) (req : AppendEntriesArgs) (now : Instant)
      → Fits c req
      → c.current_term ≤ req.term
      → (o : HandleAppendEntriesOutput) × (c' : RaftCore S M) × (handle_append_entries c req now
          ≡ some (o, c'))
        × (o.result.success ≡ true)
        × (o.leader_id ≡ some req.leader_id)
        × Accepted c req.leader_commit (merged req.prev_log_index c.log req.entries) c'
  unfolding handle_append_entries answer_leader get_log_entry
  handle_append_entries_accepts c req now f fresh =
      let (s, vote, state, down) = step_down_lem c req.term in
      let d : RaftCore S M = record c {
        storage = s;
        current_term = max c.current_term req.term;
        voted_for = vote;
        state = follower;
        current_leader = some req.leader_id;
        last_heartbeat = now;
      } in
      let k = f.log_ok in
      let (c', call, a) = check_prev_lem d req (record {
        no_snapshot = f.no_snapshot;
        log_ok = record {
          contiguous = k.contiguous;
          snapshot_le = k.snapshot_le;
          applied_le = k.applied_le;
          commit_le = k.commit_le;
          fits = k.fits;
        };
        contiguous = f.contiguous;
        room = f.room;
        within = f.within;
        prev = f.prev;
        agree = f.agree;
      }) in
      let not_stale : ltb req.term (max c.current_term req.term) ≡ false = ground arith in
      let o : HandleAppendEntriesOutput = record {
        result = record {
          term = c'.current_term;
          success = true;
          conflict_term = none;
          conflict_index = none;
        };
        leader_id = some req.leader_id;
      } in
      (
        o,
        c',
        rw (down, not_stale, call) refl,
        refl,
        refl,
        record { log_ok = a.log_ok; last = a.last; entries = a.entries; commit = a.commit },
      )
