-- ===== src/Core/FollowerSteps.antt =====
-- The term and the vote of a node that hears a leader, or that leads (src/core/raft_core.rs).
use raft_vibe.Prelude.{
  ℕ, ◌≡◌, Bool-cases, Option-cases, inl, inr, Option, some, List, >>=-eq-some, Result, ok, err, ltb,
  leb, add_u64, arith,
}
use raft_vibe.Types.{
  follower, leader, AppendEntriesArgs, AppendEntriesResult, HandleAppendEntriesOutput,
  InstallSnapshotArgs, InstallSnapshotResult, StorageError, ApplyResult,
}
use raft_vibe.Storage.{Storage}
use raft_vibe.Storage.VoteLaws.{VoteLaws, SameVote}
use raft_vibe.Machine.{Machine}
use raft_vibe.Core.State.{RaftCore, Instant, new}
use raft_vibe.Core.Apply.{apply_committed_entries}
use raft_vibe.Core.Append.{step_down_if_newer, check_prev, answer_leader, handle_append_entries}
use raft_vibe.Core.Install.{
  adopt_snapshot, install_saved, snapshot_of, install_newer, handle_install_snapshot,
}
use raft_vibe.Core.Election.{same_state}
use raft_vibe.Core.Leader.{
  handle_append_entries_result, process_append_entries_response, try_commit, record_result,
  record_success, record_failure,
}
use raft_vibe.Core.Frame.{
  Frame, Frame-refl, Frame-trans, check_prev-Frame, apply_committed_entries-Frame,
}
use raft_vibe.Core.VoteSafety.{
  VoteStep, VoteStep-refl, VoteStep-trans, Frame-VoteStep, step_down-VoteStep,
}

module _ {S M : Type 0} ⦃st : Storage S⦄ ⦃laws : VoteLaws S⦄ where
  module _ ⦃sm : Machine M⦄ where
    pub answer_leader-Frame :
        (c : RaftCore S M) (req : AppendEntriesArgs) (now : Instant) {o : HandleAppendEntriesOutput}
        {c' : RaftCore S M}
        → answer_leader c req now ≡ some (o, c')
        → Frame c c'
    unfolding answer_leader
    answer_leader-Frame c req now h =
        let d : RaftCore S M = record c {
          state = follower;
          current_leader = some req.leader_id;
          last_heartbeat = now;
        } in
        let ((o, c₁), p, q) = >>=-eq-some (check_prev d req) _ h in
        ground (arith, check_prev-Frame d req p)

    pub handle_append_entries-VoteStep :
        (c : RaftCore S M) (req : AppendEntriesArgs) (now : Instant) {o : HandleAppendEntriesOutput}
        {c' : RaftCore S M}
        → handle_append_entries c req now ≡ some (o, c')
        → VoteStep c c'
    unfolding handle_append_entries
    handle_append_entries-VoteStep c req now {o} {c'} h =
        let (c₁, p, q) = >>=-eq-some (step_down_if_newer c req.term) _ h in
        let tail : VoteStep c₁ c' = elim (Bool-cases (ltb req.term c₁.current_term)) [
          | inl stale ↦ ground (arith, VoteStep-refl c₁)
          | inr current ↦ Frame-VoteStep (answer_leader-Frame c₁ req now {o = o} (rw current at q))
        ] in
        VoteStep-trans (step_down-VoteStep c req.term p).0 tail

    adopt_snapshot-Frame :
        (c : RaftCore S M) (args : InstallSnapshotArgs) {c' : RaftCore S M}
        → adopt_snapshot c args ≡ some c'
        → Frame c c'
    unfolding adopt_snapshot
    adopt_snapshot-Frame c args h =
        ground (arith, laws.compact_keeps c.storage (add_u64 args.last_included_index 1))

    install_saved-Frame :
        (c : RaftCore S M) (args : InstallSnapshotArgs) (saved : Result StorageError (Unit {0}) × S)
        {r : InstallSnapshotResult} {c' : RaftCore S M}
        → SameVote c.storage saved.1
        → install_saved c args saved ≡ some (r, c')
        → Frame c c'
    unfolding install_saved
    install_saved-Frame c args (err e, s) k h = ground arith
    install_saved-Frame c args (ok _, s) k h =
        let (c₁, p, q) = >>=-eq-some (adopt_snapshot (record c { storage = s }) args) _ h in
        ground (arith, adopt_snapshot-Frame (record c { storage = s }) args p)

    pub install_newer-Frame :
        (c : RaftCore S M) (args : InstallSnapshotArgs) {r : InstallSnapshotResult}
        {c' : RaftCore S M}
        → install_newer c args ≡ some (r, c')
        → Frame c c'
    unfolding install_newer
    install_newer-Frame c args {r} {c'} h =
        elim (Bool-cases (leb args.last_included_index c.snapshot_last_index)) [
          | inl old ↦ ground (arith, Frame-refl c)
          | inr new ↦
              install_saved-Frame c args (st.save_snapshot c.storage (snapshot_of args)) {r = r}
                (laws.save_snapshot_keeps c.storage (snapshot_of args)) (rw new at h)
        ]

    pub handle_install_snapshot-VoteStep :
        (c : RaftCore S M) (args : InstallSnapshotArgs) (now : Instant) {r : InstallSnapshotResult}
        {c' : RaftCore S M}
        → handle_install_snapshot c args now ≡ some (r, c')
        → VoteStep c c'
    unfolding handle_install_snapshot
    handle_install_snapshot-VoteStep c args now {r} {c'} h =
        elim (Bool-cases (ltb args.term c.current_term)) [
          | inl stale ↦ ground (arith, VoteStep-refl c)
          | inr current ↦
              let (c₁, p, q) =
                >>=-eq-some (step_down_if_newer c args.term)
                  (λ d.
                    install_newer
                      (record d { last_heartbeat = now; current_leader = some args.leader_id })
                      args)
                  {b = (r, c')} (rw current at h) in
              VoteStep-trans (step_down-VoteStep c args.term p).0 (
                ground (
                  arith,
                  Frame-VoteStep (
                      install_newer-Frame
                        (record c₁ { last_heartbeat = now; current_leader = some args.leader_id })
                        args q),
                ))
        ]

    pub try_commit-Frame :
        (c : RaftCore S M) (i : ℕ) {o : Option ℕ} {rs : List (ℕ × ApplyResult)} {c' : RaftCore S M}
        → try_commit c i ≡ some (o, rs, c')
        → Frame c c'
    unfolding try_commit
    try_commit-Frame c i {o} {rs} {c'} h =
        elim (Option-cases (apply_committed_entries (record c { commit_index = i }))) [
          | inl panic ↦ ground (arith, Frame-refl c)
          | inr ((rs', c₁), p) ↦
              ground (
                arith,
                Frame-refl c,
                apply_committed_entries-Frame (record c { commit_index = i }) p,
              )
        ]

    pub record_result-Frame :
        (c : RaftCore S M) (p i : ℕ) (r : AppendEntriesResult) → Frame c (record_result c p i r)
    unfolding record_result record_success record_failure
    record_result-Frame c p i r = ground (arith, Frame-refl c)

    pub handle_append_entries_result-VoteStep :
        (c : RaftCore S M) (p i : ℕ) (r : AppendEntriesResult) {o : Option ℕ}
        {rs : List (ℕ × ApplyResult)} {c' : RaftCore S M}
        → handle_append_entries_result c p i r ≡ some (o, rs, c')
        → VoteStep c c'
    unfolding handle_append_entries_result process_append_entries_response
    handle_append_entries_result-VoteStep c p i r {o} {rs} {c'} h =
        let (c₁, s, q) = >>=-eq-some (step_down_if_newer c r.term) _ h in
        let tail : VoteStep c₁ c' = elim (Bool-cases (same_state c₁.state leader)) [
          | inl leads ↦ Frame-VoteStep (
              Frame-trans (record_result-Frame c₁ p i r)
                (try_commit-Frame (record_result c₁ p i r) i {o = o} {rs = rs} (rw leads at q)))
          | inr other ↦ ground (arith, VoteStep-refl c₁)
        ] in
        VoteStep-trans (step_down-VoteStep c r.term s).0 tail
