-- ===== src/Core/Frame.antt =====
-- The methods that leave the term and the vote alone, in memory and in storage.
use raft_vibe.Prelude.{
  ℕ, zero, suc, ◌+◌, ◌-◌, Bool-cases, ltb, min, String, ◌≡◌, inl, inr, add_u64, Option-cases, refl,
  ◌∙◌, some, List, [], ◌∷◌, >>=-eq-some, Result, ok, err, arith,
}
use raft_vibe.Types.{
  candidate, Bytes, LogEntry, AppendEntriesArgs, StorageError, Snapshot, ApplyResult,
}
use raft_vibe.Storage.{Storage}
use raft_vibe.Storage.VoteLaws.{VoteLaws, SameVote}
use raft_vibe.Machine.{Machine}
use raft_vibe.Core.State.{RaftCore}
use raft_vibe.Core.Persist.{persist_log_entry, persist_truncate_log}
use raft_vibe.Core.Query.{get_log_entry, last_log_index}
use raft_vibe.Core.Apply.{
  compacted, saved, snapshot_at, save_at, take_snapshot, auto_snapshot, apply_loop,
  apply_committed_entries,
}
use raft_vibe.Core.Append.{
  replace_from, apply_entry, apply_entries, advance_commit, accept, check_prev, Outcome,
}

pub record Frame {S M : Type 0} ⦃st : Storage S⦄ (c c' : RaftCore S M) : Type 0 where
  pub term : c'.current_term ≡ c.current_term
  pub vote : c'.voted_for ≡ c.voted_for
  pub id : c'.id ≡ c.id
  pub peers : c'.peers ≡ c.peers
  pub stored_term : st.load_term c'.storage ≡ st.load_term c.storage
  pub stored_vote : st.load_voted_for c'.storage ≡ st.load_voted_for c.storage
  pub candidacy :
      c'.state ≡ candidate → (c.state ≡ candidate) × (c'.votes_received ≡ c.votes_received)

module _ {S M : Type 0} ⦃st : Storage S⦄ where
  pub Frame-refl : (c : RaftCore S M) → Frame c c
  Frame-refl c = record {
    term = refl;
    vote = refl;
    id = refl;
    peers = refl;
    stored_term = refl;
    stored_vote = refl;
    candidacy = λ h. (h, refl);
  }

  pub Frame-trans : {a b c : RaftCore S M} → Frame a b → Frame b c → Frame a c
  Frame-trans f g = record {
    term = g.term ∙ f.term;
    vote = g.vote ∙ f.vote;
    id = g.id ∙ f.id;
    peers = g.peers ∙ f.peers;
    stored_term = g.stored_term ∙ f.stored_term;
    stored_vote = g.stored_vote ∙ f.stored_vote;
    candidacy = λ h.
        let (was, same) = g.candidacy h in
        let (was', same') = f.candidacy was in (was', same ∙ same');
  }

  module _ ⦃laws : VoteLaws S⦄ where
    pub persist_log_entry-Frame :
        (c : RaftCore S M) (e : LogEntry) {c' : RaftCore S M}
        → persist_log_entry c e ≡ some c'
        → Frame c c'
    unfolding persist_log_entry
    persist_log_entry-Frame c e h = ground (arith, laws.append_keeps c.storage (e ∷ []))

    pub persist_truncate_log-Frame :
        (c : RaftCore S M) (i : ℕ) {c' : RaftCore S M}
        → persist_truncate_log c i ≡ some c'
        → Frame c c'
    unfolding persist_truncate_log
    persist_truncate_log-Frame c i h = ground (arith, laws.truncate_keeps c.storage i)

    replace_from-Frame :
        (c : RaftCore S M) (e : LogEntry) {c' : RaftCore S M}
        → replace_from c e ≡ some c'
        → Frame c c'
    unfolding replace_from
    replace_from-Frame c e h =
        let (c₁, p, q) = >>=-eq-some (persist_truncate_log c e.index) _ h in
        Frame-trans (persist_truncate_log-Frame c e.index p) (persist_log_entry-Frame c₁ e q)

    apply_entry-Frame :
        (c : RaftCore S M) (e : LogEntry) {c' : RaftCore S M}
        → apply_entry c e ≡ some c'
        → Frame c c'
    unfolding apply_entry
    apply_entry-Frame c e {c'} h = ground (
      arith,
      Frame-refl c,
      replace_from-Frame c e {c' = c'},
      persist_log_entry-Frame c e {c' = c'},
    )

    apply_entries-Frame :
        (c : RaftCore S M) (es : List LogEntry) {c' : RaftCore S M}
        → apply_entries c es ≡ some c'
        → Frame c c'
    unfolding apply_entries
    apply_entries-Frame c [] h = ground (arith, Frame-refl c)
    apply_entries-Frame c (e ∷ es) h =
        let (c₁, p, q) = >>=-eq-some (apply_entry c e) _ h in
        Frame-trans (apply_entry-Frame c e p) (apply_entries-Frame c₁ es q)

    module _ ⦃sm : Machine M⦄ where
      apply_loop-Frame :
          (n : ℕ) (c : RaftCore S M) {r : List (ℕ × ApplyResult)} {c' : RaftCore S M}
          → apply_loop n c ≡ some (r, c')
          → Frame c c'
      unfolding apply_loop
      apply_loop-Frame zero c h = ground (arith, Frame-refl c)
      apply_loop-Frame (suc n) c {r} {c'} h =
          let (e, found, p) = >>=-eq-some (get_log_entry c (c.last_applied + 1)) _ h in
          let ((rs, c₂), q, last) =
            >>=-eq-some
              (apply_loop n (record c {
                last_applied = c.last_applied + 1;
                state_machine = (sm.apply c.state_machine e.command).1;
              }))
              _ p in
          ground (
            arith,
            apply_loop-Frame n
                (record c {
                  last_applied = c.last_applied + 1;
                  state_machine = (sm.apply c.state_machine e.command).1;
                })
                q,
          )

      compacted-Frame :
          (c : RaftCore S M) (snap : Snapshot) (r : Result StorageError (Unit {0}) × S)
          → SameVote c.storage r.1
          → Frame c (compacted c snap r).1
      unfolding compacted
      compacted-Frame c snap (ok _, s) k = ground arith
      compacted-Frame c snap (err e, s) k = ground arith

      saved-Frame :
          (c : RaftCore S M) (snap : Snapshot) (r : Result StorageError (Unit {0}) × S)
          → SameVote c.storage r.1
          → Frame c (saved c snap r).1
      unfolding saved
      saved-Frame c snap (err e, s) k = ground arith
      saved-Frame c snap (ok _, s) k =
          compacted-Frame c snap (st.compact_log s (add_u64 snap.metadata.last_included_index 1))
            (ground (arith, laws.compact_keeps s (add_u64 snap.metadata.last_included_index 1)))

      save_at-Frame :
          (c : RaftCore S M) (e : LogEntry) (r : Result String Bytes) → Frame c (save_at c e r).1
      unfolding save_at
      save_at-Frame c e (err m) = Frame-refl c
      save_at-Frame c e (ok b) =
          saved-Frame c (snapshot_at c e b) (st.save_snapshot c.storage (snapshot_at c e b))
            (laws.save_snapshot_keeps c.storage (snapshot_at c e b))

      pub take_snapshot-Frame : (c : RaftCore S M) → Frame c (take_snapshot c).1
      unfolding take_snapshot
      take_snapshot-Frame c = elim (Option-cases (get_log_entry c c.last_applied)) [
        | inl missing ↦ ground (arith, Frame-refl c)
        | inr (e, found) ↦
            ground (arith, Frame-refl c, save_at-Frame c e (sm.snapshot c.state_machine))
      ]

      auto_snapshot-Frame : (c : RaftCore S M) → Frame c (auto_snapshot c)
      unfolding auto_snapshot
      auto_snapshot-Frame c = ground (arith, Frame-refl c, take_snapshot-Frame c)

      pub apply_committed_entries-Frame :
          (c : RaftCore S M) {r : List (ℕ × ApplyResult)} {c' : RaftCore S M}
          → apply_committed_entries c ≡ some (r, c')
          → Frame c c'
      unfolding apply_committed_entries
      apply_committed_entries-Frame c {c' = c'} h =
          let ((rs, c₁), p, q) = >>=-eq-some (apply_loop (c.commit_index - c.last_applied) c) _ h in
          let same : auto_snapshot c₁ ≡ c' = ground arith in
          rw same at (
            Frame-trans (apply_loop-Frame (c.commit_index - c.last_applied) c p)
              (auto_snapshot-Frame c₁))

      advance_commit-Frame :
          (c : RaftCore S M) (leader_commit : ℕ) {c' : RaftCore S M}
          → advance_commit c leader_commit ≡ some c'
          → Frame c c'
      unfolding advance_commit
      advance_commit-Frame c leader_commit {c'} h =
          elim (Bool-cases (ltb c.commit_index leader_commit)) [
            | inr old ↦ ground (arith, Frame-refl c)
            | inl new ↦
                let d : RaftCore S M = record c {
                  commit_index = min leader_commit (last_log_index c);
                } in
                let ((rs, c₁), p, q) =
                  >>=-eq-some (apply_committed_entries d) (λ r. some r.1) {b = c'} (rw new at h) in
                ground (arith, apply_committed_entries-Frame d p)
          ]

      accept-Frame :
          (c : RaftCore S M) (req : AppendEntriesArgs) {o : Outcome} {c' : RaftCore S M}
          → accept c req ≡ some (o, c')
          → Frame c c'
      unfolding accept
      accept-Frame c req {c' = c'} h =
          let (c₁, p, q) = >>=-eq-some (apply_entries c req.entries) _ h in
          let (c₂, p', q') = >>=-eq-some (advance_commit c₁ req.leader_commit) _ q in
          let same : c₂ ≡ c' = ground arith in
          rw same at (
            Frame-trans (apply_entries-Frame c req.entries p)
              (advance_commit-Frame c₁ req.leader_commit p'))

      pub check_prev-Frame :
          (c : RaftCore S M) (req : AppendEntriesArgs) {o : Outcome} {c' : RaftCore S M}
          → check_prev c req ≡ some (o, c')
          → Frame c c'
      unfolding check_prev
      check_prev-Frame c req {o} {c'} h =
          ground (arith, Frame-refl c, accept-Frame c req {o = o} {c' = c'})
