-- ===== src/Core/Answering.antt =====
-- `handle_append_entries`: what its answer tells the leader about the follower.
use raft_vibe.Prelude.{
  ℕ, ◌≤◌, ◌≡◌, ◌⊎◌, Bool-cases, Option-cases, inl, inr, true, false, some, >>=-eq-some, ltb, max,
  arith,
}
use raft_vibe.Types.{LogEntry, follower, AppendEntriesArgs, HandleAppendEntriesOutput}
use raft_vibe.Storage.{Storage}
use raft_vibe.Machine.{Machine}
use raft_vibe.Core.State.{RaftCore, Instant}
use raft_vibe.Core.Persist.{set_term, set_voted_for, update_term}
use raft_vibe.Core.Query.{get_log_entry}
use raft_vibe.Core.Append.{
  Outcome, accept, check_entry, check_prev, answer_leader, step_down_if_newer,
  handle_append_entries,
}

-- Why a follower may accept: the entry at `prev_log_index` is the leader's, or is the boundary of
-- the snapshot, or the message starts at the beginning.
abbrev pub PrevMatches : {S M : Type 0} → RaftCore S M → AppendEntriesArgs → Type 0
PrevMatches c req =
    (req.prev_log_index ≡ 0)
    ⊎ ((req.prev_log_index ≡ c.snapshot_last_index) × (req.prev_log_term ≡ c.snapshot_last_term))
    ⊎ ((e : LogEntry) × (get_log_entry c req.prev_log_index ≡ some e)
        × (e.term ≡ req.prev_log_term))

module _ {S M : Type 0} ⦃st : Storage S⦄ ⦃sm : Machine M⦄ where
  check_prev_sound :
      (c : RaftCore S M) (req : AppendEntriesArgs) {o : Outcome} {c' : RaftCore S M}
      → check_prev c req ≡ some (o, c')
      → (PrevMatches c req × (accept c req ≡ some (o, c'))) ⊎ ((o.success ≡ false) × (c' ≡ c))
  unfolding check_prev check_entry
  check_prev_sound c req {o} {c'} h = ground arith

  -- The log and what was made of it are the same in both.
  pub record SameLog (c c' : RaftCore S M) : Type 0 where
    pub log : c'.log ≡ c.log
    pub boundary : c'.snapshot_last_index ≡ c.snapshot_last_index
    pub boundary_term : c'.snapshot_last_term ≡ c.snapshot_last_term
    pub commit : c'.commit_index ≡ c.commit_index
    pub applied : c'.last_applied ≡ c.last_applied
    pub machine : c'.state_machine ≡ c.state_machine

  update_term-SameLog :
      (c : RaftCore S M) (term : ℕ) {c' : RaftCore S M}
      → update_term c term ≡ some c'
      → SameLog c c' × (c'.current_term ≡ term)
  unfolding update_term set_term set_voted_for
  update_term-SameLog c term h = ground arith

  pub step_down-SameLog :
      (c : RaftCore S M) (term : ℕ) {c' : RaftCore S M}
      → step_down_if_newer c term ≡ some c'
      → SameLog c c' × (c'.current_term ≡ max c.current_term term)
  unfolding step_down_if_newer
  step_down-SameLog c term {c'} h = elim (Option-cases (update_term c term)) [
    | inl panic ↦ ground arith
    | inr (c₁, p) ↦ ground (arith, update_term-SameLog c term p)
  ]

  accept_succeeds :
      (c : RaftCore S M) (req : AppendEntriesArgs) {o : Outcome} {c' : RaftCore S M}
      → accept c req ≡ some (o, c')
      → o.success ≡ true
  unfolding accept
  accept_succeeds c req h = ground arith

  answer_leader_sound :
      (c : RaftCore S M) (req : AppendEntriesArgs) (now : Instant) {o : HandleAppendEntriesOutput}
      {c' : RaftCore S M}
      → answer_leader c req now ≡ some (o, c')
      → (o.result.success ≡ true → PrevMatches c req) × (o.result.success ≡ false → SameLog c c')
  unfolding answer_leader get_log_entry
  answer_leader_sound c req now {o} {c'} h =
      let d : RaftCore S M = record c {
        state = follower;
        current_leader = some req.leader_id;
        last_heartbeat = now;
      } in
      let ((w, c₁), p, q) = >>=-eq-some (check_prev d req) _ h in
      elim (check_prev_sound d req p) [
        | inl (m, a) ↦ ground (arith, m, accept_succeeds d req a)
        | inr (no_success, same) ↦ ground (arith, no_success, same)
      ]

  -- A follower reports success only in a term that is not stale and only if its log holds the
  -- leader's previous entry; if it reports failure, its log, its indices and its state machine are
  -- as they were.
  pub handle_append_entries_sound :
      (c : RaftCore S M) (req : AppendEntriesArgs) (now : Instant) {o : HandleAppendEntriesOutput}
      {c' : RaftCore S M}
      → handle_append_entries c req now ≡ some (o, c')
      → ((o.result.success ≡ true) × (c.current_term ≤ req.term) × PrevMatches c req)
        ⊎ ((o.result.success ≡ false) × SameLog c c')
  unfolding handle_append_entries get_log_entry
  handle_append_entries_sound c req now {o} {c'} h =
      let (c₁, p, q) = >>=-eq-some (step_down_if_newer c req.term) _ h in
      let same = step_down-SameLog c req.term p in
      elim (Bool-cases (ltb req.term c₁.current_term)) [
        | inl stale ↦ ground (arith, same)
        | inr fresh ↦
            let a = answer_leader_sound c₁ req now {o = o} {c' = c'} (rw fresh at q) in
            ground (arith, same, a)
      ]
