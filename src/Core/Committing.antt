-- ===== src/Core/Committing.antt =====
-- The leader's side: when an entry is committed, and where the next message to a follower starts.
use raft_vibe.Prelude.{
  ℕ, ◌+◌, ◌-◌, ◌≤◌, ◌<◌, ◌≡◌, ◌≢◌, ◌⊎◌, Has, ◌∙◌, Bool-cases, Option-cases, inl, inr, true, false,
  some, List, >>=-eq-some, min, max, lookup, lookup_or, lookup-insert, lookup_or-insert, add_u64,
  arith,
}
use raft_vibe.Types.{LogEntry, leader, AppendEntriesResult, ApplyResult}
use raft_vibe.Storage.{Storage}
use raft_vibe.Machine.{Machine}
use raft_vibe.Core.State.{RaftCore}
use raft_vibe.Core.Persist.{update_term}
use raft_vibe.Core.Query.{get_log_entry}
use raft_vibe.Core.Apply.{apply_committed_entries}
use raft_vibe.Core.Append.{step_down_if_newer}
use raft_vibe.Core.Election.{same_state, majority_of}
use raft_vibe.Core.Leader.{
  count_replicated, record_success, hinted_next, record_failure, record_result, has_current_term,
  try_commit, process_append_entries_response, handle_append_entries_result,
}
use raft_vibe.Core.Holding.{Holders, Majority, record_result-Holders, Majority-Holders}

module _ {S M : Type 0} ⦃st : Storage S⦄ where
  -- A node that leads after a response has seen no newer term, and is unchanged.
  step_down-leader :
      (c : RaftCore S M) (term : ℕ) {c' : RaftCore S M}
      → step_down_if_newer c term ≡ some c'
      → same_state c'.state leader ≡ true
      → (c' ≡ c) × (term ≤ c.current_term) × (c.state ≡ leader)
  unfolding step_down_if_newer
  step_down-leader c term {c'} h leads = elim (Option-cases (update_term c term)) [
    | inl panic ↦ ground arith
    | inr (c₁, p) ↦ ground arith
  ]

  -- After a rejection the next message to this follower starts earlier than the one before, unless
  -- that started at 1 already, and never before 1; the other followers' next index and every match
  -- index stay.
  pub next_index_after_rejection :
      (c : RaftCore S M) (p i q : ℕ) (r : AppendEntriesResult)
      → r.success ≡ false
      → q ≢ p
      → (1 ≤ lookup_or (record_result c p i r).next_index p 1)
        × (lookup_or (record_result c p i r).next_index p 1
            ≤ max (lookup_or c.next_index p 1 - 1) 1)
        × (lookup (record_result c p i r).next_index q ≡ lookup c.next_index q)
        × ((record_result c p i r).match_index ≡ c.match_index)
  unfolding record_result record_failure
  next_index_after_rejection c p i q r rejected other =
      let next : ℕ =
        min (max (hinted_next c p r.conflict_term r.conflict_index) 1)
          (max (lookup_or c.next_index p 1 - 1) 1) in
      let own = lookup_or-insert c.next_index p next p 1 in
      (
        ground (arith, own),
        ground (arith, own),
        ground (arith, other, lookup-insert c.next_index p next q),
        ground arith,
      )

  -- After a success up to `i` the follower is known to hold at least `i` entries, the next message
  -- starts behind `i`, and no match index of any follower falls.
  pub match_index_after_success :
      (c : RaftCore S M) (p i : ℕ) (r : AppendEntriesResult)
      → r.success ≡ true
      → 0 < i
      → (i ≤ lookup_or (record_result c p i r).match_index p 0)
        × (lookup_or (record_result c p i r).next_index p 1 ≡ add_u64 i 1)
        × ((q : ℕ)
            → lookup_or c.match_index q 0 ≤ lookup_or (record_result c p i r).match_index q 0)
  unfolding record_result record_success
  match_index_after_success c p i r accepted pos = (
    ground (arith, lookup_or-insert c.match_index p i p 0),
    ground (arith, lookup_or-insert c.next_index p (add_u64 i 1) p 1),
    λ q. ground (arith, lookup_or-insert c.match_index p i q 0),
  )

module _ {S M : Type 0} ⦃st : Storage S⦄ ⦃sm : Machine M⦄ where
  -- Why a leader may commit entry `i`.
  pub record MayCommit (c : RaftCore S M) (i : ℕ) : Type 0 where
    pub leads : c.state ≡ leader
    pub beyond : c.commit_index < i
    pub entry : LogEntry
    pub found : get_log_entry c i ≡ some entry
    pub own_term : entry.term ≡ c.current_term
    pub holders : List ℕ
    pub hold : Holders i c.match_index holders
    pub quorum : Majority c holders

  try_commit_sound :
      (c : RaftCore S M) (i j : ℕ) {rs : List (ℕ × ApplyResult)} {c' : RaftCore S M}
      → c.state ≡ leader
      → try_commit c i ≡ some (some j, rs, c')
      → (j ≡ i) × MayCommit c i
  unfolding try_commit has_current_term
  try_commit_sound c i j {rs} {c'} leads h = elim (Option-cases (get_log_entry c i)) [
    | inl missing ↦ ground arith
    | inr (e, found) ↦
        elim (Option-cases (apply_committed_entries (record c { commit_index = i }))) [
          | inl panic ↦ ground arith
          | inr ((rs', c₁), p) ↦
              let facts : (j ≡ i)
                  × (c.commit_index < i)
                  × (e.term ≡ c.current_term)
                  × (majority_of c.peers ≤ 1 + count_replicated c.match_index i) =
                ground arith in
              let (ps, hold, quorum) = Majority-Holders c i facts.3 in
              (
                facts.0,
                record {
                  leads = leads;
                  beyond = facts.1;
                  entry = e;
                  found = found;
                  own_term = facts.2;
                  holders = ps;
                  hold = hold;
                  quorum = quorum;
                },
              )
        ]
  ]

  pub record_result-same :
      (c : RaftCore S M) (p i : ℕ) (r : AppendEntriesResult)
      → ((record_result c p i r).state ≡ c.state)
        × ((record_result c p i r).current_term ≡ c.current_term)
        × ((record_result c p i r).commit_index ≡ c.commit_index)
  unfolding record_result record_success record_failure
  record_result-same c p i r = ground arith

  -- Where a call that takes a response commits something, the response has shown no newer term, and
  -- what is committed is the entry that the response is about: an entry of the leader's own term that
  -- was not committed yet, which followers, each with its own row of `match_index`, are recorded to
  -- hold, with the leader more than half of the cluster; each of these followers was recorded to hold
  -- it before the call, or is the one that answered, and answered with success.
  pub handle_append_entries_result_sound :
      (c : RaftCore S M) (p i j : ℕ) (r : AppendEntriesResult) {rs : List (ℕ × ApplyResult)}
      {c' : RaftCore S M}
      → handle_append_entries_result c p i r ≡ some (some j, rs, c')
      → (r.term ≤ c.current_term)
        × (j ≡ i)
        × (may : MayCommit (record_result c p i r) i) × (before : List ℕ) × Holders i c.match_index
            before
        × ((q : ℕ) → Has q may.holders → Has q before ⊎ ((q ≡ p) × (r.success ≡ true)))
  unfolding handle_append_entries_result process_append_entries_response
  handle_append_entries_result_sound c p i j r {rs} {c'} h =
      let (c₁, s, q) = >>=-eq-some (step_down_if_newer c r.term) _ h in
      elim (Bool-cases (same_state c₁.state leader)) [
        | inr other ↦ absurd (ground arith)
        | inl leads ↦
            let (same, fresh, was) = step_down-leader c r.term s leads in
            let call : try_commit (record_result c p i r) i ≡ some (some j, rs, c') =
              rw same at (rw leads at q) in
            let role = record_result-same c p i r in
            let (e, may) = try_commit_sound (record_result c p i r) i j (role.0 ∙ was) call in
            let (qs, was_held, f) = record_result-Holders c p i r may.holders may.hold in
            (fresh, e, may, qs, was_held, f)
      ]
