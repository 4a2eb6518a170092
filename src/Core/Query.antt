-- ===== src/Core/Query.antt =====
-- The read-only methods of `RaftCore` on its log.
use raft_vibe.Prelude.{
  ℕ, zero, suc, ◌-◌, Bool, ◌&&◌, ◌||◌, Option, none, some, List, [], ◌∷◌, get_elem?, last?, ltb,
  leb, ◌==◌, if◌then◌else◌, add_u64,
}
use mathlib.Core.List.{reverse}
use raft_vibe.Types.{LogEntry}
use raft_vibe.Core.State.{RaftCore}

-- The loop of `find_last_index_for_term`: `break` and the end of the log both give `none`.
unfoldable pub last_index_in : List LogEntry → ℕ → Option ℕ
last_index_in [] term = none
last_index_in (e ∷ es) term =
    let earlier = last_index_in es term in
    if e.term == term then some e.index else if ltb e.term term then none else earlier

module _ {S M : Type 0} where
  unfoldable pub last_log_index : RaftCore S M → ℕ
  last_log_index c = elim (last? c.log) [ none ↦ c.snapshot_last_index | some e ↦ e.index ]

  unfoldable pub last_log_term : RaftCore S M → ℕ
  last_log_term c = elim (last? c.log) [ none ↦ c.snapshot_last_term | some e ↦ e.term ]

  unfoldable pub get_log_entry : RaftCore S M → ℕ → Option LogEntry
  get_log_entry c index =
      if leb index c.snapshot_last_index
      then none
      else get_elem? c.log (index - c.snapshot_last_index - 1)

  -- The `while` loop goes down by one in each round, so it recurs on the index.
  unfoldable pub find_first_index_for_term : RaftCore S M → ℕ → ℕ → ℕ
  find_first_index_for_term c term zero = zero
  find_first_index_for_term c term (suc idx) =
      let rest = find_first_index_for_term c term idx in
      if ltb (add_u64 c.snapshot_last_index 1) (suc idx)
      then elim (get_log_entry c idx) [
        | none ↦ suc idx
        | some e ↦ if e.term == term then rest else suc idx
      ]
      else suc idx

  unfoldable pub find_last_index_for_term : RaftCore S M → ℕ → Option ℕ
  unfolding last_index_in
  find_last_index_for_term c term = elim (last_index_in (reverse c.log) term) [
    | some index ↦ some index
    | none ↦
        if c.snapshot_last_term == term && ltb 0 c.snapshot_last_index
        then some c.snapshot_last_index
        else none
  ]

  unfoldable pub is_log_up_to_date : RaftCore S M → ℕ → ℕ → Bool
  is_log_up_to_date c candidate_last_log_term candidate_last_log_index =
      ltb (last_log_term c) candidate_last_log_term
      || (candidate_last_log_term == last_log_term c
          && leb (last_log_index c) candidate_last_log_index)
