-- ===== src/Core/Append.antt =====
-- `handle_append_entries` and `apply_entries`.
use raft_vibe.Prelude.{
  ℕ, ◌-◌, Bool, true, false, Option, none, some, List, [], ◌∷◌, ◌>>=◌, get_elem?, ltb, leb, ◌==◌,
  if◌then◌else◌, add_u64, min,
}
use raft_vibe.Types.{LogEntry, follower, AppendEntriesArgs, HandleAppendEntriesOutput}
use raft_vibe.Storage.{Storage}
use raft_vibe.Machine.{Machine}
use raft_vibe.Core.State.{RaftCore, Instant}
use raft_vibe.Core.Persist.{update_term, persist_log_entry, persist_truncate_log}
use raft_vibe.Core.Query.{last_log_index, get_log_entry, find_first_index_for_term}
use raft_vibe.Core.Apply.{apply_committed_entries}

module _ {S M : Type 0} ⦃st : Storage S⦄ where
  -- `log[entry_idx]` has another term: delete it and all that follow, then append.
  unfoldable pub replace_from : RaftCore S M → LogEntry → Option (RaftCore S M)
  replace_from c entry = do c₁ ← persist_truncate_log c entry.index; persist_log_entry c₁ entry

  -- The body of the loop of `apply_entries`.
  unfoldable pub apply_entry : RaftCore S M → LogEntry → Option (RaftCore S M)
  unfolding replace_from
  apply_entry c entry =
      if leb entry.index c.snapshot_last_index
      then some c
      else elim (get_elem? c.log (entry.index - c.snapshot_last_index - 1)) [
        | some e ↦ if e.term == entry.term then some c else replace_from c entry
        | none ↦ persist_log_entry c entry
      ]

  unfoldable pub apply_entries : RaftCore S M → List LogEntry → Option (RaftCore S M)
  apply_entries c [] = some c
  apply_entries c (entry ∷ entries) = do c₁ ← apply_entry c entry; apply_entries c₁ entries

  -- A request or a response with a higher term: take the term over and become a follower.
  unfoldable pub step_down_if_newer : RaftCore S M → ℕ → Option (RaftCore S M)
  step_down_if_newer c term =
      if ltb c.current_term term
      then (do c₁ ← update_term c term; some (record c₁ { state = follower }))
      else some c

-- What `handle_append_entries` found: `success`, `conflict_term` and `conflict_index`.
pub record Outcome : Type 0 where
  pub success : Bool
  pub conflict_term : Option ℕ
  pub conflict_index : Option ℕ

abbrev pub accepted : Outcome
accepted = record { success = true; conflict_term = none; conflict_index = none }

abbrev pub rejected : Option ℕ → Option ℕ → Outcome
rejected term index = record { success = false; conflict_term = term; conflict_index = index }

module _ {S M : Type 0} ⦃st : Storage S⦄ ⦃sm : Machine M⦄ where
  unfoldable pub advance_commit : RaftCore S M → ℕ → Option (RaftCore S M)
  advance_commit c leader_commit =
      if ltb c.commit_index leader_commit
      then (do
        (_, c₁) ←
            apply_committed_entries
              (record c { commit_index = min leader_commit (last_log_index c) })
        some c₁)
      else some c

  -- The branch that succeeds, which the source repeats three times.
  unfoldable pub accept : RaftCore S M → AppendEntriesArgs → Option (Outcome × RaftCore S M)
  accept c req = do
    c₁ ← apply_entries c req.entries
    c₂ ← advance_commit c₁ req.leader_commit
    some (accepted, c₂)

  -- The entry at `prev_log_index`, which is not at the boundary of the snapshot.
  unfoldable pub check_entry :
      RaftCore S M → AppendEntriesArgs → Option LogEntry → Option (Outcome × RaftCore S M)
  check_entry c req (some e) =
      if e.term == req.prev_log_term
      then accept c req
      else some
          (rejected (some e.term) (some (find_first_index_for_term c e.term req.prev_log_index)), c)
  check_entry c req none = some (rejected none (some (add_u64 c.snapshot_last_index 1)), c)

  unfoldable pub check_prev : RaftCore S M → AppendEntriesArgs → Option (Outcome × RaftCore S M)
  unfolding check_entry
  check_prev c req =
      if ltb 0 req.prev_log_index
      then if ltb (last_log_index c) req.prev_log_index
        then some (rejected none (some (add_u64 (last_log_index c) 1)), c)
        else if req.prev_log_index == c.snapshot_last_index
        then if req.prev_log_term == c.snapshot_last_term
          then accept c req
          else some (rejected (some c.snapshot_last_term) (some c.snapshot_last_index), c)
        else check_entry c req (get_log_entry c req.prev_log_index)
      else accept c req

  -- The answer to a leader whose term is not stale.
  unfoldable pub answer_leader :
      RaftCore S M → AppendEntriesArgs → Instant → Option (HandleAppendEntriesOutput × RaftCore S M)
  answer_leader c req now = do
    (outcome, c₁) ←
        check_prev
          (record c { state = follower; current_leader = some req.leader_id; last_heartbeat = now })
          req
    some (
      record {
        result = record {
          term = c₁.current_term;
          success = outcome.success;
          conflict_term = outcome.conflict_term;
          conflict_index = outcome.conflict_index;
        };
        leader_id = some req.leader_id;
      },
      c₁,
    )

  unfoldable pub handle_append_entries :
      RaftCore S M → AppendEntriesArgs → Instant → Option (HandleAppendEntriesOutput × RaftCore S M)
  handle_append_entries c req now = do
    c₁ ← step_down_if_newer c req.term
    if ltb req.term c₁.current_term
        then some (
          record {
            result = record {
              term = c₁.current_term;
              success = false;
              conflict_term = none;
              conflict_index = none;
            };
            leader_id = none;
          },
          c₁,
        )
        else answer_leader c₁ req now
