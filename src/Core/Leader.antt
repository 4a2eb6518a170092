-- ===== src/Core/Leader.antt =====
-- The leader's side: `validate_command`, `append_log_entry`, `handle_append_entries_result`.
use raft_vibe.Prelude.{
  ℕ, ◌+◌, String, Bool, false, ◌&&◌, not, Option, none, some, List, [], ◌∷◌, ◌>>=◌, Result, Assoc,
  insert, lookup_or, ltb, leb, ◌==◌, if◌then◌else◌, add_u64, saturating_sub, min, max,
}
use raft_vibe.Types.{LogEntry, leader, AppendEntriesResult, ApplyResult}
use raft_vibe.Storage.{Storage}
use raft_vibe.Machine.{Machine}
use raft_vibe.Core.State.{RaftCore}
use raft_vibe.Core.Persist.{persist_log_entry}
use raft_vibe.Core.Query.{last_log_index, get_log_entry, find_last_index_for_term}
use raft_vibe.Core.Apply.{apply_committed_entries}
use raft_vibe.Core.Append.{step_down_if_newer}
use raft_vibe.Core.Election.{same_state, majority_of}

abbrev conflict_or_one : Option ℕ → ℕ
conflict_or_one none = 1
conflict_or_one (some index) = index

-- How many of the followers in `match_index` hold the entry.
unfoldable pub count_replicated : Assoc → ℕ → ℕ
count_replicated [] entry_index = 0
count_replicated ((p, matched) ∷ rest) entry_index =
    (if leb entry_index matched then 1 else 0) + count_replicated rest entry_index

module _ {S M : Type 0} ⦃sm : Machine M⦄ where
  unfoldable pub validate_command : RaftCore S M → String → Result String (Unit {0})
  validate_command c command = sm.validate c.state_machine command

module _ {S M : Type 0} ⦃st : Storage S⦄ where
  unfoldable pub append_log_entry : RaftCore S M → String → Option (Option LogEntry × RaftCore S M)
  append_log_entry c command = if not (same_state c.state leader) then some (none, c) else (do
    let entry : LogEntry = record {
      term = c.current_term;
      index = add_u64 (last_log_index c) 1;
      command = command;
    }
    c₁ ← persist_log_entry c entry
    some (some entry, c₁))

  -- `process_append_entries_response`
  unfoldable pub process_append_entries_response :
      RaftCore S M → AppendEntriesResult → Option (RaftCore S M)
  process_append_entries_response c result = step_down_if_newer c result.term

  -- The entry of `match_index` and `next_index` after a success up to `entry_index`.
  unfoldable pub record_success : RaftCore S M → ℕ → ℕ → RaftCore S M
  record_success c peer_id entry_index =
      if ltb 0 entry_index
      then record c {
        match_index =
            if ltb (lookup_or c.match_index peer_id 0) entry_index
            then insert c.match_index peer_id entry_index
            else c.match_index;
        next_index = insert c.next_index peer_id (add_u64 entry_index 1);
      }
      else c

  -- `new_next`, by the hint of the follower.
  unfoldable pub hinted_next : RaftCore S M → ℕ → Option ℕ → Option ℕ → ℕ
  hinted_next c peer_id (some term) index = elim (find_last_index_for_term c term) [
    | some i ↦ add_u64 i 1
    | none ↦ conflict_or_one index
  ]
  hinted_next c peer_id none (some index) = index
  hinted_next c peer_id none none = max (saturating_sub (lookup_or c.next_index peer_id 1) 1) 1

  unfoldable pub record_failure : RaftCore S M → ℕ → AppendEntriesResult → RaftCore S M
  record_failure c peer_id result =
      let new_next = hinted_next c peer_id result.conflict_term result.conflict_index in
      let current_next = lookup_or c.next_index peer_id 1 in
      let safe_next = min (max new_next 1) (max (saturating_sub current_next 1) 1) in
      record c { next_index = insert c.next_index peer_id safe_next }

  unfoldable pub record_result : RaftCore S M → ℕ → ℕ → AppendEntriesResult → RaftCore S M
  record_result c peer_id entry_index result =
      if result.success
      then record_success c peer_id entry_index
      else record_failure c peer_id result

  -- `entry_term == Some(self.current_term)`
  unfoldable pub has_current_term : RaftCore S M → ℕ → Bool
  has_current_term c entry_index = elim (get_log_entry c entry_index) [
    | none ↦ false
    | some e ↦ e.term == c.current_term
  ]

module _ {S M : Type 0} ⦃st : Storage S⦄ ⦃sm : Machine M⦄ where
  -- The part from the test `entry_index == 0` on.
  unfoldable pub try_commit :
      RaftCore S M → ℕ → Option (Option ℕ × List (ℕ × ApplyResult) × RaftCore S M)
  try_commit c entry_index =
      if entry_index == 0
      then some (none, [], c)
      else if not (has_current_term c entry_index)
      then some (none, [], c)
      else if leb (majority_of c.peers) (1 + count_replicated c.match_index entry_index)
          && ltb c.commit_index entry_index
      then (do
        (results, c₁) ← apply_committed_entries (record c { commit_index = entry_index })
        some (some entry_index, results, c₁))
      else some (none, [], c)

  unfoldable pub handle_append_entries_result :
      RaftCore S M
      → ℕ
      → ℕ
      → AppendEntriesResult
      → Option (Option ℕ × List (ℕ × ApplyResult) × RaftCore S M)
  handle_append_entries_result c peer_id entry_index result = do
    c₁ ← process_append_entries_response c result
    if same_state c₁.state leader
        then try_commit (record_result c₁ peer_id entry_index result) entry_index
        else some (none, [], c₁)
