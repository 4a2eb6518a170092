-- ===== src/Core/Tests.antt =====
-- The theorems on votes and on the leader at concrete nodes.
use raft_vibe.Prelude.{
  ℕ, Option, ◌*◌, Has, ◌-◌, ◌≤◌, ◌<◌, none, ◌≡◌, ◌↔◌, ◌⊎◌, refl, true, some, List, [], ◌∷◌, length,
  lookup, lookup_or, insert, max, arith,
}
use raft_vibe.Types.{LogEntry, RequestVoteResult, ApplyResult, follower, candidate, leader}
use raft_vibe.Storage.Memory.{MemoryStorage, truncated, memory_storage}
use raft_vibe.Storage.VoteLaws.{memory_vote_laws}
use raft_vibe.Storage.Reliable.{memory_reliable}
use raft_vibe.Core.State.{RaftCore, new}
use raft_vibe.Core.Persist.{
  set_term, set_voted_for, update_term, persist_log_entry, persist_truncate_log,
}
use raft_vibe.Core.Query.{last_log_index, last_log_term, get_log_entry, is_log_up_to_date}
use raft_vibe.Core.Append.{
  step_down_if_newer, handle_append_entries, answer_leader, check_prev, check_entry, accept,
  advance_commit, apply_entries, apply_entry, replace_from,
}
use raft_vibe.Core.Election.{cast_vote, handle_request_vote}
use raft_vibe.Core.Step.{here, next, append_entries, restart}
use raft_vibe.Core.VoteSafety.{IsDurable}
use raft_vibe.Core.OneVote.{one_vote_per_term, term_and_vote_survive}
use raft_vibe.Core.Apply.{apply_loop, auto_snapshot, apply_committed_entries}
use raft_vibe.Core.Election.{
  become_leader, contains, insert_all, track_vote, count_vote, process_request_vote_response,
  handle_request_vote_result,
}
use raft_vibe.Core.Leader.{
  count_replicated, record_success, record_result, has_current_term, try_commit,
  process_append_entries_response, handle_append_entries_result,
}
use raft_vibe.Core.Applying.{Applied}
use raft_vibe.Core.Committing.{
  MayCommit, next_index_after_rejection, match_index_after_success,
  handle_append_entries_result_sound,
}
use raft_vibe.Core.Holding.{Holders}
use raft_vibe.Core.CommitRule.{Unmoved, handle_append_entries_result_exact}
use raft_vibe.Core.Electing.{
  AtLeastAsUpToDate, FreeToVote, handle_request_vote_exact, handle_request_vote_result_elects,
}
use raft_vibe.Core.Leading.{Distinct, Leads}
use raft_vibe.Core.Samples.{
  counter, entry, node, leading, running, vote_request, append_request, stored, refused,
}

node-IsDurable : IsDurable node
node-IsDurable = record { term = refl; vote = refl }

-- The vote of term 5, a crash and a restart, and the same request again.
one_vote_per_term_example : ◌≡◌ {A = ℕ} 2 2
unfolding handle_request_vote step_down_if_newer update_term set_term set_voted_for cast_vote
    is_log_up_to_date last_log_index last_log_term new
one_vote_per_term_example =
    one_vote_per_term node vote_request vote_request node-IsDurable refl refl
      (next here (restart 0 7 refl)) refl refl refl

-- The leader of term 4 after it has voted for node 2 in term 5.
abbrev voted : RaftCore MemoryStorage ℕ
voted = record leading {
  storage = record leading.storage { term = 5; voted_for = some 2 };
  current_term = 5;
  voted_for = some 2;
  state = follower;
}

abbrev new_log : List LogEntry
new_log = entry 3 1 ∷ entry 5 2 ∷ entry 5 3 ∷ []

-- The same node after the entries of the leader of term 5, and then a crash and a restart.
abbrev followed : RaftCore MemoryStorage ℕ
followed = record voted {
  storage = record voted.storage { log = new_log };
  log = new_log;
  commit_index = 2;
  last_applied = 2;
  state_machine = 2;
  current_leader = some 2;
  last_heartbeat = 6;
}

abbrev restarted : RaftCore MemoryStorage ℕ
restarted = record followed {
  state_machine = 0;
  commit_index = 0;
  last_applied = 0;
  next_index = [];
  match_index = [];
  current_leader = none;
  last_heartbeat = 7;
}

voted-IsDurable : IsDurable voted
voted-IsDurable = record { term = refl; vote = refl }

-- The vote for node 2 in term 5 is still there, in memory and in the storage.
term_and_vote_survive_example :
    IsDurable restarted
    × ((5 < restarted.current_term)
        ⊎ ((restarted.current_term ≡ 5)
            × ((voted.voted_for ≡ none) ⊎ (restarted.voted_for ≡ voted.voted_for))))
unfolding handle_append_entries answer_leader check_prev check_entry accept advance_commit
    apply_entries apply_entry replace_from persist_log_entry persist_truncate_log get_log_entry
    apply_committed_entries apply_loop auto_snapshot step_down_if_newer new last_log_index truncated
term_and_vote_survive_example = term_and_vote_survive {c = voted} {c' = restarted} voted-IsDurable (
    next {d = followed} (next {d = voted} here (append_entries append_request 6 _ refl))
      (restart 0 7 refl))

next_index_after_rejection_example :
    (1 ≤ lookup_or (record_result leading 2 0 refused).next_index 2 1)
    × (lookup_or (record_result leading 2 0 refused).next_index 2 1
        ≤ max (lookup_or leading.next_index 2 1 - 1) 1)
    × (lookup (record_result leading 2 0 refused).next_index 3 ≡ lookup leading.next_index 3)
    × ((record_result leading 2 0 refused).match_index ≡ leading.match_index)
next_index_after_rejection_example =
    next_index_after_rejection leading 2 0 3 refused refl (omega arith)

match_index_after_success_example :
    (2 ≤ lookup_or (record_result leading 2 2 stored).match_index 2 0)
    × (lookup_or (record_result leading 2 2 stored).next_index 2 1 ≡ 3)
    × ((q : ℕ)
        → lookup_or leading.match_index q 0
          ≤ lookup_or (record_result leading 2 2 stored).match_index q 0)
match_index_after_success_example = match_index_after_success leading 2 2 stored refl (omega arith)

abbrev recorded : RaftCore MemoryStorage ℕ
recorded = record leading { next_index = (2, 3) ∷ (3, 3) ∷ []; match_index = (2, 2) ∷ (3, 0) ∷ [] }

abbrev all_applied : RaftCore MemoryStorage ℕ
all_applied = record recorded { commit_index = 2; last_applied = 2; state_machine = 2 }

handle_append_entries_result_sound_example :
    (4 ≤ 4)
    × (◌≡◌ {A = ℕ} 2 2)
    × (may : MayCommit (record_result leading 2 2 stored) 2) × (before : List ℕ) × Holders 2
        leading.match_index before
    × ((q : ℕ) → Has q may.holders → Has q before ⊎ ((q ≡ 2) × (stored.success ≡ true)))
unfolding handle_append_entries_result process_append_entries_response step_down_if_newer
    record_result record_success try_commit has_current_term count_replicated get_log_entry
    apply_committed_entries apply_loop auto_snapshot lookup_or lookup insert
handle_append_entries_result_sound_example =
    handle_append_entries_result_sound leading 2 2 2 stored {c' = all_applied} refl

-- Two nodes of three hold the second entry, and it is committed.
handle_append_entries_result_exact_example :
    (o : Option ℕ) × (rs : List (ℕ × ApplyResult)) × (c' : RaftCore MemoryStorage ℕ)
    × (handle_append_entries_result leading 2 2 stored ≡ some (o, rs, c'))
    × (((4 ≤ 4)
          × MayCommit (record_result leading 2 2 stored) 2
          × (o ≡ some 2)
          × (c'.commit_index ≡ 2)
          × Applied (record (record_result leading 2 2 stored) { commit_index = 2 }) rs c')
        ⊎ ((¬ ((4 ≤ 4) × MayCommit (record_result leading 2 2 stored) 2))
            × (o ≡ none)
            × (rs ≡ [])
            × Unmoved leading c'))
handle_append_entries_result_exact_example =
    handle_append_entries_result_exact leading 2 2 stored (omega arith)

handle_request_vote_exact_example :
    (r : RequestVoteResult) × (c' : RaftCore MemoryStorage ℕ) × (handle_request_vote node
        vote_request
      ≡ some (r, c'))
    × (r.term ≡ 5)
    × ((r.vote_granted ≡ true)
        ↔ (FreeToVote node vote_request × AtLeastAsUpToDate node vote_request))
handle_request_vote_exact_example = handle_request_vote_exact node vote_request

abbrev yes_vote : RequestVoteResult
yes_vote = record { term = 4; vote_granted = true }

handle_request_vote_result_elects_example :
    (running.state ≡ candidate)
    × (4 ≤ 4)
    × (voters : List ℕ) × Distinct voters
    × (3 < 2 * length voters)
    × ((v : ℕ)
        → Has v voters
        → Has v running.votes_received ⊎ ((v ≡ 2) × (yes_vote.vote_granted ≡ true)))
    × Leads running (record running {
      storage = record node.storage {
        log = entry 3 1 ∷ entry 4 2 ∷ record { term = 4; index = 3; command = "NOOP" } ∷ [];
      };
      log = entry 3 1 ∷ entry 4 2 ∷ record { term = 4; index = 3; command = "NOOP" } ∷ [];
      state = leader;
      current_leader = some 1;
      last_heartbeat = 9;
      votes_received = 1 ∷ 2 ∷ [];
    })
unfolding handle_request_vote_result process_request_vote_response step_down_if_newer count_vote
    track_vote become_leader persist_log_entry last_log_index insert_all insert contains
handle_request_vote_result_elects_example =
    handle_request_vote_result_elects running 2 yes_vote 9 (refl, tt) refl
