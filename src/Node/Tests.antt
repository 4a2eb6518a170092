-- ===== src/Node/Tests.antt =====
-- The theorems on the replies and requests of `RaftNode` at concrete nodes.
use raft_vibe.Prelude.{
  ◌<◌, ◌*◌, Option, err, ℕ, ◌+◌, ◌-◌, ◌≤◌, ◌≡◌, inr, refl, true, some, List, [], ◌∷◌, ok, lookup,
  lookup_or, insert, add_u64, drop, arith,
}
use raft_vibe.Types.{
  LogEntry, RequestVoteArgs, RequestVoteResult, AppendEntriesArgs, AppendEntriesResult, leader,
}
use raft_vibe.Storage.Memory.{MemoryStorage, memory_storage}
use raft_vibe.Storage.VoteLaws.{memory_vote_laws}
use raft_vibe.Storage.Reliable.{memory_reliable}
use raft_vibe.Core.State.{RaftCore, new}
use raft_vibe.Core.Persist.{set_term, set_voted_for, update_term, persist_log_entry}
use raft_vibe.Core.Query.{get_log_entry, last_log_index, last_log_term, is_log_up_to_date}
use raft_vibe.Core.Append.{step_down_if_newer}
use raft_vibe.Core.Election.{cast_vote, handle_request_vote}
use raft_vibe.Core.Apply.{apply_committed_entries, apply_loop, auto_snapshot}
use raft_vibe.Core.Leader.{
  validate_command, append_log_entry, process_append_entries_response, record_result,
  record_success, try_commit, has_current_term, count_replicated, handle_append_entries_result,
}
use raft_vibe.Core.LogOk.{LogOk}
use raft_vibe.Core.Samples.{counter, entry, compact_node, node, leading, vote_request, stored}
use raft_vibe.Node.Request.{append_entries, next_of, replicate_args, heartbeat_request}
use raft_vibe.Node.Replies.{
  Arrival, timeout, replicate_loop, result_for, adopt_term, confirm_loop, confirm_leadership,
}
use raft_vibe.Node.Server.{
  poll_state, poll_loop, after_confirm, handle_read_index, replicated, handle_submit,
}
use raft_vibe.Node.StaleTerm.{second_vote}
use raft_vibe.Node.Confirm.{Confirmed, handle_read_index_sound}
use raft_vibe.Node.Deciding.{Decided}
use raft_vibe.Node.Submit.{handle_submit_sound}
use raft_vibe.Node.Sending.{Consistent, heartbeat_request-Consistent, replicate_args_gap}

abbrev other_request : RequestVoteArgs
other_request = record vote_request { candidate_id = 3 }

-- The node of the samples after a response of term 5, a vote for node 2 in that term, and a restart.
abbrev restarted : RaftCore MemoryStorage ℕ
restarted = record node {
  storage = record node.storage { voted_for = some 2 };
  voted_for = some 2;
  state_machine = 0;
  commit_index = 0;
  last_applied = 0;
  next_index = [];
  match_index = [];
  last_heartbeat = 7;
}

second_vote_example :
    (◌≡◌ {A = ℕ} restarted.current_term 4)
    × (r : RequestVoteResult) × (c : RaftCore MemoryStorage ℕ) × (handle_request_vote restarted
          other_request
        ≡ some (r, c))
    × (r.vote_granted ≡ true)
    × (r.term ≡ 5)
unfolding handle_request_vote adopt_term step_down_if_newer update_term set_term set_voted_for
    cast_vote is_log_up_to_date last_log_index last_log_term new
second_vote_example =
    second_vote node 5 vote_request other_request 0 7 {c₂ = restarted}
      (record { term = refl; vote = refl }) (omega arith) refl refl refl refl refl
      (inr (refl, omega arith))

-- The request to peer 3 is lost, and peer 2 answers.
abbrev one_answer : List (Arrival MemoryStorage ℕ AppendEntriesResult)
one_answer =
    record { meanwhile = λ c. some c; peer = 3; reply = err timeout; at = 7 }
    ∷ record { meanwhile = λ c. some c; peer = 2; reply = ok stored; at = 8 }
    ∷ []

handle_read_index_sound_example :
    (leading.state ≡ leader)
    × (c₀ : RaftCore MemoryStorage ℕ) × (◌≡◌ {A = Option (RaftCore MemoryStorage ℕ)}
        (some leading)
        (some c₀))
    × (c₀.state ≡ leader)
    × (n : ℕ) × (3 < 2 * (1 + n))
    × (c₁ : RaftCore MemoryStorage ℕ) × Confirmed one_answer (λ c. some c) c₀ n c₁
    × (leading.state ≡ leader)
    × (leading.commit_index ≤ 1)
    × (◌≡◌ {A = ℕ} 1 leading.last_applied)
unfolding handle_read_index confirm_leadership confirm_loop after_confirm poll_loop poll_state
handle_read_index_sound_example =
    handle_read_index_sound (λ c. some c) one_answer (λ c. some c) (λ c. some c) [] leading {v = 1}
      {c' = leading} refl

leading-LogOk : LogOk leading
leading-LogOk = omega arith

heartbeat_request-Consistent_example :
    (req : AppendEntriesArgs) × (i : ℕ) × (heartbeat_request leading 2
      ≡ some (append_entries req i))
    × (req.entries ≡ drop (next_of leading 2 - 1 - leading.snapshot_last_index) leading.log)
    × Consistent leading (next_of leading 2) req
unfolding lookup_or lookup
heartbeat_request-Consistent_example =
    heartbeat_request-Consistent leading 2 leading-LogOk (omega arith) (omega arith)

abbrev third : LogEntry
third = record { term = 4; index = 3; command = "SET b 2" }

-- The leading node with that entry, once a reply has come: three entries are committed and applied.
abbrev committed : RaftCore MemoryStorage ℕ
committed = record leading {
  storage = record leading.storage { log = entry 3 1 ∷ entry 4 2 ∷ third ∷ [] };
  log = entry 3 1 ∷ entry 4 2 ∷ third ∷ [];
  commit_index = 3;
  last_applied = 3;
  state_machine = 3;
  match_index = (2, 3) ∷ (3, 0) ∷ [];
  next_index = (2, 4) ∷ (3, 3) ∷ [];
}

handle_submit_sound_example :
    (leading.state ≡ leader)
    × (validate_command leading "SET b 2" ≡ ok tt)
    × (e : LogEntry) × (c₁ : RaftCore MemoryStorage ℕ) × (append_log_entry leading "SET b 2"
        ≡ some (some e, c₁))
    × (e.term ≡ 4)
    × (e.command ≡ "SET b 2")
    × (e.index ≡ add_u64 (last_log_index leading) 1)
    × Decided e.index (ok "") one_answer c₁ committed
unfolding handle_submit replicated append_log_entry persist_log_entry last_log_index replicate_loop
    result_for handle_append_entries_result process_append_entries_response step_down_if_newer
    record_result record_success try_commit has_current_term count_replicated get_log_entry
    apply_committed_entries apply_loop auto_snapshot lookup_or lookup insert validate_command
handle_submit_sound_example =
    handle_submit_sound "SET b 2" one_answer leading {a = ""} {c' = committed} refl

abbrev compact_leader : RaftCore MemoryStorage ℕ
compact_leader = record compact_node { state = leader; next_index = [] }

compact_leader-LogOk : LogOk compact_leader
compact_leader-LogOk = omega arith

replicate_args_gap_example :
    (rest : List LogEntry) × ((replicate_args compact_leader 2 2).entries ≡ entry 4 2 ∷ rest)
    × ((replicate_args compact_leader 2 2).prev_log_index ≡ 0)
    × (1 < 2)
unfolding lookup_or lookup
replicate_args_gap_example =
    replicate_args_gap compact_leader 2 2 (entry 4 2) [] compact_leader-LogOk (omega arith) refl
      refl (omega arith)
