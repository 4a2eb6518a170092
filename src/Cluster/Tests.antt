-- ===== src/Cluster/Tests.antt =====
-- An election of three nodes.
use raft_vibe.Prelude.{ℕ, ◌≡◌, refl, ◌+◌, length, true, none, List, [], ◌∷◌, arith, inl, inr, Has}
use raft_vibe.Types.{follower, RequestVoteArgs, RequestVoteResult}
use raft_vibe.Storage.Memory.{MemoryStorage, empty, memory_storage}
use raft_vibe.Storage.VoteLaws.{memory_vote_laws}
use raft_vibe.Core.VoteSafety.{IsDurable}
use raft_vibe.Core.State.{RaftCore}
use raft_vibe.Core.Persist.{set_term, set_voted_for, update_term, persist_log_entry}
use raft_vibe.Core.Query.{last_log_index, last_log_term, get_log_entry, is_log_up_to_date}
use raft_vibe.Core.Append.{step_down_if_newer}
use raft_vibe.Core.Election.{
  cast_vote, handle_request_vote, start_election, contains, insert_all, track_vote, count_vote,
  become_leader, process_request_vote_response, handle_request_vote_result,
}
use raft_vibe.Core.Samples.{counter}
use raft_vibe.Cluster.World.{World, put, request_vote, election, request_votes, reply, here, next}
use raft_vibe.Cluster.Elections.{Initial, election_safety}

-- A node that has just started, with the other two of the three as peers.
abbrev fresh : ℕ → List ℕ → RaftCore MemoryStorage ℕ
fresh id peers = record {
  storage = empty;
  state_machine = 0;
  current_term = 0;
  voted_for = none;
  log = [];
  snapshot_last_index = 0;
  snapshot_last_term = 0;
  commit_index = 0;
  last_applied = 0;
  next_index = [];
  match_index = [];
  id = id;
  state = follower;
  peers = peers;
  votes_received = [];
  current_leader = none;
  last_heartbeat = 0;
  snapshot_threshold = 1000;
}

abbrev members : List ℕ
members = 1 ∷ 2 ∷ 3 ∷ []

abbrev start : World MemoryStorage ℕ
start = record {
  node = put (put (λ _. fresh 1 (2 ∷ 3 ∷ [])) 2 (fresh 2 (1 ∷ 3 ∷ []))) 3 (fresh 3 (1 ∷ 2 ∷ []));
  asked = λ _. none;
  given = [];
  elected = [];
}

at_members : (P : ℕ → Type 0) → P 1 → P 2 → P 3 → (i : ℕ) → Has i members → P i
at_members P a b c i (inl e) = rw e a
at_members P a b c i (inr (inl e)) = rw e b
at_members P a b c i (inr (inr (inl e))) = rw e c
at_members P a b c i (inr (inr (inr m))) = absurd m

members-Initial : Initial members start
members-Initial = record {
  durable =
      at_members (λ i. IsDurable (start.node i)) (record { term = refl; vote = refl })
        (record { term = refl; vote = refl }) (record { term = refl; vote = refl });
  id = at_members (λ i. (start.node i).id ≡ i) refl refl refl;
  size = at_members (λ i. length (start.node i).peers + 1 ≡ 3) refl refl refl;
  followers = at_members (λ i. (start.node i).state ≡ follower) refl refl refl;
  no_votes = refl;
  no_leaders = refl;
}

abbrev request : RequestVoteArgs
request = record { term = 1; candidate_id = 1; last_log_index = 0; last_log_term = 0 }

abbrev granted_by_2 : RequestVoteResult
granted_by_2 = record { term = 1; vote_granted = true }

-- Node 1 starts an election, asks for votes, and is elected by the vote of node 2.
election_safety_example : ◌≡◌ {A = ℕ} 1 1
unfolding start_election set_term set_voted_for update_term handle_request_vote step_down_if_newer
    cast_vote is_log_up_to_date last_log_index last_log_term handle_request_vote_result
    process_request_vote_response count_vote track_vote contains become_leader insert_all
    persist_log_entry get_log_entry
election_safety_example =
    election_safety members members-Initial
      (next
        (next
          (next (next here (election 1 0 _ (inl refl) (omega arith) refl))
            (request_votes 1 (inl refl)))
          (request_vote 2 request granted_by_2 _ (inr (inl refl)) refl))
        (reply 1 2 1 granted_by_2 0 true _ (inl refl) (inr (inl refl)) refl (λ _. inl refl) refl))
      1 1 1 (inl refl) (inl refl)
