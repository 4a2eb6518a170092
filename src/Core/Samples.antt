-- ===== src/Core/Samples.antt =====
-- A node over `MemoryStorage` and a state machine that counts commands, for the tests.
use raft_vibe.Prelude.{ℕ, ◌+◌, none, some, List, [], ◌∷◌, ok, true, false}
use raft_vibe.Types.{
  LogEntry, follower, candidate, leader, RequestVoteArgs, AppendEntriesArgs, AppendEntriesResult,
  Bytes,
}
use raft_vibe.Storage.Memory.{MemoryStorage}
use raft_vibe.Machine.{Machine}
use raft_vibe.Core.State.{RaftCore}

abbrev restored_count : ℕ → Bytes → ℕ
restored_count m [] = m
restored_count m (n ∷ _) = n

instance abbrev pub counter : Machine ℕ
counter = record {
  validate = λ m command. ok tt;
  apply = λ m command. (ok "", m + 1);
  snapshot = λ m. ok (m ∷ []);
  restore = λ m bytes. (ok tt, restored_count m bytes);
}

abbrev pub entry : ℕ → ℕ → LogEntry
entry term index = record { term = term; index = index; command = "SET a 1" }

abbrev pub two_entries : List LogEntry
two_entries = entry 3 1 ∷ entry 4 2 ∷ []

-- A follower in term 4 with two entries, of which one is committed and applied.
abbrev pub node : RaftCore MemoryStorage ℕ
node = record {
  storage = record { term = 4; voted_for = none; log = two_entries; snapshot = none };
  state_machine = 1;
  current_term = 4;
  voted_for = none;
  log = two_entries;
  snapshot_last_index = 0;
  snapshot_last_term = 0;
  commit_index = 1;
  last_applied = 1;
  next_index = (2, 3) ∷ (3, 3) ∷ [];
  match_index = (2, 0) ∷ (3, 0) ∷ [];
  id = 1;
  state = follower;
  peers = 2 ∷ 3 ∷ [];
  votes_received = [];
  current_leader = none;
  last_heartbeat = 0;
  snapshot_threshold = 1000;
}

abbrev pub leading : RaftCore MemoryStorage ℕ
leading = record node { state = leader; current_leader = some 1; voted_for = some 1 }

abbrev pub running : RaftCore MemoryStorage ℕ
running = record node { state = candidate; voted_for = some 1; votes_received = 1 ∷ [] }

-- The same node with its first entry in a snapshot.
abbrev pub compact_node : RaftCore MemoryStorage ℕ
compact_node = record node {
  storage = record {
    term = 4;
    voted_for = none;
    log = entry 4 2 ∷ [];
    snapshot = some (record {
      metadata = record { last_included_index = 1; last_included_term = 3 };
      data_bytes = 1 ∷ [];
    });
  };
  log = entry 4 2 ∷ [];
  snapshot_last_index = 1;
  snapshot_last_term = 3;
}

abbrev pub vote_request : RequestVoteArgs
vote_request = record { term = 5; candidate_id = 2; last_log_index = 2; last_log_term = 4 }

-- From the leader of term 5: the second entry is replaced, a third follows, two are committed.
abbrev pub append_request : AppendEntriesArgs
append_request = record {
  term = 5;
  leader_id = 2;
  prev_log_index = 1;
  prev_log_term = 3;
  entries = entry 5 2 ∷ entry 5 3 ∷ [];
  leader_commit = 2;
}

abbrev pub stored : AppendEntriesResult
stored = record { term = 4; success = true; conflict_term = none; conflict_index = none }

abbrev pub refused : AppendEntriesResult
refused = record { term = 4; success = false; conflict_term = some 3; conflict_index = some 1 }
