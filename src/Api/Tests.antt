-- ===== src/Api/Tests.antt =====
-- The theorems on the client's requests at concrete requests and nodes.
use Prim.Native.String.{◌++◌}
use text.Mathlib.Text.{◌==◌}
use raft_vibe.Prelude.{
  ℕ, ◌*◌, ◌<◌, ◌+◌, ◌≤◌, ◌≡◌, refl, String, Option, none, some, List, [], ◌∷◌, ok, true, lookup_or,
  lookup, insert, if◌then◌else◌, arith,
}
use raft_vibe.Types.{LogEntry, leader, AppendEntriesResult}
use raft_vibe.Storage.Memory.{MemoryStorage, memory_storage}
use raft_vibe.Machine.{Machine}
use raft_vibe.Machine.Dict.{get as find, put}
use raft_vibe.Machine.Kv.{
  KeyValueStore, Json, kv_machine, validate, apply, get, splitn, split_first,
}
use raft_vibe.Core.State.{RaftCore}
use raft_vibe.Core.Leader.{
  validate_command, append_log_entry, process_append_entries_response, record_result,
  record_success, try_commit, has_current_term, count_replicated, handle_append_entries_result,
}
use raft_vibe.Core.Append.{step_down_if_newer}
use raft_vibe.Core.Persist.{persist_log_entry}
use raft_vibe.Core.Query.{last_log_index, get_log_entry}
use raft_vibe.Core.Apply.{apply_committed_entries, apply_loop, auto_snapshot}
use raft_vibe.Core.Samples.{counter, entry, two_entries, stored}
use raft_vibe.Node.Replies.{Arrival, replicate_loop, result_for, confirm_loop, confirm_leadership}
use raft_vibe.Node.Server.{
  submit, handle_submit, replicated, poll_state, poll_loop, after_confirm, handle_read_index,
  read_index,
}
use raft_vibe.Node.Deciding.{Decided}
use raft_vibe.Node.Confirm.{Confirmed}
use raft_vibe.Api.Handlers.{
  KvGetResponse, KvMutationResponse, handle_kv_set, handle_kv_get, read_value, set_command,
}
use raft_vibe.Api.Commands.{SpaceFree, set_get, set_get_spaced}
use raft_vibe.Api.Reads.{handle_kv_get_sound, handle_kv_set_sound}

abbrev store : KeyValueStore
store = record { entries = ("a", "1") ∷ [] }

set_get_example :
    (validate store (set_command "a" "2 3") ≡ ok tt)
    × (kv' : KeyValueStore) × (apply store (set_command "a" "2 3") ≡ (ok "", kv'))
    × (get kv' "a" ≡ (if "a" == "a" then some "2 3" else get store "a"))
unfolding SpaceFree
set_get_example = set_get store "a" "2 3" "a" (omega arith, tt)

set_get_spaced_example :
    (kv' : KeyValueStore) × (apply store (set_command ("a" ++ (" " ++ "b")) "2") ≡ (ok "", kv'))
    × (get kv' "a" ≡ (if "a" == "a" then some ("b" ++ (" " ++ "2")) else get store "a"))
unfolding SpaceFree
set_get_spaced_example = set_get_spaced store "a" "b" "2" "a" (omega arith, tt)

abbrev empty_json : Json
empty_json = record { to_vec = λ d. ok []; from_slice = λ b. ok [] }

instance abbrev kv_store : Machine KeyValueStore
kv_store = kv_machine empty_json

abbrev serving : RaftCore MemoryStorage KeyValueStore
serving = record {
  storage = record { term = 4; voted_for = some 1; log = two_entries; snapshot = none };
  state_machine = store;
  current_term = 4;
  voted_for = some 1;
  log = two_entries;
  snapshot_last_index = 0;
  snapshot_last_term = 0;
  commit_index = 1;
  last_applied = 1;
  next_index = (2, 3) ∷ (3, 3) ∷ [];
  match_index = (2, 0) ∷ (3, 0) ∷ [];
  id = 1;
  state = leader;
  peers = 2 ∷ 3 ∷ [];
  votes_received = [];
  current_leader = some 1;
  last_heartbeat = 0;
  snapshot_threshold = 1000;
}

abbrev one_answer : List (Arrival MemoryStorage KeyValueStore AppendEntriesResult)
one_answer = record { meanwhile = λ c. some c; peer = 2; reply = ok stored; at = 8 } ∷ []

abbrev done : KvMutationResponse
done = record { key = "a"; success = true }

abbrev found : KvGetResponse
found = record { key = "a"; value = some "1" }

handle_kv_get_sound_example :
    (serving.state ≡ leader)
    × (c₀ : RaftCore MemoryStorage KeyValueStore) × (◌≡◌
        {A = Option (RaftCore MemoryStorage KeyValueStore)}
        (some serving)
        (some c₀))
    × (c₀.state ≡ leader)
    × (n : ℕ) × (3 < 2 * (1 + n))
    × (c₁ : RaftCore MemoryStorage KeyValueStore) × Confirmed one_answer (λ c. some c) c₀ n c₁
    × (c₂ : RaftCore MemoryStorage KeyValueStore) × (c₂.state ≡ leader)
    × (serving.commit_index ≤ c₂.last_applied)
    × (◌≡◌ {A = Option (RaftCore MemoryStorage KeyValueStore)} (some c₂) (some serving))
    × (found.key ≡ "a")
    × (found.value ≡ get serving.state_machine "a")
unfolding handle_kv_get read_value read_index handle_read_index confirm_leadership confirm_loop
    after_confirm poll_loop poll_state get find
handle_kv_get_sound_example =
    handle_kv_get_sound true "a" (λ c. some c) one_answer (λ c. some c) (λ c. some c) []
      (λ c. some c) serving {r = found} {c' = serving} refl

abbrev third : LogEntry
third = record { term = 4; index = 3; command = set_command "a" "2" }

abbrev appended : RaftCore MemoryStorage KeyValueStore
appended = record serving {
  storage = record serving.storage { log = entry 3 1 ∷ entry 4 2 ∷ third ∷ [] };
  log = entry 3 1 ∷ entry 4 2 ∷ third ∷ [];
}

-- The node after the answer: three entries are committed and applied.
abbrev written : RaftCore MemoryStorage KeyValueStore
written = record appended {
  commit_index = 3;
  last_applied = 3;
  state_machine = record { entries = ("a", "2") ∷ [] };
  match_index = (2, 3) ∷ (3, 0) ∷ [];
  next_index = (2, 4) ∷ (3, 3) ∷ [];
}

handle_kv_set_sound_example :
    (done.key ≡ "a")
    × (serving.state ≡ leader)
    × (e : LogEntry) × (c₁ : RaftCore MemoryStorage KeyValueStore) × (append_log_entry serving
          (set_command "a" "2")
        ≡ some (some e, c₁))
    × (e.term ≡ 4)
    × (e.command ≡ set_command "a" "2")
    × (a : String) × Decided e.index (ok a) one_answer c₁ written
unfolding handle_kv_set submit handle_submit replicated append_log_entry persist_log_entry
    last_log_index replicate_loop result_for handle_append_entries_result
    process_append_entries_response step_down_if_newer record_result record_success try_commit
    has_current_term count_replicated get_log_entry apply_committed_entries apply_loop auto_snapshot
    lookup_or lookup insert validate apply splitn split_first find put validate_command
handle_kv_set_sound_example =
    handle_kv_set_sound true "a" "2" one_answer serving {r = done} {c' = written} refl
