-- ===== src/Core/LogTests.antt =====
-- The theorems on the log at concrete nodes.
use raft_vibe.Prelude.{
  ltb, if◌then◌else◌, ◌==◌, leb, retain, ℕ, ◌≤◌, ◌<◌, ◌≡◌, ◌⊎◌, inr, refl, true, false, none, some,
  List, [], ◌∷◌, length, arith,
}
use raft_vibe.Types.{HandleAppendEntriesOutput, ApplyResult}
use raft_vibe.Storage.Memory.{MemoryStorage, memory_storage}
use raft_vibe.Storage.VoteLaws.{memory_vote_laws}
use raft_vibe.Storage.Reliable.{memory_reliable}
use raft_vibe.Core.State.{RaftCore}
use raft_vibe.Core.Persist.{
  set_term, set_voted_for, update_term, persist_log_entry, persist_truncate_log,
}
use raft_vibe.Core.Query.{last_log_index, get_log_entry}
use raft_vibe.Core.Append.{step_down_if_newer, apply_entry}
use raft_vibe.Types.{follower, AppendEntriesArgs}
use raft_vibe.Core.Query.{find_first_index_for_term}
use raft_vibe.Core.Apply.{apply_committed_entries, take_snapshot}
use raft_vibe.Core.Append.{
  apply_entries, replace_from, check_entry, check_prev, answer_leader, handle_append_entries,
}
use raft_vibe.Core.LogOk.{LogOk, Compacts, take_snapshot-Compacts}
use raft_vibe.Core.Applying.{Applied, apply_committed_entries_lem}
use raft_vibe.Core.Merge.{with_log, apply_entries-merged}
use raft_vibe.Core.Conflict.{conflict_kept}
use raft_vibe.Core.Accepting.{Accepted}
use raft_vibe.Core.Replication.{Fits, handle_append_entries_accepts}
use raft_vibe.Core.Answering.{PrevMatches, SameLog, handle_append_entries_sound}
use raft_vibe.Storage.Memory.{truncated, compacted}
use raft_vibe.Core.Compaction.{truncated-compacted_by_index, compacted_again}
use raft_vibe.Types.{LogEntry, InstallSnapshotArgs, success}
use raft_vibe.Core.Install.{handle_install_snapshot}
use raft_vibe.Core.Installing.{Installed, handle_install_snapshot_accepts}
use raft_vibe.Core.Hints.{RunOfTerm, find_first_index_for_term_lem}
use raft_vibe.Core.Leader.{append_log_entry}
use raft_vibe.Core.Appending.{Appended, append_log_entry_lem}
use raft_vibe.Core.Samples.{
  counter, entry, two_entries, node, leading, compact_node, append_request,
}

node-LogOk : LogOk node
node-LogOk = omega arith

leading-LogOk : LogOk leading
leading-LogOk = omega arith

node-Fits : Fits node append_request
unfolding get_log_entry
node-Fits = record {
  no_snapshot = refl;
  log_ok = node-LogOk;
  contiguous = omega arith;
  room = omega arith;
  within = omega arith;
  prev = inr (entry 3 1, refl, refl);
  agree = λ i x y h p q. absurd (omega arith);
}

handle_append_entries_accepts_example :
    (o : HandleAppendEntriesOutput) × (c' : RaftCore MemoryStorage ℕ) × (handle_append_entries node
        append_request 7
      ≡ some (o, c'))
    × (o.result.success ≡ true)
    × (o.leader_id ≡ some 2)
    × Accepted node 2 (entry 3 1 ∷ entry 5 2 ∷ entry 5 3 ∷ []) c'
handle_append_entries_accepts_example =
    handle_append_entries_accepts node append_request 7 node-Fits (omega arith)

-- A message whose previous entry has another term is refused.
abbrev mismatch : AppendEntriesArgs
mismatch = record append_request { prev_log_term = 4 }

handle_append_entries_sound_example :
    ((false ≡ true) × (4 ≤ 5) × PrevMatches node mismatch)
    ⊎ ((false ≡ false)
        × SameLog node (record node {
          storage = record { term = 5; voted_for = none; log = two_entries; snapshot = none };
          current_term = 5;
          state = follower;
          current_leader = some 2;
          last_heartbeat = 7;
        }))
unfolding handle_append_entries answer_leader check_prev check_entry find_first_index_for_term
    step_down_if_newer update_term set_term set_voted_for last_log_index get_log_entry
handle_append_entries_sound_example = handle_append_entries_sound node mismatch 7 refl

apply_entries-merged_example :
    (s : MemoryStorage) × (apply_entries node (entry 5 2 ∷ entry 5 3 ∷ [])
      ≡ some (with_log node s (entry 3 1 ∷ entry 5 2 ∷ entry 5 3 ∷ [])))
apply_entries-merged_example =
    apply_entries-merged node (entry 5 2 ∷ entry 5 3 ∷ []) 1 refl (omega arith) (omega arith)
      (omega arith)

abbrev committed : RaftCore MemoryStorage ℕ
committed = record node { commit_index = 2 }

apply_committed_entries_lem_example :
    (rs : List (ℕ × ApplyResult)) × (c' : RaftCore MemoryStorage ℕ) × (apply_committed_entries
        committed
      ≡ some (rs, c'))
    × Applied committed rs c'
apply_committed_entries_lem_example = apply_committed_entries_lem committed (omega arith)

take_snapshot-Compacts_example : Compacts node (take_snapshot node).1
take_snapshot-Compacts_example = take_snapshot-Compacts node node-LogOk

conflict_kept_example :
    get_log_entry
      (record compact_node {
        storage = record compact_node.storage { log = entry 4 2 ∷ entry 5 2 ∷ [] };
        log = entry 4 2 ∷ entry 5 2 ∷ [];
      })
      2
    ≡ some (entry 4 2)
unfolding apply_entry replace_from persist_truncate_log persist_log_entry get_log_entry
conflict_kept_example =
    conflict_kept compact_node (entry 5 2) (entry 4 2) (omega arith) (omega arith) refl
      (omega arith) refl

truncated-compacted_by_index_example :
    (truncated two_entries 2 ≡ retain (λ e. ltb e.index 2) two_entries)
    × (compacted two_entries 2 ≡ (if 2 == 0 then [] else retain (λ e. leb 2 e.index) two_entries))
truncated-compacted_by_index_example = truncated-compacted_by_index two_entries 2 (refl, (refl, tt))

-- Of the entries 3 and 4 behind a snapshot up to 2, a compaction up to 3 leaves nothing.
compacted_again_example :
    length (compacted (entry 4 3 ∷ entry 4 4 ∷ []) 4)
    < length (retain (λ e. leb 4 e.index) (entry 4 3 ∷ entry 4 4 ∷ []))
compacted_again_example =
    compacted_again 2 1 (entry 4 3 ∷ entry 4 4 ∷ []) (refl, (refl, tt)) (omega arith) (omega arith)

abbrev snapshot_message : InstallSnapshotArgs
snapshot_message = record {
  term = 5;
  leader_id = 2;
  last_included_index = 2;
  last_included_term = 4;
  data_bytes = 2 ∷ [];
}

handle_install_snapshot_accepts_example :
    (c : RaftCore MemoryStorage ℕ) × (handle_install_snapshot node snapshot_message 9
      ≡ some (success 5, c))
    × Installed node snapshot_message 2 c
handle_install_snapshot_accepts_example =
    handle_install_snapshot_accepts node snapshot_message 9 2 node-LogOk (omega arith) (omega arith)
      (omega arith) refl

find_first_index_for_term_lem_example : RunOfTerm node 4 3 (find_first_index_for_term node 4 3)
find_first_index_for_term_lem_example =
    find_first_index_for_term_lem node 4 3 (omega arith) (omega arith)

append_log_entry_lem_example :
    (e : LogEntry) × (c : RaftCore MemoryStorage ℕ) × (append_log_entry leading "SET b 2"
      ≡ some (some e, c))
    × Appended leading "SET b 2" e c
append_log_entry_lem_example =
    append_log_entry_lem leading "SET b 2" leading-LogOk refl (omega arith)
