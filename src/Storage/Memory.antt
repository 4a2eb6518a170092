-- ===== src/Storage/Memory.antt =====
-- `MemoryStorage` of src/storage/memory.rs.
use raft_vibe.Prelude.{
  ℕ, ◌-◌, Option, none, some, List, [], ◌++◌, ok, length, take, drop, ltb, ◌==◌, if◌then◌else◌,
}
use raft_vibe.Types.{LogEntry, Snapshot}
use raft_vibe.Storage.{Storage}

pub record MemoryStorage : Type 0 where
  pub term : ℕ
  pub voted_for : Option ℕ
  pub log : List LogEntry
  pub snapshot : Option Snapshot

abbrev pub empty : MemoryStorage
empty = record { term = 0; voted_for = none; log = []; snapshot = none }

-- Each method of the trait is `Ok`; the new log of those that change it:
unfoldable pub truncated : List LogEntry → ℕ → List LogEntry
truncated log from_index =
    if ltb 0 from_index
    then if ltb (from_index - 1) (length log) then take (from_index - 1) log else log
    else []

unfoldable pub compacted : List LogEntry → ℕ → List LogEntry
compacted log before_index =
    if ltb 1 before_index
    then if ltb (before_index - 1) (length log) then drop (before_index - 1) log else []
    else if before_index == 1
    then log
    else []

instance abbrev pub memory_storage : Storage MemoryStorage
memory_storage = record {
  load_term = λ s. ok s.term;
  save_term = λ s term. (ok tt, record s { term = term });
  load_voted_for = λ s. ok s.voted_for;
  save_voted_for = λ s vote. (ok tt, record s { voted_for = vote });
  load_log = λ s. ok s.log;
  append_log_entries = λ s entries. (ok tt, record s { log = s.log ++ entries });
  truncate_log = λ s from_index. (ok tt, record s { log = truncated s.log from_index });
  compact_log = λ s before_index. (ok tt, record s { log = compacted s.log before_index });
  load_snapshot = λ s. ok s.snapshot;
  save_snapshot = λ s snapshot. (ok tt, record s { snapshot = some snapshot });
}
