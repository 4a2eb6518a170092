-- ===== src/Storage/File.antt =====
-- `FileStorage` of src/storage/file.rs: four files in a directory.
pub mod Read
pub mod Prefix
pub mod Torn
pub mod LogFile
pub mod LogLaws
pub mod SnapshotFile
mod Tests
use raft_vibe.Prelude.{
  ℕ, ◌+◌, ◌-◌, ◌^◌, String, Bool, true, false, Option, none, some, List, [], ◌∷◌, ◌++◌, Result, ok,
  err, length, take, leb, ltb, retain, ◌==◌, ◌&&◌, if◌then◌else◌,
}
use raft_vibe.Types.{LogEntry, Snapshot, StorageError, io, corruption}
use raft_vibe.Storage.{Storage}
use raft_vibe.Storage.Text.{Text, to_string, trim, rsplit_blank, lines}
use raft_vibe.Storage.Checked.{
  Problem, missing_checksum_at, bad_checksum_at, mismatch_at, invalid_term, invalid_voted_for,
  invalid_entry, invalid_snapshot, not_serialized, snapshot_not_serialized, Fault, none_, at_open,
  at_write, at_sync, checked_line, write_with_checksum, atomic_write, split_checksum,
  read_with_checksum, parse_u64,
}

-- The four files: `none` where there is none. `faults` are the faults of the writes to come, one for
-- each call that writes; after them no write fails.
pub record FileStorage : Type 0 where
  pub term : Option Text
  pub voted_for : Option Text
  pub log : Option Text
  pub snapshot : Option Text
  pub faults : List Fault

abbrev pub next_fault : List Fault → Fault
next_fault [] = none_
next_fault (f ∷ fs) = f

abbrev pub later_faults : List Fault → List Fault
later_faults [] = []
later_faults (f ∷ fs) = fs

-- `==` on `str`
abbrev pub same_text : Text → Text → Bool
same_text [] [] = true
same_text [] (d ∷ u) = false
same_text (c ∷ t) [] = false
same_text (c ∷ t) (d ∷ u) = c == d && same_text t u

unfoldable pub save_term : FileStorage → ℕ → Result StorageError (Unit {0}) × FileStorage
save_term s term =
    let (result, file) = write_with_checksum (next_fault s.faults) (to_string term) s.term in
    (result, record s { term = file; faults = later_faults s.faults })

-- `"none"`
abbrev pub none_text : Text
none_text = 110 ∷ 111 ∷ 110 ∷ 101 ∷ []

abbrev pub vote_text : Option ℕ → Text
vote_text none = none_text
vote_text (some id) = to_string id

unfoldable pub save_voted_for :
    FileStorage → Option ℕ → Result StorageError (Unit {0}) × FileStorage
save_voted_for s vote =
    let (result, file) = write_with_checksum (next_fault s.faults) (vote_text vote) s.voted_for in
    (result, record s { voted_for = file; faults = later_faults s.faults })

-- `message` is the text of a problem.
module _ (message : Problem → String) where
  abbrev pub term_of : Result StorageError (Option Text) → Result StorageError ℕ
  term_of (err e) = err e
  term_of (ok none) = ok 0
  term_of (ok (some t)) = parse_u64 message t invalid_term

  unfoldable pub load_term : FileStorage → Result StorageError ℕ
  load_term s = term_of (read_with_checksum message s.term)

  abbrev pub voted_for_of : Result StorageError (Option Text) → Result StorageError (Option ℕ)
  voted_for_of (err e) = err e
  voted_for_of (ok none) = ok none
  voted_for_of (ok (some t)) =
      if same_text t none_text
      then ok none
      else elim (parse_u64 message t invalid_voted_for) [ err e ↦ err e | ok id ↦ ok (some id) ]

  unfoldable pub load_voted_for : FileStorage → Result StorageError (Option ℕ)
  load_voted_for s = voted_for_of (read_with_checksum message s.voted_for)

-- `to_json` and `from_json` are `serde_json::to_string` and `from_str` for an entry of the log.
module _ (message : Problem → String) (to_json : LogEntry → Result String Text)
    (from_json : Text → Result String LogEntry) where
  abbrev pub entry_of : ℕ → Result StorageError Text → Result StorageError LogEntry
  entry_of line (err e) = err e
  entry_of line (ok json) = elim (from_json json) [
    | err e ↦ err (corruption (message (invalid_entry line e)))
    | ok entry ↦ ok entry
  ]

  -- One line of the log, with its number.
  unfoldable pub read_entry : ℕ → Text → Result StorageError LogEntry
  read_entry n line = entry_of n (
      split_checksum message (rsplit_blank line) (missing_checksum_at n) (bad_checksum_at n)
        (mismatch_at n))

  abbrev pub cons_entry :
      Result StorageError LogEntry
      → Result StorageError (List LogEntry)
      → Result StorageError (List LogEntry)
  cons_entry (err e) rest = err e
  cons_entry (ok entry) (err e) = err e
  cons_entry (ok entry) (ok entries) = ok (entry ∷ entries)

  -- The lines from a number on; those that are blank are passed over.
  unfoldable pub read_entries : ℕ → List Text → Result StorageError (List LogEntry)
  read_entries n [] = ok []
  read_entries n (line ∷ rest) =
      let entries = read_entries (n + 1) rest in
      elim (trim line) [ [] ↦ entries | c ∷ t ↦ cons_entry (read_entry n line) entries ]

  unfoldable pub read_log : Option Text → Result StorageError (List LogEntry)
  read_log none = ok []
  read_log (some content) = read_entries 1 (lines content)

  unfoldable pub load_log : FileStorage → Result StorageError (List LogEntry)
  load_log s = read_log s.log

  -- `writeln!` of an entry after the content, by what is left of the fault.
  abbrev pub append_line : Fault → Text → Text → Result StorageError (Unit {0}) × Fault × Text
  append_line (at_write n e) line content =
      if ltb n (length line)
      then (err (io e), none_, content ++ take n line)
      else (ok tt, at_write (n - length line) e, content ++ line)
  append_line fault line content = (ok tt, fault, content ++ line)

  -- The result of `sync_all` once the entries are written.
  abbrev pub synced : Fault → Result StorageError (Unit {0})
  synced (at_sync e) = err (io e)
  synced _ = ok tt

  -- The loop of `append_log_entries` on an open file.
  unfoldable pub append_lines : Fault → List LogEntry → Text → Result StorageError (Unit {0}) × Text
  append_lines fault [] content = (synced fault, content)
  append_lines fault (entry ∷ entries) content = elim (to_json entry) [
    | err e ↦ (err (io (message (not_serialized e))), content)
    | ok json ↦
        let (result, left, content') = append_line fault (checked_line json) content in
        let rest = append_lines left entries content' in
        elim result [ err e ↦ (err e, content') | ok _ ↦ rest ]
  ]

  abbrev pub unwrap_content : Option Text → Text
  unwrap_content none = []
  unwrap_content (some content) = content

  abbrev pub appended :
      Fault → List LogEntry → Option Text → Result StorageError (Unit {0}) × Option Text
  appended (at_open e) entries file = (err (io e), file)
  appended fault entries file =
      let (result, content) = append_lines fault entries (unwrap_content file) in
      (result, some content)

  unfoldable pub append_log_entries :
      FileStorage → List LogEntry → Result StorageError (Unit {0}) × FileStorage
  append_log_entries s entries =
      let (result, file) = appended (next_fault s.faults) entries s.log in
      (result, record s { log = file; faults = later_faults s.faults })

  -- The content of the log file for the entries.
  unfoldable pub log_text : List LogEntry → Result StorageError Text
  log_text [] = ok []
  log_text (entry ∷ entries) = elim (to_json entry) [
    | err e ↦ err (io (message (not_serialized e)))
    | ok json ↦ elim (log_text entries) [ err e ↦ err e | ok rest ↦ ok (checked_line json ++ rest) ]
  ]

  -- `truncate_log` and `compact_log` are the same but for the entries that they keep.
  unfoldable pub rewrite_log :
      FileStorage → (LogEntry → Bool) → Result StorageError (Unit {0}) × FileStorage
  rewrite_log s keep = elim (load_log s) [
    | err e ↦ (err e, s)
    | ok entries ↦ elim (log_text (retain keep entries)) [
      | err e ↦ (err e, s)
      | ok content ↦
          let (result, file) = atomic_write (next_fault s.faults) content s.log in
          (result, record s { log = file; faults = later_faults s.faults })
    ]
  ]

  unfoldable pub truncate_log : FileStorage → ℕ → Result StorageError (Unit {0}) × FileStorage
  truncate_log s from_index = rewrite_log s (λ e. ltb e.index from_index)

  unfoldable pub compact_log : FileStorage → ℕ → Result StorageError (Unit {0}) × FileStorage
  compact_log s before_index = rewrite_log s (λ e. leb before_index e.index)

-- The same for a snapshot.
module _ (message : Problem → String) (to_json : Snapshot → Result String Text)
    (from_json : Text → Result String Snapshot) where
  abbrev pub snapshot_from :
      Result StorageError (Option Text) → Result StorageError (Option Snapshot)
  snapshot_from (err e) = err e
  snapshot_from (ok none) = ok none
  snapshot_from (ok (some json)) = elim (from_json json) [
    | err e ↦ err (corruption (message (invalid_snapshot e)))
    | ok snapshot ↦ ok (some snapshot)
  ]

  unfoldable pub load_snapshot : FileStorage → Result StorageError (Option Snapshot)
  load_snapshot s = snapshot_from (read_with_checksum message s.snapshot)

  unfoldable pub save_snapshot :
      FileStorage → Snapshot → Result StorageError (Unit {0}) × FileStorage
  save_snapshot s snapshot = elim (to_json snapshot) [
    | err e ↦ (err (io (message (snapshot_not_serialized e))), s)
    | ok json ↦
        let (result, file) = write_with_checksum (next_fault s.faults) json s.snapshot in
        (result, record s { snapshot = file; faults = later_faults s.faults })
  ]

-- The implementation of the trait.
abbrev pub file_storage :
    (Problem → String)
    → (LogEntry → Result String Text)
    → (Text → Result String LogEntry)
    → (Snapshot → Result String Text)
    → (Text → Result String Snapshot)
    → Storage FileStorage
file_storage message to_json from_json snapshot_to_json snapshot_from_json = record {
  load_term = load_term message;
  save_term = save_term;
  load_voted_for = load_voted_for message;
  save_voted_for = save_voted_for;
  load_log = load_log message to_json from_json;
  append_log_entries = append_log_entries message to_json from_json;
  truncate_log = truncate_log message to_json from_json;
  compact_log = compact_log message to_json from_json;
  load_snapshot = load_snapshot message snapshot_to_json snapshot_from_json;
  save_snapshot = save_snapshot message snapshot_to_json snapshot_from_json;
}
