-- ===== src/Storage/File/Tests.antt =====
-- Runs of `FileStorage` of src/storage/file.rs.
use raft_vibe.Prelude.{
  ◌≡◌, refl, String, none, some, [], ◌∷◌, ◌++◌, Result, ok, err, retain, ltb, leb, arith, ◌==◌,
  if◌then◌else◌,
}
use raft_vibe.Types.{LogEntry, Snapshot, corruption}
use raft_vibe.Storage.Text.{
  Text, digits, width_from, to_string, trim_start, trim_end, trim, rsplit_blank,
}
use raft_vibe.Storage.Checked.{
  Problem, Fault, at_write, at_sync, checked_line, write_with_checksum, read_trimmed,
  read_with_checksum,
}
use raft_vibe.Storage.File.{
  FileStorage, same_text, load_term, save_term, load_voted_for, save_voted_for, load_log,
  append_lines, append_log_entries, log_text, truncate_log, compact_log, load_snapshot,
  save_snapshot,
}
use raft_vibe.Storage.File.Read.{load-save_term, load-save_voted_for}
use raft_vibe.Storage.File.Torn.{Outcome, save_term_outcome, save_voted_for_outcome, emptied}
use raft_vibe.Storage.File.LogFile.{Printable}
use raft_vibe.Storage.File.LogLaws.{
  Holds, stored, load-append_log_entries, Rewritten, rewrites_by_index,
}
use raft_vibe.Storage.File.SnapshotFile.{load-save_snapshot}

abbrev no_text : Problem → String
no_text p = "corrupt"

abbrev first : LogEntry
first = record { term = 1; index = 1; command = "SET x 1" }

abbrev second : LogEntry
second = record { term = 2; index = 2; command = "NOOP" }

-- A JSON for the two entries: `{1}` and `{2}`.
abbrev first_json : Text
first_json = 123 ∷ 49 ∷ 125 ∷ []

abbrev second_json : Text
second_json = 123 ∷ 50 ∷ 125 ∷ []

abbrev print : LogEntry → Result String Text
print e = if e.index == 1 then ok first_json else ok second_json

abbrev read : Text → Result String LogEntry
read t =
    if same_text t first_json
    then ok first
    else if same_text t second_json
    then ok second
    else err "no entry"

abbrev fresh : FileStorage
fresh = record { term = none; voted_for = none; log = none; snapshot = none; faults = [] }

abbrev interrupted : Fault → FileStorage
interrupted f = record {
  term = some (checked_line (53 ∷ []));
  voted_for = none;
  log = none;
  snapshot = none;
  faults = f ∷ [];
}

-- Term 12, written without its checksum.
torn_term :
    load_term no_text (save_term (interrupted (at_write 2 "disk full")) 12).1
    ≡ err (corruption "corrupt")
unfolding load_term save_term write_with_checksum checked_line read_with_checksum trim trim_start
    trim_end read_trimmed rsplit_blank to_string digits width_from
torn_term = refl

load-save_term_example :
    (load_term no_text (save_term fresh 12).1 ≡ ok 12)
    × ((save_term fresh 12).1.voted_for ≡ none)
    × ((save_term fresh 12).1.log ≡ none)
    × ((save_term fresh 12).1.snapshot ≡ none)
unfolding save_term write_with_checksum
load-save_term_example = load-save_term no_text fresh 12 (omega arith) refl

load-save_voted_for_example :
    (load_voted_for no_text (save_voted_for fresh (some 3)).1 ≡ ok (some 3))
    × ((save_voted_for fresh (some 3)).1.term ≡ none)
    × ((save_voted_for fresh (some 3)).1.log ≡ none)
    × ((save_voted_for fresh (some 3)).1.snapshot ≡ none)
unfolding save_voted_for write_with_checksum
load-save_voted_for_example = load-save_voted_for no_text fresh (some 3) (omega arith) refl

save_term_outcome_example :
    Outcome no_text
      (load_term no_text (interrupted (at_write 4 "disk full")))
      0
      12
      (load_term no_text (save_term (interrupted (at_write 4 "disk full")) 12).1)
save_term_outcome_example =
    save_term_outcome no_text (interrupted (at_write 4 "disk full")) 12 (omega arith)

save_voted_for_outcome_example :
    Outcome no_text
      (load_voted_for no_text (interrupted (at_sync "disk full")))
      none
      (some 3)
      (load_voted_for no_text (save_voted_for (interrupted (at_sync "disk full")) (some 3)).1)
save_voted_for_outcome_example =
    save_voted_for_outcome no_text (interrupted (at_sync "disk full")) (some 3) (omega arith)

emptied_example :
    (load_term no_text (save_term (interrupted (at_write 0 "crash")) 6).1 ≡ ok 0)
    × (load_voted_for no_text (save_voted_for (interrupted (at_write 0 "crash")) (some 1)).1
        ≡ ok none)
emptied_example = emptied no_text (interrupted (at_write 0 "crash")) 6 (some 1) "crash" [] refl

first-Printable : Printable no_text print read first
first-Printable = record {
  json = first_json;
  prints = refl;
  reads = refl;
  starts = refl;
  one_line = ((λ e. omega (arith, e)), ((λ e. omega (arith, e)), ((λ e. omega (arith, e)), tt)));
}

second-Printable : Printable no_text print read second
second-Printable = record {
  json = second_json;
  prints = refl;
  reads = refl;
  starts = refl;
  one_line = ((λ e. omega (arith, e)), ((λ e. omega (arith, e)), ((λ e. omega (arith, e)), tt)));
}

abbrev one_entry : FileStorage
one_entry = record {
  term = none;
  voted_for = none;
  log = some (checked_line first_json ++ []);
  snapshot = none;
  faults = [];
}

one_entry-Holds : Holds no_text print read one_entry.log (first ∷ [])
unfolding log_text checked_line
one_entry-Holds = stored _ _ refl

load-append_log_entries_example :
    Holds no_text print read
      (append_log_entries no_text print read one_entry (second ∷ [])).1.log
      (first ∷ second ∷ [])
    × (load_log no_text print read (append_log_entries no_text print read one_entry (second ∷ [])).1
        ≡ ok (first ∷ second ∷ []))
unfolding append_log_entries append_lines
load-append_log_entries_example =
    load-append_log_entries no_text print read one_entry (first ∷ []) (second ∷ [])
      (first-Printable, (second-Printable, tt)) one_entry-Holds refl

rewrites_by_index_example :
    Rewritten no_text print read one_entry.log
      (retain (λ e. ltb e.index 1) (first ∷ []))
      (truncate_log no_text print read one_entry 1)
    × Rewritten no_text print read one_entry.log
        (retain (λ e. leb 1 e.index) (first ∷ []))
        (compact_log no_text print read one_entry 1)
rewrites_by_index_example =
    rewrites_by_index no_text print read one_entry (first ∷ []) 1 (first-Printable, tt)
      one_entry-Holds

abbrev snapshot : Snapshot
snapshot = record {
  metadata = record { last_included_index = 4; last_included_term = 2 };
  data_bytes = [];
}

load-save_snapshot_example :
    (load_snapshot no_text
        (λ _. ok first_json)
        (λ _. ok snapshot)
        (save_snapshot no_text (λ _. ok first_json) (λ _. ok snapshot) fresh snapshot).1
      ≡ ok (some snapshot))
    × ((save_snapshot no_text (λ _. ok first_json) (λ _. ok snapshot) fresh snapshot).1.term ≡ none)
    × ((save_snapshot no_text (λ _. ok first_json) (λ _. ok snapshot) fresh snapshot).1.voted_for
        ≡ none)
    × ((save_snapshot no_text (λ _. ok first_json) (λ _. ok snapshot) fresh snapshot).1.log ≡ none)
unfolding save_snapshot write_with_checksum
load-save_snapshot_example =
    load-save_snapshot no_text (λ _. ok first_json) (λ _. ok snapshot) fresh snapshot first_json
      refl refl refl refl
