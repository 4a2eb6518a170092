-- ===== src/Storage/File/LogLaws.antt =====
-- The operations on the log of `FileStorage` in src/storage/file.rs, by the entries that the file
-- holds.
use raft_vibe.Prelude.{
  ℕ, ◌-◌, ◌≡◌, ◌⊎◌, inl, inr, refl, sym, ap, ◌∙◌, String, Bool, Bool-cases, Option, none, some,
  List, [], ◌∷◌, ◌++◌, Result, ok, err, All, length, retain, arith, ltb, leb, All-retain,
}
use mathlib.Core.List.{append-nil, append_assoc}
use raft_vibe.Types.{LogEntry, StorageError, io}
use raft_vibe.Storage.Text.{Text}
use raft_vibe.Storage.Checked.{
  Problem, Fault, none_, at_open, at_write, at_sync, checked_line, atomic_write,
}
use raft_vibe.Storage.File.{
  FileStorage, next_fault, read_log, load_log, append_line, append_lines, appended,
  append_log_entries, log_text, rewrite_log, truncate_log, compact_log, unwrap_content,
}
use raft_vibe.Storage.File.LogFile.{
  Printable, log_text-ok, log_text-cons, read_entries-log_text, log_text-append,
}

module _ (message : Problem → String) (to_json : LogEntry → Result String Text)
    (from_json : Text → Result String LogEntry) where
  -- The file is the text of the entries, or there is none and no entry.
  pub data Holds : Option Text → List LogEntry → Type 0 where
    absent : Holds none []
    stored :
        (content : Text) (entries : List LogEntry)
        → log_text message to_json from_json entries ≡ ok content
        → Holds (some content) entries

  read-Holds :
      {file : Option Text} {entries : List LogEntry}
      → All (Printable message to_json from_json) entries
      → Holds file entries
      → read_log message to_json from_json file ≡ ok entries
  unfolding read_log
  read-Holds all absent = refl
  read-Holds all (stored content entries h) =
      read_entries-log_text message to_json from_json 1 entries content all h

  unwrap-Holds :
      {file : Option Text} {entries : List LogEntry}
      → Holds file entries
      → log_text message to_json from_json entries
        ≡ ok (unwrap_content message to_json from_json file)
  unfolding log_text
  unwrap-Holds absent = refl
  unwrap-Holds (stored content entries h) = h

  append_line-cases :
      (fault : Fault) (line before : Text)
      → ((e : StorageError) × ((append_line message to_json from_json fault line before).0 ≡ err e))
        ⊎ ((left : Fault) × ((append_line message to_json from_json fault line before).0 ≡ ok tt)
            × ((append_line message to_json from_json fault line before).1 ≡ left)
            × ((append_line message to_json from_json fault line before).2 ≡ before ++ line))
  append_line-cases none_ line before = inr (none_, refl, refl, refl)
  append_line-cases (at_open e) line before = inr (at_open e, refl, refl, refl)
  append_line-cases (at_sync e) line before = inr (at_sync e, refl, refl, refl)
  append_line-cases (at_write n e) line before = elim (Bool-cases (ltb n (length line))) [
    | inl t ↦ inl (io e, rw t refl)
    | inr f ↦ inr (at_write (n - length line) e, rw f refl, rw f refl, rw f refl)
  ]

  -- Where the loop of `append_log_entries` is `Ok`, it has written every line.
  append_lines-ok :
      (fault : Fault) (entries : List LogEntry) (before text : Text)
      → All (Printable message to_json from_json) entries
      → log_text message to_json from_json entries ≡ ok text
      → (append_lines message to_json from_json fault entries before).0 ≡ ok tt
      → (append_lines message to_json from_json fault entries before).1 ≡ before ++ text
  unfolding append_lines log_text
  append_lines-ok fault [] before text all h k =
      let e : text ≡ [] = ground (arith, h) in rw e (sym (append-nil before))
  append_lines-ok fault (entry ∷ entries) before text (p, all) h k =
      let (rest, h', e) = log_text-cons message to_json from_json entry entries p text h in
      elim (append_line-cases fault (checked_line p.json) before) [
        | inl (problem, fails) ↦ absurd (ground (arith, rw (append_lines, p.prints, fails) at k))
        | inr (left, c, l, t) ↦
            rw (append_lines, p.prints, c, l, t, e)
              (append_lines-ok left entries (before ++ checked_line p.json) rest all h'
                  (rw (append_lines, p.prints, c, l, t) at k)
                ∙ append_assoc before (checked_line p.json) rest)
      ]

  appended-ok :
      (fault : Fault) (entries : List LogEntry) (file : Option Text) (text : Text)
      → All (Printable message to_json from_json) entries
      → log_text message to_json from_json entries ≡ ok text
      → (appended message to_json from_json fault entries file).0 ≡ ok tt
      → (appended message to_json from_json fault entries file).1
        ≡ some (unwrap_content message to_json from_json file ++ text)
  appended-ok (at_open e) entries file text all h k = absurd (ground (arith, k))
  appended-ok none_ entries file text all h k =
      ap some
        (append_lines-ok none_ entries (unwrap_content message to_json from_json file) text all h k)
  appended-ok (at_sync e) entries file text all h k = ap some (
      append_lines-ok (at_sync e) entries (unwrap_content message to_json from_json file) text all h
        k)
  appended-ok (at_write n e) entries file text all h k = ap some (
      append_lines-ok (at_write n e) entries (unwrap_content message to_json from_json file) text
        all h k)

  -- Where the log file holds entries, and they and the new ones have JSON texts of one line that are
  -- read back, an append that is `Ok` leaves a file from which the new entries are loaded after the
  -- old ones.
  pub load-append_log_entries :
      (s : FileStorage) (old new : List LogEntry)
      → All (Printable message to_json from_json) (old ++ new)
      → Holds s.log old
      → (append_log_entries message to_json from_json s new).0 ≡ ok tt
      → Holds (append_log_entries message to_json from_json s new).1.log (old ++ new)
        × (load_log message to_json from_json (append_log_entries message to_json from_json s new).1
            ≡ ok (old ++ new))
  unfolding append_log_entries load_log
  load-append_log_entries s old new all holds h =
      let (both, together) = All-append old new all in
      let (text, e) = log_text-ok message to_json from_json new together in
      let before = unwrap_content message to_json from_json s.log in
      let file = appended-ok (next_fault s.faults) new s.log text together e h in
      let after : Holds (some (before ++ text)) (old ++ new) =
        stored (before ++ text) (old ++ new) (
          log_text-append message to_json from_json old new before text both (unwrap-Holds holds)
            e) in
      (rw file after, rw file (read-Holds all after))
    where
      All-append :
          (xs ys : List LogEntry)
          → All (Printable message to_json from_json) (xs ++ ys)
          → All (Printable message to_json from_json) xs
            × All (Printable message to_json from_json) ys
      All-append [] ys all = (tt, all)
      All-append (x ∷ xs) ys (p, all) = let (a, b) = All-append xs ys all in ((p, a), b)

  -- A log that is rewritten with the entries to keep, or an error and the log as it was.
  abbrev pub Rewritten :
      Option Text → List LogEntry → Result StorageError (Unit {0}) × FileStorage → Type 0
  Rewritten file kept (result, s) =
      ((result ≡ ok tt) × Holds s.log kept)
      ⊎ ((e : StorageError) × (result ≡ err e) × (s.log ≡ file))

  atomic_write-cases :
      (fault : Fault) (content : Text) (file : Option Text)
      → (((atomic_write fault content file).0 ≡ ok tt)
          × ((atomic_write fault content file).1 ≡ some content))
        ⊎ ((e : StorageError) × ((atomic_write fault content file).0 ≡ err e)
            × ((atomic_write fault content file).1 ≡ file))
  unfolding atomic_write
  atomic_write-cases none_ content file = inl (refl, refl)
  atomic_write-cases (at_open e) content file = inr (io e, refl, refl)
  atomic_write-cases (at_write _ e) content file = inr (io e, refl, refl)
  atomic_write-cases (at_sync e) content file = inr (io e, refl, refl)

  rewrite_log-Rewritten :
      (s : FileStorage) (keep : LogEntry → Bool) (entries : List LogEntry)
      → All (Printable message to_json from_json) entries
      → Holds s.log entries
      → Rewritten s.log (retain keep entries) (rewrite_log message to_json from_json s keep)
  unfolding rewrite_log load_log
  rewrite_log-Rewritten s keep entries all holds =
      let loads = read-Holds all holds in
      let (text, e) =
        log_text-ok message to_json from_json (retain keep entries)
          (All-retain _ keep entries all) in
      elim (atomic_write-cases (next_fault s.faults) text s.log) [
        | inl (result, file) ↦ inl (
          rw (rewrite_log, load_log, loads, e, result) refl,
          rw (rewrite_log, load_log, loads, e, file) (stored text (retain keep entries) e),
        )
        | inr (problem, result, file) ↦ inr (
          problem,
          rw (rewrite_log, load_log, loads, e, result) refl,
          rw (rewrite_log, load_log, loads, e, file) refl,
        )
      ]

  -- Where the log file holds entries that have JSON texts of one line that are read back,
  -- `truncate_log` leaves exactly those before the index, `compact_log` exactly those from the index
  -- on, and where either fails, at any place, it is an error and the file is as it was.
  pub rewrites_by_index :
      (s : FileStorage) (entries : List LogEntry) (index : ℕ)
      → All (Printable message to_json from_json) entries
      → Holds s.log entries
      → Rewritten s.log
          (retain (λ e. ltb e.index index) entries)
          (truncate_log message to_json from_json s index)
        × Rewritten s.log
            (retain (λ e. leb index e.index) entries)
            (compact_log message to_json from_json s index)
  unfolding truncate_log compact_log
  rewrites_by_index s entries index all holds = (
    rewrite_log-Rewritten s (λ e. ltb e.index index) entries all holds,
    rewrite_log-Rewritten s (λ e. leb index e.index) entries all holds,
  )
