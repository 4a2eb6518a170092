-- ===== src/Storage/Checked.antt =====
-- A file with a checksum after its datum, as src/storage/file.rs writes and reads it.
use raft_vibe.Prelude.{
  ℕ, ◌^◌, String, Option, none, some, [], ◌∷◌, ◌++◌, Result, ok, err, take, ◌==◌, if◌then◌else◌,
}
use raft_vibe.Types.{StorageError, io, corruption}
use raft_vibe.Storage.Text.{
  Text, blank, newline, as_bytes, crc32, hex8, from_str_radix, trim, rsplit_blank,
}

-- The formats of the messages, with their arguments; the path of a file is left to the text.
pub data Problem : Type 0 where
  missing_checksum bad_checksum : Problem
  mismatch : (stored computed : ℕ) → Problem
  invalid_term invalid_voted_for : Problem
  missing_checksum_at bad_checksum_at : (line : ℕ) → Problem
  mismatch_at : (line stored computed : ℕ) → Problem
  invalid_entry : (line : ℕ) → String → Problem
  invalid_snapshot not_serialized snapshot_not_serialized : String → Problem

-- What an operation of the file system does that writes: it succeeds, or it fails before it changes
-- the file, after it has written some characters, or once the content is there.
pub data Fault : Type 0 where
  none_ : Fault
  at_open at_sync : String → Fault
  at_write : (written : ℕ) → String → Fault

-- `File::create` empties the file before the content is written.
abbrev pub written : Fault → Text → Option Text → Result StorageError (Unit {0}) × Option Text
written none_ content file = (ok tt, some content)
written (at_open message) content file = (err (io message), file)
written (at_write n message) content file = (err (io message), some (take n content))
written (at_sync message) content file = (err (io message), some content)

-- `"{} {:08x}\n"`
unfoldable pub checked_line : Text → Text
checked_line line = line ++ blank ∷ hex8 (crc32 (as_bytes line)) ++ newline ∷ []

unfoldable pub write_with_checksum :
    Fault → Text → Option Text → Result StorageError (Unit {0}) × Option Text
write_with_checksum fault line file = written fault (checked_line line) file

-- The parts of `atomic_write` replace the file at once or not at all. The temporary file, which
-- nothing reads, is left out.
unfoldable pub atomic_write :
    Fault → Text → Option Text → Result StorageError (Unit {0}) × Option Text
atomic_write none_ content file = (ok tt, some content)
atomic_write (at_open message) content file = (err (io message), file)
atomic_write (at_write _ message) content file = (err (io message), file)
atomic_write (at_sync message) content file = (err (io message), file)

-- `message` is the text of a problem.
module _ (message : Problem → String) where
  -- The checksum that is stored after a datum, and the datum.
  abbrev pub verify : Option ℕ → Text → Problem → (ℕ → ℕ → Problem) → Result StorageError Text
  verify none line bad differs = err (corruption (message bad))
  verify (some stored) line bad differs =
      let computed : ℕ = crc32 (as_bytes line) in
      if stored == computed then ok line else err (corruption (message (differs stored computed)))

  abbrev pub split_checksum :
      Option (Text × Text) → Problem → Problem → (ℕ → ℕ → Problem) → Result StorageError Text
  split_checksum none missing bad differs = err (corruption (message missing))
  split_checksum (some (line, checksum)) missing bad differs =
      verify (from_str_radix 16 (2 ^ 32) checksum) line bad differs

  -- The part of `read_with_checksum` after `trim`.
  unfoldable pub read_trimmed : Text → Result StorageError (Option Text)
  read_trimmed [] = ok none
  read_trimmed (c ∷ t) =
      elim (split_checksum (rsplit_blank (c ∷ t)) missing_checksum bad_checksum mismatch) [
        | err e ↦ err e
        | ok line ↦ ok (some line)
      ]

  unfoldable pub read_with_checksum : Option Text → Result StorageError (Option Text)
  read_with_checksum none = ok none
  read_with_checksum (some content) = read_trimmed (trim content)

  -- `data.parse()` as a `u64`, with the message of its failure.
  abbrev pub parse_u64 : Text → Problem → Result StorageError ℕ
  parse_u64 t invalid = elim (from_str_radix 10 (2 ^ 64) t) [
    | none ↦ err (corruption (message invalid))
    | some n ↦ ok n
  ]
