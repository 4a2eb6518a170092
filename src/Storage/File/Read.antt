-- ===== src/Storage/File/Read.antt =====
-- What `read_with_checksum` of src/storage/file.rs makes of a file, and the term and the vote that are
-- loaded after a save.
use raft_vibe.Prelude.{
  ℕ, ◌^◌, ◌/◌, ◌%◌, ◌<◌, ◌≡◌, ◌≢◌, refl, String, false, Option, none, some, List, [], ◌∷◌, ◌++◌, ok,
  err, All, arith,
}
use raft_vibe.Storage.Text.{
  Text, blank, newline, as_bytes, crc32, digit_char, digits, hex8, to_string, rsplit_blank,
}
use raft_vibe.Storage.TextLaws.{
  hex-Solid, read-hex8, read-to_string, to_string-Solid, to_string-ne-nil, to_string-below,
  snoc-ne-nil,
}
use raft_vibe.Storage.TrimLaws.{
  Starts, Ends, trim-space, Solid-Starts, Solid-Ends, Ends-append, rsplit-some,
}
use raft_vibe.Storage.Checked.{
  Problem, missing_checksum, bad_checksum, mismatch, checked_line, split_checksum, read_trimmed,
  read_with_checksum, parse_u64, Fault, none_, at_open, at_write, at_sync, write_with_checksum,
}
use raft_vibe.Storage.File.{
  FileStorage, next_fault, same_text, none_text, vote_text, term_of, voted_for_of, load_term,
  save_term, load_voted_for, save_voted_for,
}

crc32-bound : (b : List ℕ) → crc32 b < 2 ^ 32
unfolding crc32
crc32-bound b = omega arith

-- The line that is written, with the newline at its end.
abbrev pub with_checksum : Text → Text
with_checksum line = line ++ blank ∷ hex8 (crc32 (as_bytes line))

checked_line-newline : (line : Text) → checked_line line ≡ with_checksum line ++ newline ∷ []
unfolding checked_line
checked_line-newline line = refl

pub hex8-ne-nil : (n : ℕ) → hex8 n ≢ []
unfolding digits
hex8-ne-nil n = snoc-ne-nil (digits 16 7 (n / 16)) (digit_char (n % 16))

pub Starts-with_checksum : (line : Text) → Starts line → Starts (with_checksum line)
Starts-with_checksum [] h = absurd h
Starts-with_checksum (c ∷ line) h = h

pub Ends-with_checksum : (line : Text) → Ends (with_checksum line)
Ends-with_checksum line = Ends-append line blank (hex8 (crc32 (as_bytes line))) (
    blank_before (hex8 (crc32 (as_bytes line)))
      (Solid-Ends _ (hex-Solid 8 (crc32 (as_bytes line))) (hex8-ne-nil (crc32 (as_bytes line)))))
  where
    blank_before : (t : Text) → Ends t → Ends (blank ∷ t)
    blank_before [] h = absurd h
    blank_before (c ∷ t) h = h

module _ (message : Problem → String) where
  -- A line with its checksum passes the test.
  pub split-with_checksum :
      (line : Text) (missing bad : Problem) (differs : ℕ → ℕ → Problem)
      → split_checksum message (rsplit_blank (with_checksum line)) missing bad differs ≡ ok line
  split-with_checksum line missing bad differs =
      let n : ℕ = crc32 (as_bytes line) in
      rw (rsplit-some line (hex8 n) (hex-Solid 8 n), read-hex8 n (crc32-bound (as_bytes line)))
        (ground arith)

  pub read_trimmed-Starts :
      (t : Text)
      → Starts t
      → read_trimmed message t
        ≡ (elim (split_checksum message (rsplit_blank t) missing_checksum bad_checksum mismatch) [
          | err e ↦ err e
          | ok line ↦ ok (some line)
        ])
  unfolding read_trimmed
  read_trimmed-Starts [] h = absurd h
  read_trimmed-Starts (c ∷ t) h = refl

  -- What is written with its checksum is read back.
  pub read-checked_line :
      (line : Text)
      → Starts line
      → read_with_checksum message (some (checked_line line)) ≡ ok (some line)
  unfolding read_with_checksum
  read-checked_line line h =
      let w = with_checksum line in
      rw
        (
          checked_line-newline line,
          trim-space w newline refl (Starts-with_checksum line h) (Ends-with_checksum line),
          read_trimmed-Starts w (Starts-with_checksum line h),
          split-with_checksum line missing_checksum bad_checksum mismatch,
        )
        refl

-- A successful write leaves the line with its checksum.
pub write-ok :
    (fault : Fault) (line : Text) (file : Option Text)
    → (write_with_checksum fault line file).0 ≡ ok tt
    → (write_with_checksum fault line file).1 ≡ some (checked_line line)
unfolding write_with_checksum
write-ok none_ line file h = refl
write-ok (at_open e) line file h = absurd (ground (arith, h))
write-ok (at_write n e) line file h = absurd (ground (arith, h))
write-ok (at_sync e) line file h = absurd (ground (arith, h))

pub to_string-Starts : (n : ℕ) → n < 2 ^ 64 → Starts (to_string n)
to_string-Starts n h = Solid-Starts (to_string n) (to_string-Solid n) (to_string-ne-nil n h)

digits_differ : (t : Text) → All (λ c. c < 58) t → same_text t none_text ≡ false
digits_differ [] all = refl
digits_differ (c ∷ t) (p, all) = ground (arith, p)

pub same-vote_text : (id : ℕ) → same_text (to_string id) none_text ≡ false
same-vote_text id = digits_differ (to_string id) (to_string-below id)

-- The vote is no `u64` out of range.
abbrev pub FitsVote : Option ℕ → Type 0
FitsVote none = Unit
FitsVote (some id) = id < 2 ^ 64

pub vote_text-Starts : (vote : Option ℕ) → FitsVote vote → Starts (vote_text vote)
vote_text-Starts none h = refl
vote_text-Starts (some id) h = to_string-Starts id h

module _ (message : Problem → String) where
  pub term_of-to_string :
      (term : ℕ) → term < 2 ^ 64 → term_of message (ok (some (to_string term))) ≡ ok term
  term_of-to_string term h = rw (term_of, parse_u64, read-to_string term h) refl

  pub voted_for_of-vote_text :
      (vote : Option ℕ)
      → FitsVote vote
      → voted_for_of message (ok (some (vote_text vote))) ≡ ok vote
  voted_for_of-vote_text none h = refl
  voted_for_of-vote_text (some id) h = rw (same-vote_text id, read-to_string id h) refl

  -- After a save of a `u64` term that is `Ok`, that term is loaded, and the other three files are as
  -- they were.
  pub load-save_term :
      (s : FileStorage) (term : ℕ)
      → term < 2 ^ 64
      → (save_term s term).0 ≡ ok tt
      → (load_term message (save_term s term).1 ≡ ok term)
        × ((save_term s term).1.voted_for ≡ s.voted_for)
        × ((save_term s term).1.log ≡ s.log)
        × ((save_term s term).1.snapshot ≡ s.snapshot)
  unfolding load_term save_term
  load-save_term s term fits h =
      let e = write-ok (next_fault s.faults) (to_string term) s.term h in
      (
        rw (e, read-checked_line message (to_string term) (to_string-Starts term fits))
            (term_of-to_string term fits),
        refl,
        refl,
        refl,
      )

  -- After a save of a vote, of a `u64` or of none, that is `Ok`, that vote is loaded, and the other three
  -- files are as they were.
  pub load-save_voted_for :
      (s : FileStorage) (vote : Option ℕ)
      → FitsVote vote
      → (save_voted_for s vote).0 ≡ ok tt
      → (load_voted_for message (save_voted_for s vote).1 ≡ ok vote)
        × ((save_voted_for s vote).1.term ≡ s.term)
        × ((save_voted_for s vote).1.log ≡ s.log)
        × ((save_voted_for s vote).1.snapshot ≡ s.snapshot)
  unfolding load_voted_for save_voted_for
  load-save_voted_for s vote fits h =
      let e = write-ok (next_fault s.faults) (vote_text vote) s.voted_for h in
      (
        rw (e, read-checked_line message (vote_text vote) (vote_text-Starts vote fits))
            (voted_for_of-vote_text vote fits),
        refl,
        refl,
        refl,
      )
