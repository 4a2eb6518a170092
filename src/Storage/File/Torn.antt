-- ===== src/Storage/File/Torn.antt =====
-- Saves of src/storage/file.rs that are cut short, by a failure or by a crash.
use raft_vibe.Prelude.{
  ℕ, ◌^◌, ◌<◌, ◌≡◌, ◌≢◌, ◌⊎◌, inl, inr, refl, String, Option, none, some, List, [], ◌∷◌, Result, ok,
  err, All, take, arith,
}
use raft_vibe.Types.{StorageError, corruption}
use raft_vibe.Storage.Text.{Text, to_string, trim, trim_start, trim_end}
use raft_vibe.Storage.TextLaws.{Solid, to_string-Solid, to_string-ne-nil}
use raft_vibe.Storage.TrimLaws.{Solid-Starts}
use raft_vibe.Storage.Checked.{
  Problem, Fault, none_, at_open, at_write, at_sync, checked_line, write_with_checksum,
  read_trimmed, read_with_checksum,
}
use raft_vibe.Storage.File.{
  FileStorage, next_fault, vote_text, term_of, voted_for_of, load_term, save_term, load_voted_for,
  save_voted_for,
}
use raft_vibe.Storage.File.Read.{
  read-checked_line, FitsVote, vote_text-Starts, term_of-to_string, voted_for_of-vote_text,
}
use raft_vibe.Storage.File.Prefix.{Detected, torn-Detected}

module _ (message : Problem → String) where
  -- What a load may give after a save: what it gave before, what it gives without a file, a corruption,
  -- or what was saved.
  abbrev pub Outcome : {A : Type 0} → Result StorageError A → A → A → Result StorageError A → Type 0
  Outcome before absent saved r =
      (r ≡ before)
      ⊎ (r ≡ ok absent)
      ⊎ ((p : Problem) × (r ≡ err (corruption (message p))))
      ⊎ (r ≡ ok saved)

  term_of-Detected :
      (before : Result StorageError ℕ) (term : ℕ) (r : Result StorageError (Option Text))
      → term < 2 ^ 64
      → Detected message (to_string term) r
      → Outcome before 0 term (term_of message r)
  term_of-Detected before term r fits (inl e) = inr (inl (rw e refl))
  term_of-Detected before term r fits (inr (inl (p, e))) = inr (inr (inl (p, rw e refl)))
  term_of-Detected before term r fits (inr (inr e)) =
      inr (inr (inr (rw e (term_of-to_string message term fits))))

  voted_for_of-Detected :
      (before : Result StorageError (Option ℕ)) (vote : Option ℕ)
      (r : Result StorageError (Option Text))
      → FitsVote vote
      → Detected message (vote_text vote) r
      → Outcome before none vote (voted_for_of message r)
  voted_for_of-Detected before vote r fits (inl e) = inr (inl (rw e refl))
  voted_for_of-Detected before vote r fits (inr (inl (p, e))) = inr (inr (inl (p, rw e refl)))
  voted_for_of-Detected before vote r fits (inr (inr e)) =
      inr (inr (inr (rw e (voted_for_of-vote_text message vote fits))))

  -- The content of a file after a write of any outcome.
  write_outcome :
      (fault : Fault) (line : Text) (file : Option Text)
      → ((write_with_checksum fault line file).1 ≡ file)
        ⊎ ((k : ℕ) × ((write_with_checksum fault line file).1 ≡ some (take k (checked_line line))))
        ⊎ ((write_with_checksum fault line file).1 ≡ some (checked_line line))
  unfolding write_with_checksum
  write_outcome none_ line file = inr (inr refl)
  write_outcome (at_open e) line file = inl refl
  write_outcome (at_write k e) line file = inr (inl (k, refl))
  write_outcome (at_sync e) line file = inr (inr refl)

  -- Whether the save of a `u64` term succeeds or fails at any place, the next load gives the term that
  -- it gave before, or 0, or a corruption, or the saved term: a torn save is never read as another
  -- term.
  pub save_term_outcome :
      (s : FileStorage) (term : ℕ)
      → term < 2 ^ 64
      → Outcome (load_term message s) 0 term (load_term message (save_term s term).1)
  unfolding load_term save_term
  save_term_outcome s term fits =
      let line = to_string term in
      elim (write_outcome (next_fault s.faults) line s.term) [
        | inl e ↦ inl (rw e refl)
        | inr (inl (k, e)) ↦ rw e (
            term_of-Detected (load_term message s) term
              (read_with_checksum message (some (take k (checked_line line)))) fits
              (torn-Detected message k line (to_string-Solid term) (to_string-ne-nil term fits)))
        | inr (inr e) ↦ inr (
            inr (
              inr (
                rw
                  (
                    e,
                    read-checked_line message line
                        (Solid-Starts line (to_string-Solid term) (to_string-ne-nil term fits)),
                  )
                  (term_of-to_string message term fits))))
      ]

  vote_text-Solid : (vote : Option ℕ) → All Solid (vote_text vote)
  vote_text-Solid none = (
    (omega arith, omega arith),
    ((omega arith, omega arith), ((omega arith, omega arith), ((omega arith, omega arith), tt))),
  )
  vote_text-Solid (some id) = to_string-Solid id

  vote_text-ne-nil : (vote : Option ℕ) → FitsVote vote → vote_text vote ≢ []
  vote_text-ne-nil none fits e = ground (arith, e)
  vote_text-ne-nil (some id) fits e = to_string-ne-nil id fits e

  -- Whether the save of a vote, of a `u64` or of none, succeeds or fails at any place, the next load
  -- gives the vote that it gave before, or none, or a corruption, or the saved vote.
  pub save_voted_for_outcome :
      (s : FileStorage) (vote : Option ℕ)
      → FitsVote vote
      → Outcome
          (load_voted_for message s)
          none
          vote
          (load_voted_for message (save_voted_for s vote).1)
  unfolding load_voted_for save_voted_for
  save_voted_for_outcome s vote fits =
      let line = vote_text vote in
      elim (write_outcome (next_fault s.faults) line s.voted_for) [
        | inl e ↦ inl (rw e refl)
        | inr (inl (k, e)) ↦ rw e (
            voted_for_of-Detected (load_voted_for message s) vote
              (read_with_checksum message (some (take k (checked_line line)))) fits
              (torn-Detected message k line (vote_text-Solid vote) (vote_text-ne-nil vote fits)))
        | inr (inr e) ↦ inr (
            inr (
              inr (
                rw (e, read-checked_line message line (vote_text-Starts vote fits))
                  (voted_for_of-vote_text message vote fits))))
      ]

  -- Where the write of a save stops before its first character, the next load gives the term 0 after a
  -- save of a term, and no vote after a save of a vote, whatever was there before.
  pub emptied :
      (s : FileStorage) (term : ℕ) (vote : Option ℕ) (e : String) (later : List Fault)
      → s.faults ≡ at_write 0 e ∷ later
      → (load_term message (save_term s term).1 ≡ ok 0)
        × (load_voted_for message (save_voted_for s vote).1 ≡ ok none)
  unfolding load_term save_term load_voted_for save_voted_for write_with_checksum read_with_checksum
      trim trim_start trim_end read_trimmed
  emptied s term vote e later h = (rw h refl, rw h refl)
