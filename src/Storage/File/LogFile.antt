-- ===== src/Storage/File/LogFile.antt =====
-- The log of `FileStorage` in src/storage/file.rs: a line for each entry.
use raft_vibe.Prelude.{
  ℕ, ◌+◌, ◌≡◌, ◌≢◌, inl, inr, refl, ap, ◌∙◌, String, Bool-cases, false, List, [], ◌∷◌, ◌++◌, Result,
  Result-cases, ok, All, arith, ◌==◌,
}
use mathlib.Core.List.{append_assoc}
use raft_vibe.Types.{LogEntry}
use raft_vibe.Storage.Text.{Text, blank, newline, as_bytes, crc32, hex8, lines}
use raft_vibe.Storage.TextLaws.{Solid, hex-Solid}
use raft_vibe.Storage.TrimLaws.{Starts, Ends, trim-same}
use raft_vibe.Storage.Checked.{
  Problem, missing_checksum_at, bad_checksum_at, mismatch_at, checked_line,
}
use raft_vibe.Storage.File.{entry_of, read_entry, cons_entry, read_entries, log_text}
use raft_vibe.Storage.File.Read.{
  with_checksum, hex8-ne-nil, Starts-with_checksum, Ends-with_checksum, split-with_checksum,
}

-- A line without a newline whose last character is no carriage return.
abbrev Clean : Text → Type 0
Clean [] = ⊥
Clean (c ∷ []) = (c ≢ newline) × (c ≢ 13)
Clean (c ∷ d ∷ t) = (c ≢ newline) × Clean (d ∷ t)

head-Clean : (c : ℕ) (t : Text) → Clean (c ∷ t) → c ≢ newline
head-Clean c [] h = h.0
head-Clean c (d ∷ t) h = h.0

lines-Clean : (t rest : Text) → Clean t → lines (t ++ newline ∷ rest) ≡ t ∷ lines rest
unfolding lines
lines-Clean [] rest h = absurd h
lines-Clean (c ∷ []) rest (no_newline, no_return) = ground (arith, no_newline, no_return)
lines-Clean (c ∷ d ∷ t) rest (no_newline, clean) =
    let next : (d == newline) ≡ false = ground (arith, head-Clean d t clean) in
    let here : (c == newline) ≡ false = ground (arith, no_newline) in
    let again = lines-Clean (d ∷ t) rest clean in
    elim (Bool-cases (c == 13)) [
      | inl r ↦ rw (lines, again, here, r, next) refl
      | inr r ↦ rw (lines, again, here, r) refl
    ]

Solid-Clean : (t : Text) → All Solid t → t ≢ [] → Clean t
Solid-Clean [] all h = absurd (h refl)
Solid-Clean (c ∷ []) ((lo, hi), all) h = (λ e. omega (arith, lo, e), λ e. omega (arith, lo, e))
Solid-Clean (c ∷ d ∷ t) ((lo, hi), all) h =
    (λ e. omega (arith, lo, e), Solid-Clean (d ∷ t) all (λ e. ground (arith, e)))

Clean-append : (t u : Text) → All (λ c. c ≢ newline) t → Clean u → Clean (t ++ u)
Clean-append [] u all h = h
Clean-append (c ∷ []) [] (p, all) h = absurd h
Clean-append (c ∷ []) (d ∷ u) (p, all) h = (p, h)
Clean-append (c ∷ d ∷ t) u (p, all) h = (p, Clean-append (d ∷ t) u all h)

Clean-with_checksum : (line : Text) → All (λ c. c ≢ newline) line → Clean (with_checksum line)
Clean-with_checksum line all =
    let q = hex8 (crc32 (as_bytes line)) in
    Clean-append line (blank ∷ q) all (
      Clean-append (blank ∷ []) q ((λ e. omega (arith, e)), tt)
        (Solid-Clean q (hex-Solid 8 (crc32 (as_bytes line))) (hex8-ne-nil (crc32 (as_bytes line)))))

lines-checked_line :
    (line rest : Text)
    → All (λ c. c ≢ newline) line
    → lines (checked_line line ++ rest) ≡ with_checksum line ∷ lines rest
unfolding checked_line
lines-checked_line line rest all =
    ap lines (append_assoc (with_checksum line) (newline ∷ []) rest)
    ∙ lines-Clean (with_checksum line) rest (Clean-with_checksum line all)

module _ (message : Problem → String) (to_json : LogEntry → Result String Text)
    (from_json : Text → Result String LogEntry) where
  -- The entry has a JSON text that is read back as it, of one line, and not blank.
  pub record Printable (entry : LogEntry) : Type 0 where
    pub json : Text
    pub prints : to_json entry ≡ ok json
    pub reads : from_json json ≡ ok entry
    pub starts : Starts json
    pub one_line : All (λ c. c ≢ newline) json

  read_entry-line :
      (n : ℕ) (entry : LogEntry) (p : Printable entry)
      → read_entry message to_json from_json n (with_checksum p.json) ≡ ok entry
  unfolding read_entry
  read_entry-line n entry p =
      rw
        (split-with_checksum message p.json (missing_checksum_at n) (bad_checksum_at n)
          (mismatch_at n))
        (rw (entry_of, p.reads) refl)

  read_entries-nonblank :
      (n : ℕ) (line : Text) (rest : List Text)
      → Starts line
      → Ends line
      → read_entries message to_json from_json n (line ∷ rest)
        ≡ cons_entry message to_json from_json
            (read_entry message to_json from_json n line)
            (read_entries message to_json from_json (n + 1) rest)
  unfolding read_entries
  read_entries-nonblank n [] rest starts ends = absurd starts
  read_entries-nonblank n (c ∷ line) rest starts ends =
      rw (read_entries, trim-same (c ∷ line) starts ends) refl

  read_entries-line :
      (n : ℕ) (entry : LogEntry) (rest : List Text) (p : Printable entry)
      → read_entries message to_json from_json n (with_checksum p.json ∷ rest)
        ≡ cons_entry message to_json from_json
            (ok entry)
            (read_entries message to_json from_json (n + 1) rest)
  read_entries-line n entry rest p =
      read_entries-nonblank n (with_checksum p.json) rest (Starts-with_checksum p.json p.starts)
        (Ends-with_checksum p.json)
      ∙ ap
          (λ r.
            cons_entry message to_json from_json r
              (read_entries message to_json from_json (n + 1) rest))
          (read_entry-line n entry p)

  pub log_text-ok :
      (entries : List LogEntry)
      → All Printable entries
      → (content : Text) × (log_text message to_json from_json entries ≡ ok content)
  unfolding log_text
  log_text-ok [] all = ([], refl)
  log_text-ok (entry ∷ entries) (p, all) =
      let (rest, e) = log_text-ok entries all in
      (checked_line p.json ++ rest, rw (log_text, p.prints, e) refl)

  -- The text of a log of one more entry.
  pub log_text-cons :
      (entry : LogEntry) (entries : List LogEntry) (p : Printable entry) (content : Text)
      → log_text message to_json from_json (entry ∷ entries) ≡ ok content
      → (rest : Text) × (log_text message to_json from_json entries ≡ ok rest)
        × (content ≡ checked_line p.json ++ rest)
  unfolding log_text
  log_text-cons entry entries p content h =
      elim (Result-cases (log_text message to_json from_json entries)) [
        | inl (e, fails) ↦ absurd (ground (arith, rw (log_text, p.prints, fails) at h))
        | inr (rest, e) ↦ (rest, e, ground (arith, rw (log_text, p.prints, e) at h))
      ]

  -- The lines of a log are read as its entries, whatever the number of the first.
  pub read_entries-log_text :
      (n : ℕ) (entries : List LogEntry) (content : Text)
      → All Printable entries
      → log_text message to_json from_json entries ≡ ok content
      → read_entries message to_json from_json n (lines content) ≡ ok entries
  unfolding log_text read_entries lines
  read_entries-log_text n [] content all h = let e : content ≡ [] = ground (arith, h) in rw e refl
  read_entries-log_text n (entry ∷ entries) content (p, all) h =
      let (rest, h', e) = log_text-cons entry entries p content h in
      rw
        (
          e,
          lines-checked_line p.json rest p.one_line,
          read_entries-line n entry (lines rest) p,
          read_entries-log_text (n + 1) entries rest all h',
        )
        refl

  pub log_text-append :
      (xs ys : List LogEntry) (a b : Text)
      → All Printable xs
      → log_text message to_json from_json xs ≡ ok a
      → log_text message to_json from_json ys ≡ ok b
      → log_text message to_json from_json (xs ++ ys) ≡ ok (a ++ b)
  unfolding log_text
  log_text-append [] ys a b all h k = let e : a ≡ [] = ground (arith, h) in rw e k
  log_text-append (x ∷ xs) ys a b (p, all) h k =
      let (rest, h', e) = log_text-cons x xs p a h in
      rw
        (
          e,
          p.prints,
          log_text-append xs ys rest b all h' k,
          append_assoc (checked_line p.json) rest b,
        )
        refl
