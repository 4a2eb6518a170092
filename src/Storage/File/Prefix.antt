-- ===== src/Storage/File/Prefix.antt =====
-- A file of src/storage/file.rs that ends within what was to be written.
use raft_vibe.Prelude.{
  ℕ, zero, suc, ◌^◌, ◌≡◌, ◌≢◌, ◌⊎◌, inl, inr, refl, ap, ◌∙◌, String, Bool-cases, Option, none, some,
  [], ◌∷◌, ◌++◌, Result, ok, err, All, take, arith, ◌==◌,
}
use raft_vibe.Types.{StorageError, corruption}
use raft_vibe.Storage.Text.{
  Text, blank, newline, as_bytes, crc32, hex8, from_str_radix, trim, trim_start, trim_end,
}
use raft_vibe.Storage.TextLaws.{Solid, hex-Solid}
use raft_vibe.Storage.TrimLaws.{
  Starts, Starts-append, Ends, trim-same, trim-space, Solid-Starts, Solid-Ends, Ends-append,
  rsplit-none, rsplit-some,
}
use raft_vibe.Storage.Checked.{
  Problem, missing_checksum, bad_checksum, mismatch, checked_line, verify, read_trimmed,
  read_with_checksum,
}
use raft_vibe.Storage.File.Read.{read_trimmed-Starts, read-checked_line}

take-append :
    (k : ℕ) (xs ys : Text)
    → (take k (xs ++ ys) ≡ take k xs) ⊎ ((j : ℕ) × (take k (xs ++ ys) ≡ xs ++ take (suc j) ys))
take-append zero xs ys = inl refl
take-append (suc k) [] ys = inr (k, refl)
take-append (suc k) (x ∷ xs) ys = elim (take-append k xs ys) [
  | inl e ↦ inl (ap (λ l. x ∷ l) e)
  | inr (j, e) ↦ inr (j, ap (λ l. x ∷ l) e)
]

All-take : (P : ℕ → Type 0) (k : ℕ) (t : Text) → All P t → All P (take k t)
All-take P zero t all = tt
All-take P (suc k) [] all = tt
All-take P (suc k) (c ∷ t) (p, all) = (p, All-take P k t all)

take_none : (k : ℕ) → take {A = ℕ} k [] ≡ []
take_none zero = refl
take_none (suc k) = refl

module _ (message : Problem → String) where
  -- The file reads as absent or as corrupt, or the line is read.
  abbrev pub Detected : Text → Result StorageError (Option Text) → Type 0
  Detected line r =
      (r ≡ ok none) ⊎ ((p : Problem) × (r ≡ err (corruption (message p)))) ⊎ (r ≡ ok (some line))

  read-Solid : (line t : Text) → All Solid t → Detected line (read_with_checksum message (some t))
  unfolding read_with_checksum trim trim_start trim_end read_trimmed
  read-Solid line [] all = inl refl
  read-Solid line (c ∷ t) all =
      let starts = Solid-Starts (c ∷ t) all (λ e. ground (arith, e)) in
      let ends = Solid-Ends (c ∷ t) all (λ e. ground (arith, e)) in
      inr (
        inl (
          missing_checksum,
          rw
              (
                read_with_checksum,
                trim-same (c ∷ t) starts ends,
                read_trimmed-Starts message (c ∷ t) starts,
                rsplit-none (c ∷ t) all,
              )
              refl,
        ))

  verify-Detected :
      (line : Text) (n : Option ℕ)
      → Detected line (elim (verify message n line bad_checksum mismatch) [
        | err e ↦ err e
        | ok l ↦ ok (some l)
      ])
  verify-Detected line none = inr (inl (bad_checksum, refl))
  verify-Detected line (some stored) = elim (Bool-cases (stored == crc32 (as_bytes line))) [
    | inl t ↦ inr (inr (rw t refl))
    | inr f ↦ inr (inl (mismatch stored (crc32 (as_bytes line)), rw f refl))
  ]

  -- A line, a blank, and some of its checksum.
  read-part :
      (line q : Text)
      → All Solid line
      → line ≢ []
      → All Solid q
      → Detected line (read_with_checksum message (some (line ++ blank ∷ q)))
  unfolding read_with_checksum
  read-part line [] all some_line solid =
      let starts = Solid-Starts line all some_line in
      let ends = Solid-Ends line all some_line in
      rw (trim-space line blank refl starts ends)
        (rw (trim-same line starts ends) at (read-Solid line line all))
  read-part line (c ∷ q) all some_line solid =
      let t = line ++ blank ∷ c ∷ q in
      let starts : Starts t =
        Starts-append line (blank ∷ c ∷ q) (Solid-Starts line all some_line) in
      let ends : Ends t =
        Ends-append line blank (c ∷ q) (Solid-Ends (c ∷ q) solid (λ e. ground (arith, e))) in
      rw
        (
          trim-same t starts ends,
          read_trimmed-Starts message t starts,
          rsplit-some line (c ∷ q) solid,
        )
        (verify-Detected line (from_str_radix 16 (2 ^ 32) (c ∷ q)))

  -- However much of the line and its checksum is there, it is not read as another line.
  pub torn-Detected :
      (k : ℕ) (line : Text)
      → All Solid line
      → line ≢ []
      → Detected line (read_with_checksum message (some (take k (checked_line line))))
  unfolding checked_line
  torn-Detected k line all some_line =
      let q = hex8 (crc32 (as_bytes line)) in
      elim (take-append k (line ++ blank ∷ q) (newline ∷ [])) [
        | inr (j, e) ↦
            let full = e ∙ ap (λ l. (line ++ blank ∷ q) ++ newline ∷ l) (take_none j) in
            inr (inr (rw full (read-checked_line message line (Solid-Starts line all some_line))))
        | inl e ↦ rw e (elim (take-append k line (blank ∷ q)) [
          | inl e' ↦ rw e' (read-Solid line (take k line) (All-take Solid k line all))
          | inr (j, e') ↦ rw e' (
              read-part line (take j q) all some_line
                (All-take Solid j q (hex-Solid 8 (crc32 (as_bytes line)))))
        ])
      ]
