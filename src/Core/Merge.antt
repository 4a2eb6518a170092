-- ===== src/Core/Merge.antt =====
-- `apply_entries` against the rule of the Raft paper: keep what agrees, and at the first conflict
-- replace the rest.
use raft_vibe.Prelude.{
  ℕ, zero, suc, ◌+◌, ◌-◌, ◌≤◌, ◌<◌, ◌≡◌, ◌≢◌, refl, ap, some, List, [], ◌∷◌, ◌++◌, length,
  get_elem?, take, drop, ◌==◌, if◌then◌else◌, sub_u64, u64_mod, length-append, length-take,
  get_elem?_below, get_elem?_beyond, dec_lt, ℕ_discrete, arith,
}
use mathlib.Core.List.{append-nil, append_assoc}
use raft_vibe.Types.{LogEntry}
use raft_vibe.Storage.{Storage}
use raft_vibe.Storage.Reliable.{Reliable}
use raft_vibe.Core.State.{RaftCore}
use raft_vibe.Core.Persist.{persist_log_entry, persist_truncate_log}
use raft_vibe.Core.Append.{replace_from, apply_entry, apply_entries}
use raft_vibe.Core.Log.{Contiguous}

-- The entries of a log from some position on, and the new entries from the same position on.
abbrev pub merge : List LogEntry → List LogEntry → List LogEntry
merge log [] = log
merge [] (e ∷ es) = e ∷ es
merge (x ∷ xs) (e ∷ es) = let rest = merge xs es in if x.term == e.term then x ∷ rest else e ∷ es

-- The log that results from new entries behind position `p`.
abbrev pub merged : ℕ → List LogEntry → List LogEntry → List LogEntry
merged p log es = take p log ++ merge (drop p log) es

take_all {ℓ} : {A : Type ℓ} (xs : List A) → take (length xs) xs ≡ xs
take_all [] = refl
take_all (x ∷ xs) = ap (λ ys. x ∷ ys) (take_all xs)

drop_all {ℓ} : {A : Type ℓ} (xs : List A) → drop (length xs) xs ≡ []
drop_all [] = refl
drop_all (x ∷ xs) = drop_all xs

take-append-drop {ℓ} : {A : Type ℓ} (n : ℕ) (xs : List A) → take n xs ++ drop n xs ≡ xs
take-append-drop zero xs = refl
take-append-drop (suc n) [] = refl
take-append-drop (suc n) (x ∷ xs) = ap (λ ys. x ∷ ys) (take-append-drop n xs)

merge-nil_left : (es : List LogEntry) → merge [] es ≡ es
merge-nil_left [] = refl
merge-nil_left (e ∷ es) = refl

-- The end of a log: everything is appended.
merged_end : (log es : List LogEntry) → merged (length log) log es ≡ log ++ es
merged_end log es = rw (take_all log, drop_all log, merge-nil_left es) refl

-- One entry that agrees.
merged_same :
    (p : ℕ) (log : List LogEntry) (e : LogEntry) (es : List LogEntry) {x : LogEntry}
    → get_elem? log p ≡ some x
    → x.term ≡ e.term
    → merged (suc p) log es ≡ merged p log (e ∷ es)
merged_same p [] e es at same = ground arith
merged_same zero (x ∷ log) e es at same = ground arith
merged_same (suc p) (x ∷ log) e es at same = ap (λ ys. x ∷ ys) (merged_same p log e es at same)

merged_conflict :
    (p : ℕ) (log : List LogEntry) (e : LogEntry) (es : List LogEntry) {x : LogEntry}
    → get_elem? log p ≡ some x
    → x.term ≢ e.term
    → (take p log ++ e ∷ []) ++ es ≡ merged p log (e ∷ es)
merged_conflict p [] e es at differs = ground arith
merged_conflict zero (x ∷ log) e es at differs = ground arith
merged_conflict (suc p) (x ∷ log) e es at differs =
    ap (λ ys. x ∷ ys) (merged_conflict p log e es at differs)

module _ {S M : Type 0} ⦃st : Storage S⦄ ⦃safe : Reliable S⦄ where
  -- What `apply_entries` may change.
  abbrev pub with_log : RaftCore S M → S → List LogEntry → RaftCore S M
  with_log c s log = record c { storage = s; log = log }

  persist_log_entry_lem :
      (c : RaftCore S M) (e : LogEntry)
      → (s : S) × (persist_log_entry c e ≡ some (with_log c s (c.log ++ e ∷ [])))
  unfolding persist_log_entry
  persist_log_entry_lem c e = (
    (st.append_log_entries c.storage (e ∷ [])).1,
    ground (arith, safe.append_ok c.storage (e ∷ [])),
  )

  -- A conflict at position `p`, with no snapshot: the log is cut there.
  replace_from_lem :
      (c : RaftCore S M) (e : LogEntry) (p : ℕ)
      → e.index ≡ suc p
      → p < length c.log
      → e.index < u64_mod
      → (s : S) × (replace_from c e ≡ some (with_log c s (take p c.log ++ e ∷ [])))
  unfolding replace_from persist_truncate_log
  replace_from_lem c e p index below fits =
      let pos : sub_u64 e.index 1 ≡ p = omega arith in
      let s₁ : S = (st.truncate_log c.storage e.index).1 in
      let (s₂, q) = persist_log_entry_lem (with_log c s₁ (take p c.log)) e in
      (s₂, rw pos (ground (arith, q, safe.truncate_ok c.storage e.index)))

  apply_entry_end :
      (c : RaftCore S M) (e : LogEntry)
      → c.snapshot_last_index ≡ 0
      → e.index ≡ suc (length c.log)
      → (s : S) × (apply_entry c e ≡ some (with_log c s (c.log ++ e ∷ [])))
  unfolding apply_entry
  apply_entry_end c e boundary index =
      let (s, q) = persist_log_entry_lem c e in
      let pos : e.index - c.snapshot_last_index - 1 ≡ length c.log = omega arith in
      (s, rw (pos, get_elem?_beyond c.log (length c.log) (omega arith)) (ground (arith, q)))

  apply_entry_conflict :
      (c : RaftCore S M) (e : LogEntry) (p : ℕ) {x : LogEntry}
      → c.snapshot_last_index ≡ 0
      → e.index ≡ suc p
      → p < length c.log
      → e.index < u64_mod
      → get_elem? c.log p ≡ some x
      → x.term ≢ e.term
      → (s : S) × (apply_entry c e ≡ some (with_log c s (take p c.log ++ e ∷ [])))
  unfolding apply_entry
  apply_entry_conflict c e p {x} boundary index below fits at differs =
      let (s, q) = replace_from_lem c e p index below fits in
      let pos : e.index - c.snapshot_last_index - 1 ≡ p = omega arith in
      (s, rw (pos, at) (ground (arith, q)))

  apply_entry_same :
      (c : RaftCore S M) (e : LogEntry) (p : ℕ) {x : LogEntry}
      → c.snapshot_last_index ≡ 0
      → e.index ≡ suc p
      → get_elem? c.log p ≡ some x
      → x.term ≡ e.term
      → apply_entry c e ≡ some c
  unfolding apply_entry
  apply_entry_same c e p {x} boundary index at same =
      let pos : e.index - c.snapshot_last_index - 1 ≡ p = omega arith in rw (pos, at) (ground arith)

  -- Where the log ends: the rest of the message is appended.
  apply_entries_end :
      (c : RaftCore S M) (es : List LogEntry)
      → c.snapshot_last_index ≡ 0
      → Contiguous (length c.log) es
      → (s : S) × (apply_entries c es ≡ some (with_log c s (c.log ++ es)))
  unfolding apply_entries
  apply_entries_end c [] boundary h = (c.storage, rw append-nil refl)
  apply_entries_end c (e ∷ es) boundary h =
      let (s, q) = apply_entry_end c e boundary h.0 in
      let len : suc (length c.log) ≡ length (c.log ++ e ∷ []) =
        omega (arith, length-append c.log (e ∷ [])) in
      let (s', r) =
        apply_entries_end (with_log c s (c.log ++ e ∷ [])) es boundary (rw len at h.1) in
      (s', rw (q, r, append_assoc c.log (e ∷ []) es) refl)

  -- Without a snapshot, and over a storage that does not fail, a message whose entries follow
  -- position `p` of the log is applied as the paper says: the entries up to `p` stay, then those
  -- that agree in their terms, and from the first conflict on the log is that of the message.
  pub apply_entries-merged :
      (c : RaftCore S M) (es : List LogEntry) (p : ℕ)
      → c.snapshot_last_index ≡ 0
      → p ≤ length c.log
      → Contiguous p es
      → p + length es < u64_mod
      → (s : S) × (apply_entries c es ≡ some (with_log c s (merged p c.log es)))
  unfolding apply_entries
  apply_entries-merged c [] p boundary within h fits =
      (c.storage, rw (take-append-drop p c.log) refl)
  apply_entries-merged c (e ∷ es) p boundary within h fits = elim (dec_lt p (length c.log)) [
    | no end ↦
        let len : p ≡ length c.log = omega arith in
        let (s, q) = apply_entries_end c (e ∷ es) boundary (unfold apply_entries in rw len at h) in
        (s, rw len (rw (merged_end c.log (e ∷ es)) q))
    | yes below ↦
        let (x, at) = get_elem?_below c.log p below in
        elim (ℕ_discrete x.term e.term) [
          | yes same ↦
              let (s, q) = apply_entries-merged c es (suc p) boundary below h.1 (omega arith) in
              (
                s,
                rw (apply_entry_same c e p boundary h.0 at same)
                    (rw (← merged_same p c.log e es at same) q),
              )
          | no differs ↦
              let (s, q) = apply_entry_conflict c e p boundary h.0 below (omega arith) at differs in
              let len : suc p ≡ length (take p c.log ++ e ∷ []) =
                omega (arith, length-append (take p c.log) (e ∷ []), length-take p c.log within) in
              let (s', r) =
                apply_entries_end (with_log c s (take p c.log ++ e ∷ [])) es boundary
                  (rw len at h.1) in
              (s', rw (q, r, merged_conflict p c.log e es at differs) refl)
        ]
  ]
