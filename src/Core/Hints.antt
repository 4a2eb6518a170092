-- ===== src/Core/Hints.antt =====
-- `find_first_index_for_term`: the conflict hint that a follower gives.
use raft_vibe.Prelude.{
  ℕ, zero, suc, ◌+◌, ◌-◌, ◌≤◌, ◌<◌, ◌≡◌, ◌≢◌, ◌⊎◌, ap, ◌∙◌, Option-cases, inl, inr, true, false,
  some, ltb, ◌==◌, add_u64, u64_mod, dec_lt, ℕ_discrete, arith,
}
use raft_vibe.Types.{LogEntry}
use raft_vibe.Core.State.{RaftCore}
use raft_vibe.Core.Query.{get_log_entry, find_first_index_for_term}

module _ {S M : Type 0} where
  -- `first` begins the unbroken run of entries of the term that ends before `from`.
  pub record RunOfTerm (c : RaftCore S M) (term from first : ℕ) : Type 0 where
    pub above : c.snapshot_last_index < first
    pub below : first ≤ from
    pub run :
        (i : ℕ)
        → first ≤ i
        → i < from
        → (e : LogEntry) × (get_log_entry c i ≡ some e) × (e.term ≡ term)
    pub maximal :
        (first ≡ c.snapshot_last_index + 1)
        ⊎ ((e : LogEntry) → get_log_entry c (first - 1) ≡ some e → e.term ≢ term)

  stops :
      (c : RaftCore S M) (term from : ℕ)
      → c.snapshot_last_index < from
      → ((from ≡ c.snapshot_last_index + 1)
          ⊎ ((e : LogEntry) → get_log_entry c (from - 1) ≡ some e → e.term ≢ term))
      → RunOfTerm c term from from
  stops c term from above maximal = record {
    above = above;
    below = omega arith;
    run = λ i lo hi. absurd (omega (arith, lo, hi));
    maximal = maximal;
  }

  -- The hint of a follower whose entry at `from` conflicts: the entries from the hint up to `from`
  -- are all of the term, and the hint is the first index of the log, or the entry before it is of
  -- another term or missing.
  pub find_first_index_for_term_lem :
      (c : RaftCore S M) (term from : ℕ)
      → c.snapshot_last_index + 1 < u64_mod
      → c.snapshot_last_index < from
      → RunOfTerm c term from (find_first_index_for_term c term from)
  unfolding find_first_index_for_term
  find_first_index_for_term_lem c term zero room above = absurd (omega arith)
  find_first_index_for_term_lem c term (suc idx) room above =
      let no_wrap : add_u64 c.snapshot_last_index 1 ≡ c.snapshot_last_index + 1 = omega arith in
      elim (dec_lt (c.snapshot_last_index + 1) (suc idx)) [
        | no low ↦
            let e : ltb (add_u64 c.snapshot_last_index 1) (suc idx) ≡ false =
              ground (arith, no_wrap) in
            rw e (stops c term (suc idx) above (inl (omega arith)))
        | yes more ↦
            let e : ltb (add_u64 c.snapshot_last_index 1) (suc idx) ≡ true =
              ground (arith, no_wrap) in
            let back : suc idx - 1 ≡ idx = omega arith in
            elim (Option-cases (get_log_entry c idx)) [
              | inl missing ↦
                  rw (e, missing)
                    (stops c term (suc idx) above
                      (inr (λ x found. absurd (ground (arith, missing, rw back at found)))))
              | inr (x, found) ↦ elim (ℕ_discrete x.term term) [
                | yes same ↦
                    let rest = find_first_index_for_term_lem c term idx room (omega arith) in
                    let t : (x.term == term) ≡ true = ground arith in
                    rw (e, found, t)
                      (record {
                        above = rest.above;
                        below = omega (arith, rest.below);
                        run = λ i lo hi. elim (ℕ_discrete i idx) [
                          | yes here ↦ (x, ap (get_log_entry c) here ∙ found, same)
                          | no before ↦ rest.run i lo (omega (arith, hi, before))
                        ];
                        maximal = rest.maximal;
                      })
                | no other ↦
                    let t : (x.term == term) ≡ false = ground (arith, other) in
                    rw (e, found, t)
                      (stops c term (suc idx) above
                        (inr (λ y earlier. ground (arith, other, found, rw back at earlier))))
              ]
            ]
      ]
