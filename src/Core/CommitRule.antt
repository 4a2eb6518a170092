-- ===== src/Core/CommitRule.antt =====
-- What a leader does with a response, on every branch of `handle_append_entries_result` of
-- src/core/raft_core.rs.
use raft_vibe.Prelude.{
  Option, zero, suc, none, [], ◌∷◌, refl, ◌==◌, get_elem?, dec_lt, ℕ, ◌+◌, ◌-◌, ◌≤◌, ◌<◌, ◌≡◌, ◌⊎◌,
  Bool-cases, Option-cases, inl, inr, false, some, List, length, arith,
}
use raft_vibe.Types.{LogEntry, follower, leader, AppendEntriesResult, ApplyResult}
use raft_vibe.Storage.{Storage}
use raft_vibe.Storage.Reliable.{Reliable}
use raft_vibe.Machine.{Machine}
use raft_vibe.Core.State.{RaftCore}
use raft_vibe.Core.Persist.{update_term, set_term}
use raft_vibe.Core.Query.{get_log_entry}
use raft_vibe.Core.Append.{step_down_if_newer}
use raft_vibe.Core.Election.{same_state, majority_of}
use raft_vibe.Core.Leader.{
  count_replicated, record_success, record_failure, record_result, has_current_term, try_commit,
  process_append_entries_response, handle_append_entries_result,
}
use raft_vibe.Core.Holding.{Majority-Holders, Holders-Majority}
use raft_vibe.Core.Electing.{set_voted_for_ok}
use raft_vibe.Core.Committing.{MayCommit, record_result-same}
use raft_vibe.Core.LogOk.{LogOk}
use raft_vibe.Core.Applying.{Applied, apply_committed_entries_lem}

get_elem?-length : {A : Type 0} (l : List A) (i : ℕ) {a : A} → get_elem? l i ≡ some a → i < length l
get_elem?-length [] i h = absurd (ground (arith, h))
get_elem?-length (x ∷ l) zero h = omega arith
get_elem?-length (x ∷ l) (suc i) {a} h = omega (arith, get_elem?-length l i {a = a} h)

module _ {S M : Type 0} ⦃st : Storage S⦄ ⦃sm : Machine M⦄ where
  get_log_entry-within :
      (c : RaftCore S M) (i : ℕ) {e : LogEntry}
      → get_log_entry c i ≡ some e
      → i ≤ c.snapshot_last_index + length c.log
  unfolding get_log_entry
  get_log_entry-within c i {e} h =
      ground (arith, h, get_elem?-length c.log (i - c.snapshot_last_index - 1) {a = e})

  try_commit_complete :
      ⦃safe : Reliable S⦄ (c : RaftCore S M) (i : ℕ)
      → LogOk c
      → MayCommit c i
      → (rs : List (ℕ × ApplyResult)) × (c' : RaftCore S M) × (try_commit c i
          ≡ some (some i, rs, c'))
        × (c'.commit_index ≡ i)
        × Applied (record c { commit_index = i }) rs c'
  unfolding try_commit has_current_term
  try_commit_complete c i k may =
      let (rs, c', call, a) =
        apply_committed_entries_lem (record c { commit_index = i })
          (record {
            contiguous = k.contiguous;
            snapshot_le = k.snapshot_le;
            applied_le = omega (arith, k.applied_le, may.beyond);
            commit_le = get_log_entry-within c i may.found;
            fits = k.fits;
          }) in
      let enough = Holders-Majority c i may.holders may.hold may.quorum in
      (rs, c', ground (arith, call, may.beyond, may.found, may.own_term, enough), a.commit, a)

  record_result-log :
      (c : RaftCore S M) (p i : ℕ) (r : AppendEntriesResult)
      → ((record_result c p i r).log ≡ c.log)
        × ((record_result c p i r).snapshot_last_index ≡ c.snapshot_last_index)
        × ((record_result c p i r).last_applied ≡ c.last_applied)
        × ((record_result c p i r).state_machine ≡ c.state_machine)
  unfolding record_result record_success record_failure
  record_result-log c p i r = ground arith

  record_result-LogOk :
      (c : RaftCore S M) (p i : ℕ) (r : AppendEntriesResult)
      → LogOk c
      → LogOk (record_result c p i r)
  record_result-LogOk c p i r k =
      let (log, boundary, applied, _) = record_result-log c p i r in
      let commit = (record_result-same c p i r).2 in
      record {
        contiguous = rw (boundary, log) k.contiguous;
        snapshot_le = rw (boundary, applied) k.snapshot_le;
        applied_le = rw (applied, commit) k.applied_le;
        commit_le = rw (commit, boundary, log) k.commit_le;
        fits = rw (boundary, log) k.fits;
      }

  -- A leader may commit the entry, or the call finds that it may not, and does nothing.
  try_commit-cases :
      (c : RaftCore S M) (i : ℕ)
      → c.state ≡ leader
      → MayCommit c i ⊎ ((¬ (MayCommit c i)) × (try_commit c i ≡ some (none, [], c)))
  unfolding try_commit has_current_term
  try_commit-cases c i leads = elim (Option-cases (get_log_entry c i)) [
    | inl missing ↦
        inr (λ may. absurd (ground (arith, missing, may.found)), ground (arith, missing))
    | inr (e, found) ↦ elim (Bool-cases (e.term == c.current_term)) [
      | inr older ↦ inr (
        λ may. absurd (ground (arith, found, may.found, may.own_term, older)),
        ground (arith, found, older),
      )
      | inl own ↦ elim (dec_lt c.commit_index i) [
        | no behind ↦
            inr (
              λ may. absurd (omega (arith, behind, may.beyond)),
              ground (arith, found, own, behind),
            )
        | yes beyond ↦ elim (dec_lt (1 + count_replicated c.match_index i) (majority_of c.peers)) [
          | yes few ↦ inr (
            λ may.
                absurd (omega (arith, few, Holders-Majority c i may.holders may.hold may.quorum)),
            ground (arith, found, own, few),
          )
          | no enough ↦
              let (ps, hold, quorum) = Majority-Holders c i (omega (arith, enough)) in
              inl (record {
                leads = leads;
                beyond = beyond;
                entry = e;
                found = found;
                own_term = ground (arith, own);
                holders = ps;
                hold = hold;
                quorum = quorum;
              })
        ]
      ]
    ]
  ]

  -- The response is taken in, and nothing is committed or applied.
  pub record Unmoved (c c' : RaftCore S M) : Type 0 where
    pub commit : c'.commit_index ≡ c.commit_index
    pub applied : c'.last_applied ≡ c.last_applied
    pub machine : c'.state_machine ≡ c.state_machine
    pub log : c'.log ≡ c.log

  step_down-newer :
      ⦃safe : Reliable S⦄ (c : RaftCore S M) (term : ℕ)
      → c.current_term < term
      → (d : RaftCore S M) × (step_down_if_newer c term ≡ some d)
        × (same_state d.state leader ≡ false)
        × Unmoved c d
  unfolding step_down_if_newer update_term set_term
  step_down-newer ⦃safe = safe⦄ c term newer =
      let s : S = (st.save_term c.storage term).1 in
      let d : RaftCore S M = record c {
        current_term = term;
        voted_for = none;
        state = follower;
        storage = (st.save_voted_for s none).1;
      } in
      let saved = set_voted_for_ok (record c { current_term = term; storage = s }) none in
      (
        d,
        ground (arith, newer, saved, safe.save_term_ok c.storage term),
        refl,
        record { commit = refl; applied = refl; machine = refl; log = refl },
      )

  -- On a well-formed core over a storage that does not fail, a response is taken in without a panic.
  -- Either it shows no newer term, and with it the node may commit the entry it is about: it leads, the
  -- entry is of its own term and not committed yet, and followers with rows of their own in
  -- `match_index`, with the leader more than half of the cluster, are recorded to hold it; then that
  -- index is returned, it is the commit index, and all that was pending is applied. Or one of these
  -- does not hold; then nothing is returned, and the commit index, what is applied, the state machine
  -- and the log stay.
  pub handle_append_entries_result_exact :
      ⦃safe : Reliable S⦄ (c : RaftCore S M) (p i : ℕ) (r : AppendEntriesResult)
      → LogOk c
      → (o : Option ℕ) × (rs : List (ℕ × ApplyResult)) × (c' : RaftCore S M)
        × (handle_append_entries_result c p i r ≡ some (o, rs, c'))
        × (((r.term ≤ c.current_term)
              × MayCommit (record_result c p i r) i
              × (o ≡ some i)
              × (c'.commit_index ≡ i)
              × Applied (record (record_result c p i r) { commit_index = i }) rs c')
            ⊎ ((¬ ((r.term ≤ c.current_term) × MayCommit (record_result c p i r) i))
                × (o ≡ none)
                × (rs ≡ [])
                × Unmoved c c'))
  unfolding handle_append_entries_result process_append_entries_response step_down_if_newer
  handle_append_entries_result_exact c p i r k =
      let same = record_result-same c p i r in
      elim (dec_lt c.current_term r.term) [
        | yes newer ↦
            let (d, call, follows, un) = step_down-newer c r.term newer in
            (
              none,
              [],
              d,
              ground (arith, call, follows, newer),
              inr (λ x. absurd (omega (arith, newer, x.0)), refl, refl, un),
            )
        | no fresh ↦ elim (Bool-cases (same_state c.state leader)) [
          | inr other ↦ (
            none,
            [],
            c,
            ground (arith, fresh, other),
            inr (
              λ x. absurd (ground (arith, same.0, x.1.leads, other)),
              refl,
              refl,
              record { commit = refl; applied = refl; machine = refl; log = refl },
            ),
          )
          | inl leads ↦
              elim (try_commit-cases (record_result c p i r) i (ground (arith, same.0, leads))) [
                | inl may ↦
                    let (rs, c', call, commit, a) =
                      try_commit_complete (record_result c p i r) i (record_result-LogOk c p i r k)
                        may in
                    (
                      some i,
                      rs,
                      c',
                      ground (arith, call, fresh, leads),
                      inl (omega (arith, fresh), may, refl, commit, a),
                    )
                | inr (may_not, call) ↦
                    let (log, _, applied, machine) = record_result-log c p i r in
                    (
                      none,
                      [],
                      record_result c p i r,
                      ground (arith, call, fresh, leads),
                      inr (
                        λ x. may_not x.1,
                        refl,
                        refl,
                        record { commit = same.2; applied = applied; machine = machine; log = log },
                      ),
                    )
              ]
        ]
      ]
