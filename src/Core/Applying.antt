-- ===== src/Core/Applying.antt =====
-- `apply_committed_entries` against the state machine run by itself on the committed entries.
use raft_vibe.Prelude.{
  ℕ, zero, suc, ◌+◌, ◌-◌, ◌≤◌, ◌<◌, ◌≡◌, refl, ◌∙◌, some, List, [], ◌∷◌, length, get_elem?, take,
  drop, arith,
}
use raft_vibe.Types.{LogEntry, ApplyResult}
use raft_vibe.Storage.{Storage}
use raft_vibe.Storage.Reliable.{Reliable}
use raft_vibe.Machine.{Machine}
use raft_vibe.Core.State.{RaftCore}
use raft_vibe.Core.Query.{get_log_entry}
use raft_vibe.Core.Apply.{apply_loop, auto_snapshot, apply_committed_entries}
use raft_vibe.Core.Log.{Contiguous-get_elem?, get_log_entry_lem, drop-get_elem?}
use raft_vibe.Core.LogOk.{LogOk, auto_snapshot-Compacts}

-- The specification: the machine alone, fed with the commands in order.
abbrev pub run : {M : Type 0} ⦃sm : Machine M⦄ → List LogEntry → M → List (ℕ × ApplyResult) × M
run [] m = ([], m)
run ⦃sm⦄ (e ∷ es) m =
    let rest = run es (sm.apply m e.command).1 in
    ((e.index, (sm.apply m e.command).0) ∷ rest.0, rest.1)

module _ {S M : Type 0} where
  -- The next `n` entries that are not applied yet.
  abbrev pub pending : RaftCore S M → ℕ → List LogEntry
  pending c n = take n (drop (c.last_applied - c.snapshot_last_index) c.log)

  abbrev after : RaftCore S M → ℕ → M → RaftCore S M
  after c n m = record c { last_applied = c.last_applied + n; state_machine = m }

module _ {S M : Type 0} ⦃st : Storage S⦄ ⦃sm : Machine M⦄ where
  apply_loop_lem :
      (n : ℕ) (c : RaftCore S M)
      → LogOk c
      → c.last_applied + n ≤ c.commit_index
      → apply_loop n c
        ≡ some
            ((run (pending c n) c.state_machine).0, after c n (run (pending c n) c.state_machine).1)
  unfolding apply_loop
  apply_loop_lem zero c k h = let e : c.last_applied + 0 ≡ c.last_applied = omega arith in rw e refl
  apply_loop_lem (suc n) c k h =
      let (e, found, at) =
        get_log_entry_lem c (c.last_applied + 1) (omega (arith, k.snapshot_le))
          (omega (arith, k.commit_le)) in
      let c₁ = after c 1 (sm.apply c.state_machine e.command).1 in
      let ih =
        apply_loop_lem n c₁
          (record {
            contiguous = k.contiguous;
            snapshot_le = omega (arith, k.snapshot_le);
            applied_le = omega arith;
            commit_le = k.commit_le;
            fits = k.fits;
          })
          (omega arith) in
      let i : ℕ = c.last_applied - c.snapshot_last_index in
      let pos : c.last_applied + 1 - c.snapshot_last_index - 1 ≡ i = omega (arith, k.snapshot_le) in
      let here : get_elem? c.log i ≡ some e = rw pos at at in
      let index : e.index ≡ c.last_applied + 1 = omega (
        arith,
        Contiguous-get_elem? c.snapshot_last_index c.log i k.contiguous here,
        k.snapshot_le,
      ) in
      let next : c.last_applied + 1 - c.snapshot_last_index ≡ suc i =
        omega (arith, k.snapshot_le) in
      let sum : c.last_applied + 1 + n ≡ c.last_applied + suc n = omega arith in
      let ih' = rw (next, sum) at ih in rw (found, ih', drop-get_elem? c.log i here, index) refl

  -- `c'` is `c` with the committed entries applied, and `rs` are the machine's own results.
  pub record Applied (c : RaftCore S M) (rs : List (ℕ × ApplyResult)) (c' : RaftCore S M)
      : Type 0 where
    pub results : rs ≡ (run (pending c (c.commit_index - c.last_applied)) c.state_machine).0
    pub machine :
        c'.state_machine ≡ (run (pending c (c.commit_index - c.last_applied)) c.state_machine).1
    pub applied : c'.last_applied ≡ c.commit_index
    pub commit : c'.commit_index ≡ c.commit_index
    pub same_last : c'.snapshot_last_index + length c'.log ≡ c.snapshot_last_index + length c.log
    pub log_ok : LogOk c'
    pub entries : (i : ℕ) → c'.snapshot_last_index < i → get_log_entry c' i ≡ get_log_entry c i

  -- On a well-formed core over a storage that does not fail, `apply_committed_entries` does not
  -- panic: it applies exactly the entries from `last_applied + 1` to `commit_index`, in order, its
  -- results and its machine are those of the state machine run by itself on these entries, no entry
  -- behind the boundary of the snapshot changes, and the core that it leaves is well-formed.
  pub apply_committed_entries_lem :
      ⦃safe : Reliable S⦄ (c : RaftCore S M)
      → LogOk c
      → (rs : List (ℕ × ApplyResult)) × (c' : RaftCore S M) × (apply_committed_entries c
          ≡ some (rs, c'))
        × Applied c rs c'
  unfolding apply_committed_entries get_log_entry
  apply_committed_entries_lem c k =
      let n : ℕ = c.commit_index - c.last_applied in
      let out = run (pending c n) c.state_machine in
      let c₁ = after c n out.1 in
      let loop = apply_loop_lem n c k (omega (arith, k.applied_le)) in
      let reached : c.last_applied + n ≡ c.commit_index = omega (arith, k.applied_le) in
      let k₁ : LogOk c₁ = record {
        contiguous = k.contiguous;
        snapshot_le = omega (arith, k.snapshot_le);
        applied_le = omega (arith, reached);
        commit_le = k.commit_le;
        fits = k.fits;
      } in
      let s = auto_snapshot-Compacts c₁ k₁ in
      (
        out.0,
        auto_snapshot c₁,
        rw loop refl,
        record {
          results = refl;
          machine = s.machine;
          applied = s.applied ∙ reached;
          commit = s.commit;
          same_last = s.same_last;
          log_ok = s.log_ok;
          entries = s.entries;
        },
      )
