-- ===== src/Core/Accepting.antt =====
-- `handle_append_entries` from a leader whose previous entry is in the log.
use raft_vibe.Prelude.{
  ℕ, zero, suc, ◌+◌, ◌-◌, ◌≤◌, ◌<◌, ◌≡◌, refl, Bool-cases, inl, inr, some, List, [], ◌∷◌, ◌++◌,
  length, get_elem?, take, drop, ltb, ◌==◌, min, max, u64_mod, length-append, length-take,
  length-drop, arith,
}
use raft_vibe.Types.{LogEntry}
use raft_vibe.Storage.{Storage}
use raft_vibe.Storage.Reliable.{Reliable}
use raft_vibe.Machine.{Machine}
use raft_vibe.Core.State.{RaftCore}
use raft_vibe.Core.Query.{last_log_index, get_log_entry}
use raft_vibe.Core.Append.{advance_commit}
use raft_vibe.Core.Log.{Contiguous, Contiguous-take, Contiguous-drop, last_log_index_lem}
use raft_vibe.Core.LogOk.{LogOk}
use raft_vibe.Core.Applying.{apply_committed_entries_lem}
use raft_vibe.Core.Merge.{merge, merged}

Contiguous-join :
    (b : ℕ) (xs ys : List LogEntry)
    → Contiguous b xs
    → Contiguous (b + length xs) ys
    → Contiguous b (xs ++ ys)
Contiguous-join b [] ys h k = let e : b + 0 ≡ b = omega arith in rw e at k
Contiguous-join b (x ∷ xs) ys h k =
    let e : b + suc (length xs) ≡ suc b + length xs = omega arith in
    (h.0, Contiguous-join (suc b) xs ys h.1 (rw e at k))

Contiguous-merge :
    (b : ℕ) (log es : List LogEntry)
    → Contiguous b log
    → Contiguous b es
    → Contiguous b (merge log es)
Contiguous-merge b log [] h k = h
Contiguous-merge b [] (e ∷ es) h k = k
Contiguous-merge b (x ∷ log) (e ∷ es) h k = elim (Bool-cases (x.term == e.term)) [
  | inl same ↦ rw same (h.0, Contiguous-merge (suc b) log es h.1 k.1)
  | inr differs ↦ rw differs k
]

pub Contiguous-merged :
    (p : ℕ) (log es : List LogEntry)
    → p ≤ length log
    → Contiguous 0 log
    → Contiguous p es
    → Contiguous 0 (merged p log es)
Contiguous-merged p log es within h k =
    let len : p ≡ length (take p log) = omega (arith, length-take p log within) in
    let start : 0 + p ≡ p = omega arith in
    Contiguous-join 0 (take p log) (merge (drop p log) es) (Contiguous-take p 0 log h) (
      rw (← len, start)
        (Contiguous-merge p (drop p log) es (rw start at (Contiguous-drop p 0 log within h)) k))

-- The entries up to number `k` of a log, and those of a message, have the same terms.
abbrev pub Agree : ℕ → List LogEntry → List LogEntry → Type 0
Agree k log es =
    (i : ℕ) (x y : LogEntry)
    → i < k
    → get_elem? log i ≡ some x
    → get_elem? es i ≡ some y
    → x.term ≡ y.term

length-merge :
    (k : ℕ) (log es : List LogEntry) → k ≤ length log → Agree k log es → k ≤ length (merge log es)
length-merge k log [] h agree = h
length-merge k [] (e ∷ es) h agree = omega arith
length-merge zero (x ∷ log) (e ∷ es) h agree = omega arith
length-merge (suc k) (x ∷ log) (e ∷ es) h agree =
    let same = agree 0 x e (omega arith) refl refl in
    let rest =
      length-merge k log es (omega arith) (λ i u v lt p q. agree (suc i) u v (omega arith) p q) in
    ground (arith, same, rest)

length-merge_le :
    (n : ℕ) (log es : List LogEntry) → length log ≤ n → length es ≤ n → length (merge log es) ≤ n
length-merge_le n log [] h k = h
length-merge_le n [] (e ∷ es) h k = k
length-merge_le zero (x ∷ log) (e ∷ es) h k = absurd (omega arith)
length-merge_le (suc n) (x ∷ log) (e ∷ es) h k =
    let rest = length-merge_le n log es (omega arith) (omega arith) in ground (arith, rest)

-- The new log holds all that is committed, and there is room for one more index.
pub merged_bounds :
    (p commit : ℕ) (log es : List LogEntry)
    → p ≤ length log
    → commit ≤ length log
    → Agree (commit - p) (drop p log) es
    → length log + 1 < u64_mod
    → p + length es + 1 < u64_mod
    → (commit ≤ length (merged p log es)) × (length (merged p log es) + 1 < u64_mod)
merged_bounds p commit log es within below agree room room' =
    let whole = length-append (take p log) (merge (drop p log) es) in
    let front = length-take p log within in
    let back = length-drop p log in
    let lo = length-merge (commit - p) (drop p log) es (omega (arith, back)) agree in
    let hi =
      length-merge_le (u64_mod - 2 - p) (drop p log) es (omega (arith, back)) (omega arith) in
    (omega (arith, whole, front, lo), omega (arith, whole, front, hi))

module _ {S M : Type 0} where
  -- What an accepted message leaves: `c'` is well-formed, holds the log `l` behind its snapshot, and
  -- has committed what the leader has, as far as the log goes.
  pub record Accepted (c : RaftCore S M) (leader_commit : ℕ) (l : List LogEntry) (c' : RaftCore S M)
      : Type 0 where
    pub log_ok : LogOk c'
    pub last : c'.snapshot_last_index + length c'.log ≡ length l
    pub entries : (i : ℕ) → c'.snapshot_last_index < i → get_log_entry c' i ≡ get_elem? l (i - 1)
    pub commit : c'.commit_index ≡ max c.commit_index (min leader_commit (length l))

module _ {S M : Type 0} ⦃st : Storage S⦄ ⦃sm : Machine M⦄ ⦃safe : Reliable S⦄ where
  pub advance_commit_lem :
      (c : RaftCore S M) (leader_commit : ℕ)
      → LogOk c
      → c.snapshot_last_index ≡ 0
      → (c' : RaftCore S M) × (advance_commit c leader_commit ≡ some c')
        × Accepted c leader_commit c.log c'
  unfolding advance_commit get_log_entry
  advance_commit_lem c leader_commit k boundary =
      let last = last_log_index_lem c k.contiguous in
      elim (Bool-cases (ltb c.commit_index leader_commit)) [
        | inr old ↦ (
          c,
          rw old refl,
          record {
            log_ok = k;
            last = omega arith;
            entries = λ i h. ground arith;
            commit = ground (arith, k.commit_le);
          },
        )
        | inl new ↦
            let d : RaftCore S M = record c {
              commit_index = min leader_commit (last_log_index c);
            } in
            let k' : LogOk d = record {
              contiguous = k.contiguous;
              snapshot_le = k.snapshot_le;
              applied_le = ground (arith, k.applied_le, k.commit_le, last);
              commit_le = omega (arith, last);
              fits = k.fits;
            } in
            let (rs, c', call, a) = apply_committed_entries_lem d k' in
            (
              c',
              rw (new, call) refl,
              record {
                log_ok = a.log_ok;
                last = omega (arith, a.same_last, boundary);
                entries = λ i h. ground (arith, a.entries i h, boundary);
                commit = ground (arith, a.commit, last, k.commit_le, boundary);
              },
            )
      ]
