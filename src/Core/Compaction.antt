-- ===== src/Core/Compaction.antt =====
-- `compact_log` and `truncate_log` of src/storage/memory.rs work by position; src/storage/traits.rs
-- promises them by index.
use raft_vibe.Prelude.{
  ℕ, zero, suc, ◌+◌, ◌-◌, ◌≤◌, ◌<◌, ◌≡◌, refl, sym, List, [], ◌∷◌, length, take, drop, retain, ltb,
  if◌then◌else◌, ◌==◌, leb, dec_lt, length-drop, arith,
}
use raft_vibe.Types.{LogEntry}
use raft_vibe.Storage.Memory.{truncated, compacted}
use raft_vibe.Core.Log.{Contiguous, retain-Contiguous}

none_below :
    (k b : ℕ) (l : List LogEntry)
    → k ≤ b
    → Contiguous b l
    → retain (λ e. ltb e.index (k + 1)) l ≡ []
none_below k b [] h c = refl
none_below k b (x ∷ l) h c = let rest = none_below k (suc b) l (omega arith) c.1 in ground arith

take-nil : (n : ℕ) → take {A = LogEntry} n [] ≡ []
take-nil zero = refl
take-nil (suc n) = refl

retain_below :
    (k b : ℕ) (l : List LogEntry)
    → b ≤ k
    → Contiguous b l
    → retain (λ e. ltb e.index (k + 1)) l ≡ take (k - b) l
retain_below k b [] h c = sym (take-nil (k - b))
retain_below k b (x ∷ l) h c = elim (dec_lt b k) [
  | yes lt ↦
      let e : k - b ≡ suc (k - suc b) = omega arith in
      let rest = retain_below k (suc b) l lt c.1 in rw e (ground arith)
  | no ge ↦ let e : k - b ≡ 0 = omega arith in rw e (none_below k b (x ∷ l) (omega arith) c)
]

pub drop_all : {A : Type 0} (n : ℕ) (l : List A) → length l ≤ n → drop n l ≡ []
drop_all zero [] h = refl
drop_all zero (x ∷ l) h = absurd (omega arith)
drop_all (suc n) [] h = refl
drop_all (suc n) (x ∷ l) h = drop_all n l (omega arith)

take_all : {A : Type 0} (n : ℕ) (l : List A) → length l ≤ n → take n l ≡ l
take_all zero [] h = refl
take_all zero (x ∷ l) h = absurd (omega arith)
take_all (suc n) [] h = refl
take_all (suc n) (x ∷ l) h = let rest = take_all n l (omega arith) in rw rest refl

by_position :
    (l : List LogEntry) (i : ℕ)
    → Contiguous 0 l
    → 0 < i
    → (truncated l i ≡ retain (λ e. ltb e.index i) l)
      × (compacted l i ≡ retain (λ e. leb i e.index) l)
unfolding truncated compacted
by_position l i c h =
    let e : i ≡ i - 1 + 1 = omega arith in
    let below = retain_below (i - 1) 0 l (omega arith) c in
    let above = retain-Contiguous (i - 1) 0 l (omega arith) c in
    let b = rw (← e) at below in
    let a = rw (← e) at above in
    elim (dec_lt (i - 1) (length l)) [
      | yes within ↦ (ground (arith, b), ground (arith, a))
      | no beyond ↦ (
        ground (arith, b, take_all (i - 1) l (omega arith)),
        ground (arith, a, drop_all (i - 1) l (omega arith)),
      )
    ]

retain-none : (l : List LogEntry) → retain (λ e. ltb e.index 0) l ≡ []
retain-none [] = refl
retain-none (x ∷ l) = let rest = retain-none l in ground arith

-- A log without gaps whose first entry has index 1: `truncate_log` keeps by position the entries below
-- the index, as the trait promises by index; `compact_log` keeps those from the index on, as the trait
-- promises, for every index but 0, at which it drops the whole log.
pub truncated-compacted_by_index :
    (l : List LogEntry) (i : ℕ)
    → Contiguous 0 l
    → (truncated l i ≡ retain (λ e. ltb e.index i) l)
      × (compacted l i ≡ (if i == 0 then [] else retain (λ e. leb i e.index) l))
unfolding truncated compacted
truncated-compacted_by_index l zero c = (sym (retain-none l), refl)
truncated-compacted_by_index l (suc n) c =
    let p = by_position l (suc n) c (omega arith) in (p.0, ground (arith, p.1))

-- A log that starts behind the boundary `b` of a snapshot: `compact_log` up to an entry of the log
-- removes more than the trait allows. It keeps fewer entries than have an index of at least
-- `before_index`.
pub compacted_again :
    (b n : ℕ) (l : List LogEntry)
    → Contiguous b l
    → 0 < b
    → n < length l
    → length (compacted l (b + n + 1)) < length (retain (λ e. leb (b + n + 1) e.index) l)
unfolding compacted
compacted_again b n l c pos within =
    let above = retain-Contiguous (b + n) b l (omega arith) c in
    let n₀ : b + n - b ≡ n = omega arith in
    let kept : length (drop (b + n - b) l) ≡ length l - n =
      omega (arith, length-drop (b + n - b) l, n₀) in
    let i : b + n + 1 - 1 ≡ b + n = omega arith in
    let left = length-drop (b + n) l in rw above (ground (arith, kept, i, left))
