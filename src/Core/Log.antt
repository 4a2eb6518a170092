-- ===== src/Core/Log.antt =====
-- A log without gaps behind the boundary of the snapshot, and the methods that read it.
use raft_vibe.Prelude.{
  ℕ, zero, suc, ◌+◌, ◌-◌, ◌≤◌, ◌<◌, ◌≡◌, refl, sym, some, List, [], ◌∷◌, ◌++◌, length, get_elem?,
  take, drop, last?, retain, leb, get_elem?_below, arith, dec_lt, ◌⊎◌, inl, inr,
}
use raft_vibe.Types.{LogEntry}
use raft_vibe.Core.State.{RaftCore}
use raft_vibe.Core.Query.{last_log_index, get_log_entry}

-- The entries have the indices `b + 1`, `b + 2`, … in order.
abbrev pub Contiguous : ℕ → List LogEntry → Type 0
Contiguous b [] = Unit
Contiguous b (e ∷ es) = (e.index ≡ suc b) × Contiguous (suc b) es

pub Contiguous-get_elem? :
    (b : ℕ) (l : List LogEntry) (i : ℕ) {e : LogEntry}
    → Contiguous b l
    → get_elem? l i ≡ some e
    → e.index ≡ b + i + 1
Contiguous-get_elem? b [] i h p = ground arith
Contiguous-get_elem? b (x ∷ l) zero h p = ground arith
Contiguous-get_elem? b (x ∷ l) (suc i) h p = omega (arith, Contiguous-get_elem? (suc b) l i h.1 p)

pub Contiguous-last? :
    (b : ℕ) (l : List LogEntry) {e : LogEntry}
    → Contiguous b l
    → last? l ≡ some e
    → e.index ≡ b + length l
Contiguous-last? b [] h p = ground arith
Contiguous-last? b (x ∷ []) h p = ground arith
Contiguous-last? b (x ∷ y ∷ l) h p = omega (arith, Contiguous-last? (suc b) (y ∷ l) h.1 p)

pub Contiguous-append :
    (b : ℕ) (l : List LogEntry) (e : LogEntry)
    → Contiguous b l
    → e.index ≡ b + length l + 1
    → Contiguous b (l ++ e ∷ [])
Contiguous-append b [] e h p = (omega (arith), tt)
Contiguous-append b (x ∷ l) e h p = (h.0, Contiguous-append (suc b) l e h.1 (omega arith))

pub Contiguous-take : (n b : ℕ) (l : List LogEntry) → Contiguous b l → Contiguous b (take n l)
Contiguous-take zero b l h = tt
Contiguous-take (suc n) b [] h = tt
Contiguous-take (suc n) b (x ∷ l) h = (h.0, Contiguous-take n (suc b) l h.1)

pub Contiguous-drop :
    (n b : ℕ) (l : List LogEntry) → n ≤ length l → Contiguous b l → Contiguous (b + n) (drop n l)
Contiguous-drop zero b l k h = let e : b + 0 ≡ b = omega arith in rw e h
Contiguous-drop (suc n) b [] k h = absurd (omega arith)
Contiguous-drop (suc n) b (x ∷ l) k h =
    let e : b + suc n ≡ suc b + n = omega arith in
    rw e (Contiguous-drop n (suc b) l (omega arith) h.1)

pub drop-nil {ℓ} : {A : Type ℓ} (n : ℕ) → drop {A = A} n [] ≡ []
drop-nil zero = refl
drop-nil (suc n) = refl

retain_all :
    (k b : ℕ) (l : List LogEntry) → k ≤ b → Contiguous b l → retain (λ e. leb (k + 1) e.index) l ≡ l
retain_all k b [] h c = refl
retain_all k b (x ∷ l) h c = ground (arith, retain_all k (suc b) l (omega arith) c.1)

-- Keeping the entries from `k + 1` on drops the first `k - b`.
pub retain-Contiguous :
    (k b : ℕ) (l : List LogEntry)
    → b ≤ k
    → Contiguous b l
    → retain (λ e. leb (k + 1) e.index) l ≡ drop (k - b) l
retain-Contiguous k b [] h c = sym (drop-nil (k - b))
retain-Contiguous k b (x ∷ l) h c = elim (dec_lt b k) [
  | yes lt ↦
      let e : k - b ≡ suc (k - suc b) = omega arith in
      let rest = retain-Contiguous k (suc b) l lt c.1 in rw e (ground arith)
  | no ge ↦ let e : k - b ≡ 0 = omega arith in rw e (retain_all k b (x ∷ l) (omega arith) c)
]

pub drop-get_elem? {ℓ} :
    {A : Type ℓ} (xs : List A) (k : ℕ) {x : A}
    → get_elem? xs k ≡ some x
    → drop k xs ≡ x ∷ drop (suc k) xs
drop-get_elem? [] k h = ground arith
drop-get_elem? (y ∷ xs) zero h = ground arith
drop-get_elem? (y ∷ xs) (suc k) h = drop-get_elem? xs k h

last?-cases : (l : List LogEntry) → (l ≡ []) ⊎ ((e : LogEntry) × (last? l ≡ some e))
last?-cases [] = inl refl
last?-cases (x ∷ []) = inr (x, refl)
last?-cases (x ∷ y ∷ l) = elim (last?-cases (y ∷ l)) [
  | inl e ↦ inr (x, ground arith)
  | inr (z, p) ↦ inr (z, p)
]

module _ {S M : Type 0} where
  pub last_log_index_lem :
      (c : RaftCore S M)
      → Contiguous c.snapshot_last_index c.log
      → last_log_index c ≡ c.snapshot_last_index + length c.log
  unfolding last_log_index
  last_log_index_lem c h = elim (last?-cases c.log) [
    | inl e ↦ rw e (omega arith)
    | inr (x, p) ↦ ground (arith, Contiguous-last? c.snapshot_last_index c.log h p)
  ]

  pub get_log_entry_lem :
      (c : RaftCore S M) (i : ℕ)
      → c.snapshot_last_index < i
      → i ≤ c.snapshot_last_index + length c.log
      → (e : LogEntry) × (get_log_entry c i ≡ some e)
        × (get_elem? c.log (i - c.snapshot_last_index - 1) ≡ some e)
  unfolding get_log_entry
  get_log_entry_lem c i lo hi =
      let (e, p) = get_elem?_below c.log (i - c.snapshot_last_index - 1) (omega arith) in
      (e, ground arith, p)
