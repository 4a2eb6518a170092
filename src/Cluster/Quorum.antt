-- ===== src/Cluster/Quorum.antt =====
-- Two majorities of a cluster have a node in common.
use raft_vibe.Prelude.{
  ℕ, ◌+◌, ◌≤◌, ◌<◌, ◌≡◌, inl, inr, refl, Bool-cases, true, false, List, [], ◌∷◌, length, All, ◌==◌,
  arith, Has, All-Has, Has-All, others, Has-others, length-others-lt,
}
use raft_vibe.Core.Election.{contains}
use raft_vibe.Core.Leading.{Distinct}

pub contains-Has : (l : List ℕ) (a : ℕ) → contains l a ≡ true → Has a l
unfolding contains
contains-Has [] a h = absurd (ground (arith, h))
contains-Has (x ∷ l) a h = elim (Bool-cases (x == a)) [
  | inl e ↦ inl (ground (arith, e))
  | inr differs ↦ inr (contains-Has l a (rw (contains, differs) at h))
]

pub not_contains : (l : List ℕ) (a : ℕ) → contains l a ≡ false → ¬ (Has a l)
unfolding contains
not_contains [] a h m = absurd m
not_contains (x ∷ l) a h (inl e) = ground (arith, h, e)
not_contains (x ∷ l) a h (inr m) = elim (Bool-cases (x == a)) [
  | inl e ↦ absurd (ground (arith, rw (contains, e) at h))
  | inr differs ↦ not_contains l a (rw (contains, differs) at h) m
]

-- Distinct elements of a list are no more than the list is long.
length_le :
    (q members : List ℕ) → Distinct q → All (λ a. Has a members) q → length q ≤ length members
length_le [] members d all = omega arith
length_le (a ∷ q) members (fresh, d) (m, all) =
    let rest = length_le q (others a members) d (
      Has-All _ q (λ b h.
        Has-others a members b (All-Has (λ b. Has b members) q b all h)
          (λ e. not_contains q a fresh (rw e at h)))) in
    omega (arith, rest, length-others-lt a members m)

-- Two lists of distinct elements of a list that together are longer than it share an element.
pub share :
    (q q' members : List ℕ)
    → Distinct q
    → Distinct q'
    → All (λ a. Has a members) q
    → All (λ a. Has a members) q'
    → length members < length q + length q'
    → (a : ℕ) × Has a q × Has a q'
share [] q' members d d' all all' more = absurd (omega (arith, length_le q' members d' all', more))
share (a ∷ q) q' members (fresh, d) d' (m, all) all' more = elim (Bool-cases (contains q' a)) [
  | inl both ↦ (a, inl refl, contains-Has q' a both)
  | inr only ↦
      let (b, h, h') =
        share q q' (others a members) d d'
          (Has-All _ q (λ b h.
            Has-others a members b (All-Has (λ b. Has b members) q b all h)
              (λ e. not_contains q a fresh (rw e at h))))
          (Has-All _ q' (λ b h.
            Has-others a members b (All-Has (λ b. Has b members) q' b all' h)
              (λ e. not_contains q' a only (rw e at h))))
          (omega (arith, more, length-others-lt a members m)) in
      (b, inr h, h')
]
