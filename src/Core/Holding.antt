-- ===== src/Core/Holding.antt =====
-- Which followers are recorded to hold an entry: `match_index` of src/core/raft_core.rs.
use raft_vibe.Prelude.{
  ℕ, ◌+◌, ◌*◌, ◌≤◌, ◌<◌, ◌≡◌, ◌⊎◌, ◌==◌, refl, inl, inr, Bool-cases, true, List, [], ◌∷◌, length,
  Assoc, insert, lookup_or, ltb, ◌&&◌, dec_lt, Has, arith,
}
use raft_vibe.Types.{AppendEntriesResult}
use raft_vibe.Storage.{Storage}
use raft_vibe.Core.State.{RaftCore}
use raft_vibe.Core.Election.{majority_of}
use raft_vibe.Core.Leader.{count_replicated, record_success, record_failure, record_result}

-- The followers, each with its own row of the table, that are recorded to hold `i` entries or more.
pub data Holders (i : ℕ) : Assoc → List ℕ → Type 0 where
  no_row : Holders i [] []
  holds :
      (p matched : ℕ) {m : Assoc} {ps : List ℕ}
      → i ≤ matched
      → Holders i m ps
      → Holders i ((p, matched) ∷ m) (p ∷ ps)
  left_out :
      (p matched : ℕ) {m : Assoc} {ps : List ℕ} → Holders i m ps → Holders i ((p, matched) ∷ m) ps

pub count_replicated-Holders :
    (m : Assoc) (i : ℕ) → (ps : List ℕ) × Holders i m ps × (count_replicated m i ≡ length ps)
unfolding count_replicated
count_replicated-Holders [] i = ([], no_row, refl)
count_replicated-Holders ((p, matched) ∷ m) i =
    let (ps, h, e) = count_replicated-Holders m i in
    elim (dec_lt matched i) [
      | yes lt ↦ (ps, left_out p matched h, ground (arith, e))
      | no ge ↦ (p ∷ ps, holds p matched (omega arith) h, ground (arith, e))
    ]

pub Holders-count_replicated :
    (i : ℕ) {m : Assoc} {ps : List ℕ} → Holders i m ps → length ps ≤ count_replicated m i
unfolding count_replicated
Holders-count_replicated i no_row = omega arith
Holders-count_replicated i (holds p matched le h) = ground (arith, Holders-count_replicated i h)
Holders-count_replicated i (left_out p matched h) = ground (arith, Holders-count_replicated i h)

-- The followers of `ps` but `k` are among those that hold the entry by the table `m`.
abbrev Covered : ℕ → Assoc → ℕ → List ℕ → Type 0
Covered i m k ps = (qs : List ℕ) × Holders i m qs × ((p : ℕ) → Has p ps → Has p qs ⊎ (p ≡ k))

own_row : (i : ℕ) {m : Assoc} {ps : List ℕ} (k v : ℕ) → Holders i ((k, v) ∷ m) ps → Covered i m k ps
own_row i k v (holds _ _ {ps = ps} le h) = (ps, h, λ p x. elim x [ inl e ↦ inr e | inr a ↦ inl a ])
own_row i {ps = ps} k v (left_out _ _ h) = (ps, h, λ p a. inl a)

other_row :
    (i : ℕ) {m n : Assoc} {ps : List ℕ} (j w k : ℕ)
    → ((qs : List ℕ) → Holders i n qs → Covered i m k qs)
    → Holders i ((j, w) ∷ n) ps
    → Covered i ((j, w) ∷ m) k ps
other_row i j w k below (holds _ _ {ps = ps} le h) =
    let (qs, g, f) = below ps h in
    (
      j ∷ qs,
      holds j w le g,
      λ p x. elim x [
        | inl e ↦ inl (inl e)
        | inr a ↦ elim (f p a) [ inl b ↦ inl (inr b) | inr e ↦ inr e ]
      ],
    )
other_row i {ps = ps} j w k below (left_out _ _ h) =
    let (qs, g, f) = below ps h in (qs, left_out j w g, f)

-- A new row for `k` counts only for `k`.
pub insert-Holders :
    (m : Assoc) (k v i : ℕ) {ps : List ℕ} → Holders i (insert m k v) ps → Covered i m k ps
unfolding insert
insert-Holders [] k v i h = own_row i k v h
insert-Holders ((j, w) ∷ m) k v i h = elim (Bool-cases (j == k)) [
  | inl same ↦
      let own : Holders i ((k, v) ∷ m) _ = rw same at h in
      let (qs, g, f) = own_row i k v own in (qs, left_out j w g, f)
  | inr differs ↦
      let other : Holders i ((j, w) ∷ insert m k v) _ = rw differs at h in
      other_row i j w k (λ qs g. insert-Holders m k v i g) other
]

module _ {S M : Type 0} ⦃st : Storage S⦄ where
  -- After a response the followers that are recorded to hold the entry are those that were before,
  -- and the one that answered, if it answered with success.
  pub record_result-Holders :
      (c : RaftCore S M) (p i : ℕ) (r : AppendEntriesResult) (ps : List ℕ)
      → Holders i (record_result c p i r).match_index ps
      → (qs : List ℕ) × Holders i c.match_index qs
        × ((q : ℕ) → Has q ps → Has q qs ⊎ ((q ≡ p) × (r.success ≡ true)))
  unfolding record_result record_success record_failure
  record_result-Holders c p i r ps h = elim (Bool-cases r.success) [
    | inr refused ↦ let g : Holders i c.match_index ps = rw refused at h in (ps, g, λ q m. inl m)
    | inl accepted ↦ elim (Bool-cases (ltb 0 i && ltb (lookup_or c.match_index p 0) i)) [
      | inl raised ↦
          let e : (record_result c p i r).match_index ≡ insert c.match_index p i =
            ground (arith, accepted, raised) in
          let g : Holders i (insert c.match_index p i) ps = rw e at h in
          let (qs, k, f) = insert-Holders c.match_index p i i g in
          (qs, k, λ q m. elim (f q m) [ inl a ↦ inl a | inr same ↦ inr (same, accepted) ])
      | inr kept ↦
          let e : (record_result c p i r).match_index ≡ c.match_index =
            ground (arith, accepted, kept) in
          let g : Holders i c.match_index ps = rw e at h in (ps, g, λ q m. inl m)
    ]
  ]

module _ {S M : Type 0} where
  -- More than half of the cluster: the node itself and the followers of the list.
  abbrev pub Majority : RaftCore S M → List ℕ → Type 0
  Majority c ps = length c.peers + 1 < 2 * (1 + length ps)

  pub Majority-Holders :
      (c : RaftCore S M) (i : ℕ)
      → majority_of c.peers ≤ 1 + count_replicated c.match_index i
      → (ps : List ℕ) × Holders i c.match_index ps × Majority c ps
  Majority-Holders c i enough =
      let (ps, h, e) = count_replicated-Holders c.match_index i in (ps, h, omega (arith, enough, e))

  pub Holders-Majority :
      (c : RaftCore S M) (i : ℕ) (ps : List ℕ)
      → Holders i c.match_index ps
      → Majority c ps
      → majority_of c.peers ≤ 1 + count_replicated c.match_index i
  Holders-Majority c i ps h enough = omega (arith, enough, Holders-count_replicated i h)
