-- ===== src/Cluster/Safety.antt =====
-- What the nodes of a cluster keep about votes and elections (src/core/raft_core.rs).
use raft_vibe.Prelude.{
  ℕ, ◌*◌, ◌<◌, ◌≡◌, ◌≢◌, sym, ap, ◌∙◌, inl, inr, Bool-cases, List, ◌∷◌, All, length, arith, ◌==◌,
  Has, All-Has, Has-All,
}
use raft_vibe.Storage.{Storage}
use raft_vibe.Core.Leading.{Distinct}
use raft_vibe.Cluster.World.{Vote, World, put}
use raft_vibe.Cluster.Voting.{vote, Sound}

pub put_all :
    {A : Type 0} (P : ℕ → A → Type 0) (f : ℕ → A) (i : ℕ) (a : A) (j : ℕ)
    → P i a
    → (j ≢ i → P j (f j))
    → P j (put f i a j)
put_all P f i a j p rest = elim (Bool-cases (j == i)) [
  | inl t ↦ let e : j ≡ i = ground (arith, t) in rw t (rw e p)
  | inr t ↦ rw t (rest (λ e. ground (arith, t, e)))
]

pub put_both :
    {A B : Type 0} (P : ℕ → A → B → Type 0) (f : ℕ → A) (g : ℕ → B) (i : ℕ) (a : A) (b : B) (j : ℕ)
    → P i a b
    → (j ≢ i → P j (f j) (g j))
    → P j (put f i a j) (put g i b j)
put_both P f g i a b j p rest = elim (Bool-cases (j == i)) [
  | inl t ↦ let e : j ≡ i = ground (arith, t) in rw t (rw e p)
  | inr t ↦ rw t (rest (λ e. ground (arith, t, e)))
]

-- Votes of a majority of the members for the node in the term.
pub record Quorum (members : List ℕ) (given : List Vote) (i term : ℕ) : Type 0 where
  pub voters : List ℕ
  pub distinct : Distinct voters
  pub among : All (λ v. Has v members) voters
  pub votes : All (λ v. Has (vote v term i) given) voters
  pub majority : length members < 2 * length voters

-- Every member is sound, no node has given two votes in a term, and a majority elected each leader.
pub record Safe {S M : Type 0} ⦃st : Storage S⦄ (members : List ℕ) (w : World S M) : Type 0 where
  pub nodes : (i : ℕ) → Has i members → Sound members w.given (w.asked i) i (w.node i)
  pub once : (v term x y : ℕ) → Has (vote v term x) w.given → Has (vote v term y) w.given → x ≡ y
  pub quorums : (i term : ℕ) → Has (i, term) w.elected → Quorum members w.given i term

pub Quorum-grows :
    (members : List ℕ) (given : List Vote) (new_vote : Vote) (i term : ℕ)
    → Quorum members given i term
    → Quorum members (new_vote ∷ given) i term
Quorum-grows members given new_vote i term q = record {
  voters = q.voters;
  distinct = q.distinct;
  among = q.among;
  votes =
      Has-All _ q.voters
        (λ v h. inr (All-Has (λ v. Has (vote v term i) given) q.voters v q.votes h));
  majority = q.majority;
}

-- A vote in a term in which the node has given none but for the same candidate.
pub once-grows :
    (given : List Vote) (v t x : ℕ)
    → ((y : ℕ) → Has (vote v t y) given → x ≡ y)
    → ((v term x y : ℕ) → Has (vote v term x) given → Has (vote v term y) given → x ≡ y)
    → (v' term x' y : ℕ) → Has (vote v' term x') (vote v t x ∷ given)
    → Has (vote v' term y) (vote v t x ∷ given)
    → x' ≡ y
once-grows given v t x fresh once v' term x' y (inl e) (inl f) =
    ap (λ v. v.candidate_id) (e ∙ sym f)
once-grows given v t x fresh once v' term x' y (inl e) (inr g) =
    ap (λ v. v.candidate_id) e ∙ fresh y (rw (← ap (λ v. v.voter) e, ← ap (λ v. v.term) e) g)
once-grows given v t x fresh once v' term x' y (inr g) (inl e) =
    sym (ap (λ v. v.candidate_id) e ∙ fresh x' (rw (← ap (λ v. v.voter) e, ← ap (λ v. v.term) e) g))
once-grows given v t x fresh once v' term x' y (inr g) (inr h) = once v' term x' y g h
