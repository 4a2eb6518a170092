-- ===== src/Core/VoteSafety.antt =====
-- The term never falls, and in one term the vote is given once, restarts included.
use raft_vibe.Prelude.{
  ℕ, ◌≤◌, ◌<◌, ◌≡◌, Bool-cases, inl, inr, Option, none, some, >>=-eq-some, ok, expect, ltb, arith,
}
use raft_vibe.Types.{follower}
use raft_vibe.Storage.{Storage}
use raft_vibe.Storage.VoteLaws.{VoteLaws}
use raft_vibe.Core.State.{RaftCore, new}
use raft_vibe.Core.Persist.{set_term, set_voted_for, update_term}
use raft_vibe.Core.Append.{step_down_if_newer}
use raft_vibe.Core.Frame.{Frame}

-- What is stored is what is in memory.
pub record IsDurable {S M : Type 0} ⦃st : Storage S⦄ (c : RaftCore S M) : Type 0 where
  pub term : st.load_term c.storage ≡ ok c.current_term
  pub vote : st.load_voted_for c.storage ≡ ok c.voted_for

-- From `c` to `c'` the term does not fall, a vote stays for as long as the term does, and a durable
-- core stays durable.
pub record VoteStep {S M : Type 0} ⦃st : Storage S⦄ (c c' : RaftCore S M) : Type 0 where
  pub term_grows : c.current_term ≤ c'.current_term
  pub vote_kept :
      (x : ℕ) → c'.current_term ≡ c.current_term → c.voted_for ≡ some x → c'.voted_for ≡ some x
  pub durable : IsDurable c → IsDurable c'

module _ {S M : Type 0} ⦃st : Storage S⦄ where
  pub VoteStep-refl : (c : RaftCore S M) → VoteStep c c
  VoteStep-refl c = record { term_grows = omega arith; vote_kept = λ x e v. v; durable = λ d. d }

  pub VoteStep-trans : {a b c : RaftCore S M} → VoteStep a b → VoteStep b c → VoteStep a c
  VoteStep-trans f g = record {
    term_grows = omega (arith, f.term_grows, g.term_grows);
    vote_kept = λ x e v.
        g.vote_kept x (omega (arith, f.term_grows, g.term_grows))
          (f.vote_kept x (omega (arith, f.term_grows, g.term_grows)) v);
    durable = λ d. g.durable (f.durable d);
  }

  pub Frame-VoteStep : {c c' : RaftCore S M} → Frame c c' → VoteStep c c'
  Frame-VoteStep f = record {
    term_grows = omega (arith, f.term);
    vote_kept = λ x e v. ground arith;
    durable = λ d. ground arith;
  }

  module _ ⦃laws : VoteLaws S⦄ where
    pub set_term_lem :
        (c : RaftCore S M) (term : ℕ) {c' : RaftCore S M}
        → set_term c term ≡ some c'
        → (c'.current_term ≡ term) × (st.load_term c'.storage ≡ ok term) × (c'.id ≡ c.id)
    unfolding set_term
    set_term_lem c term h =
        let (s, p, q) = >>=-eq-some (expect (st.save_term c.storage term)) _ h in
        ground (arith, laws.load-save_term c.storage term p)

    pub set_voted_for_lem :
        (c : RaftCore S M) (vote : Option ℕ) {c' : RaftCore S M}
        → set_voted_for c vote ≡ some c'
        → (c'.voted_for ≡ vote)
          × (c'.current_term ≡ c.current_term)
          × (st.load_voted_for c'.storage ≡ ok vote)
          × (st.load_term c'.storage ≡ st.load_term c.storage)
          × (c'.id ≡ c.id)
    unfolding set_voted_for
    set_voted_for_lem c vote h =
        let (s, p, q) = >>=-eq-some (expect (st.save_voted_for c.storage vote)) _ h in
        ground (arith, laws.load-save_voted_for c.storage vote p)

    -- A higher term comes with any vote at all.
    pub higher_term :
        (c c' : RaftCore S M) → c.current_term < c'.current_term → IsDurable c' → VoteStep c c'
    higher_term c c' h d = record {
      term_grows = omega arith;
      vote_kept = λ x e v. absurd (omega arith);
      durable = λ _. d;
    }

    update_term_lem :
        (c : RaftCore S M) (term : ℕ) {c' : RaftCore S M}
        → update_term c term ≡ some c'
        → (c'.current_term ≡ term) × (c'.voted_for ≡ none) × IsDurable c'
    unfolding update_term
    update_term_lem c term h =
        let (c₁, p, q) = >>=-eq-some (set_term c term) _ h in
        ground (arith, set_term_lem c term p, set_voted_for_lem c₁ none q)

    pub step_down-VoteStep :
        (c : RaftCore S M) (term : ℕ) {c' : RaftCore S M}
        → step_down_if_newer c term ≡ some c'
        → VoteStep c c' × (term ≤ c'.current_term)
    unfolding step_down_if_newer
    step_down-VoteStep c term {c'} h = elim (Bool-cases (ltb c.current_term term)) [
      | inr old ↦ let same : c ≡ c' = ground arith in rw (← same) (VoteStep-refl c, ground arith)
      | inl new ↦
          let (c₁, p, q) =
            >>=-eq-some (update_term c term) (λ d. some (record d { state = follower })) {b = c'}
              (rw new at h) in
          let k = update_term_lem c term p in
          (higher_term c c' (ground (arith, k)) (ground (arith, k)), ground (arith, k))
    ]
