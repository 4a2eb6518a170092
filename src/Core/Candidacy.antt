-- ===== src/Core/Candidacy.antt =====
-- The two methods that make and count a candidacy: `start_election` and `handle_request_vote_result`.
use raft_vibe.Prelude.{
  ℕ, ◌+◌, ◌<◌, ◌≡◌, ◌⊎◌, refl, ◌∙◌, Bool, Bool-cases, true, false, ◌&&◌, not, Option-cases, inl,
  inr, some, [], ◌∷◌, ◌++◌, length, >>=-eq-some, arith, u64_mod, leb,
}
use raft_vibe.Types.{candidate, RequestVoteResult}
use raft_vibe.Storage.{Storage}
use raft_vibe.Storage.VoteLaws.{VoteLaws}
use raft_vibe.Core.State.{RaftCore, Instant}
use raft_vibe.Core.Persist.{set_term, set_voted_for}
use raft_vibe.Core.Append.{step_down_if_newer}
use raft_vibe.Core.Election.{
  majority_of, contains, track_vote, count_vote, become_leader, start_election,
  process_request_vote_response, handle_request_vote_result, same_state,
}
use raft_vibe.Core.Leading.{step_down-candidate}
use raft_vibe.Core.VoteSteps.{become_leader-Frame}
use raft_vibe.Core.Calm.{step_down-Calm}

-- A candidacy that has just started.
pub record Starts {S M : Type 0} (c c' : RaftCore S M) : Type 0 where
  pub id : c'.id ≡ c.id
  pub peers : c'.peers ≡ c.peers
  pub term : c'.current_term ≡ c.current_term + 1
  pub voted : c'.voted_for ≡ some c.id
  pub votes : c'.votes_received ≡ c.id ∷ []

-- What the votes of a candidate are after a reply, if it was a candidate and still is one.
pub record Counts {S M : Type 0} (p : ℕ) (r : RequestVoteResult) (c c' : RaftCore S M)
    : Type 0 where
  pub id : c'.id ≡ c.id
  pub peers : c'.peers ≡ c.peers
  pub candidacy :
      c'.state ≡ candidate
      → (c.state ≡ candidate)
        × (c'.current_term ≡ c.current_term)
        × ((c'.votes_received ≡ c.votes_received)
            ⊎ ((r.vote_granted ≡ true)
                × (contains c.votes_received p ≡ false)
                × (c'.votes_received ≡ c.votes_received ++ p ∷ [])))

module _ {S M : Type 0} ⦃st : Storage S⦄ ⦃laws : VoteLaws S⦄ where
  pub start_election-Starts :
      (c : RaftCore S M) (now : Instant) {c' : RaftCore S M}
      → c.current_term + 1 < u64_mod
      → start_election c now ≡ some c'
      → Starts c c'
  unfolding start_election set_term set_voted_for
  start_election-Starts c now {c'} room h = record {
    id = ground arith;
    peers = ground arith;
    term = ground arith;
    voted = ground arith;
    votes = ground arith;
  }

  track_vote-Counts :
      (c : RaftCore S M) (p : ℕ) (r : RequestVoteResult) → Counts p r c (track_vote c p r)
  unfolding track_vote
  track_vote-Counts c p r =
      elim (Bool-cases (r.vote_granted && not (contains c.votes_received p))) [
        | inl counted ↦ record {
          id = ground arith;
          peers = ground arith;
          candidacy = λ s. ground arith;
        }
        | inr not_counted ↦ record {
          id = ground arith;
          peers = ground arith;
          candidacy = λ s. ground arith;
        }
      ]

  count_vote-Counts :
      (c : RaftCore S M) (p : ℕ) (r : RequestVoteResult) (now : Instant) {won : Bool}
      {c' : RaftCore S M}
      → count_vote c p r now ≡ some (won, c')
      → Counts p r c c'
  unfolding count_vote
  count_vote-Counts c p r now {won} {c'} h =
      let d : RaftCore S M = track_vote c p r in
      let k = track_vote-Counts c p r in
      elim (Bool-cases (leb (majority_of d.peers) (length d.votes_received))) [
        | inr few ↦ let same : d ≡ c' = ground arith in rw same at k
        | inl enough ↦ elim (Option-cases (become_leader d now)) [
          | inl panic ↦ absurd (ground arith)
          | inr (c₂, q) ↦
              let same : c₂ ≡ c' = ground arith in
              let f = become_leader-Frame d now q in
              let k' : Counts p r c c₂ = record {
                id = f.id ∙ k.id;
                peers = f.peers ∙ k.peers;
                candidacy = λ s.
                    let (was, votes) = f.candidacy s in
                    let (was', term, either) = k.candidacy was in
                    (was', f.term ∙ term, rw votes either);
              } in
              rw same at k'
        ]
      ]

  pub handle_request_vote_result-Counts :
      (c : RaftCore S M) (p : ℕ) (r : RequestVoteResult) (now : Instant) {won : Bool}
      {c' : RaftCore S M}
      → handle_request_vote_result c p r now ≡ some (won, c')
      → Counts p r c c'
  unfolding handle_request_vote_result process_request_vote_response
  handle_request_vote_result-Counts c p r now {won} {c'} h =
      let (c₁, s, q) = >>=-eq-some (step_down_if_newer c r.term) _ h in
      let calm = step_down-Calm c r.term s in
      let tail : Counts p r c₁ c' = elim (Bool-cases (same_state c₁.state candidate)) [
        | inl runs ↦ count_vote-Counts c₁ p r now {won = won} (rw runs at q)
        | inr other ↦
            let same : c₁ ≡ c' = ground arith in
            rw (← same) (record { id = refl; peers = refl; candidacy = λ k. (k, refl, inl refl) })
      ] in
      record {
        id = tail.id ∙ calm.id;
        peers = tail.peers ∙ calm.peers;
        candidacy = λ k.
            let (was, term, either) = tail.candidacy k in
            let (was', votes, term') = calm.candidacy was in
            (was', term ∙ term', rw (← votes) either);
      }

  -- Only a candidate is elected.
  pub elected-candidate :
      (c : RaftCore S M) (p : ℕ) (r : RequestVoteResult) (now : Instant) {c' : RaftCore S M}
      → handle_request_vote_result c p r now ≡ some (true, c')
      → c.state ≡ candidate
  unfolding handle_request_vote_result process_request_vote_response
  elected-candidate c p r now {c'} h =
      let (c₁, s, q) = >>=-eq-some (step_down_if_newer c r.term) _ h in
      elim (Bool-cases (same_state c₁.state candidate)) [
        | inr other ↦ absurd (ground arith)
        | inl runs ↦ (step_down-candidate c r.term s runs).2
      ]
