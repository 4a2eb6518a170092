-- ===== src/Cluster/VoteSteps.antt =====
-- Steps of a cluster that give votes, and those that concern no election (src/core/raft_core.rs).
use raft_vibe.Prelude.{
  ℕ, ◌+◌, ◌<◌, ◌≡◌, sym, ◌∙◌, inl, inr, Bool-cases, none, some, List, ◌∷◌, u64_mod, arith, Has,
}
use raft_vibe.Types.{RequestVoteArgs, RequestVoteResult}
use raft_vibe.Storage.{Storage}
use raft_vibe.Storage.VoteLaws.{VoteLaws}
use raft_vibe.Machine.{Machine}
use raft_vibe.Core.State.{RaftCore, Instant}
use raft_vibe.Core.Election.{handle_request_vote, start_election}
use raft_vibe.Core.VoteSafety.{VoteStep}
use raft_vibe.Core.VoteSteps.{handle_request_vote-VoteStep, start_election-VoteStep}
use raft_vibe.Core.OneVote.{granted, granted_term}
use raft_vibe.Core.Calm.{Calm, handle_request_vote-Calm}
use raft_vibe.Core.Candidacy.{start_election-Starts}
use raft_vibe.Cluster.World.{Vote, World, put, given_by}
use raft_vibe.Cluster.Voting.{
  vote, Sound, Sound-grows, Sound-Calm, Sound-votes, Sound-asks, Sound-ends, Sound-election,
}
use raft_vibe.Cluster.Safety.{put_all, put_both, Safe, Quorum-grows, once-grows}

module _ {S M : Type 0} ⦃st : Storage S⦄ ⦃sm : Machine M⦄ ⦃laws : VoteLaws S⦄ where
  pub other-Safe :
      (members : List ℕ) (w : World S M) (i : ℕ) (c' : RaftCore S M)
      → Has i members
      → VoteStep (w.node i) c'
      → Calm (w.node i) c'
      → Safe members w
      → Safe members (record w { node = put w.node i c' })
  other-Safe members w i c' member v calm safe = record {
    nodes = λ j h.
        put_all (λ j c. Has j members → Sound members w.given (w.asked j) j c) w.node i c' j
          (λ m. Sound-Calm members w.given (w.asked i) i (w.node i) c' v calm (safe.nodes i m))
          (λ differs m. safe.nodes j m) h;
    once = safe.once;
    quorums = safe.quorums;
  }

  pub request_vote-Safe :
      (members : List ℕ) (w : World S M) (i : ℕ) (req : RequestVoteArgs) (r : RequestVoteResult)
      (c' : RaftCore S M)
      → Has i members
      → handle_request_vote (w.node i) req ≡ some (r, c')
      → Safe members w
      → Safe members
          (record w { node = put w.node i c'; given = given_by r.vote_granted i req w.given })
  request_vote-Safe members w i req r c' member h safe =
      let v = handle_request_vote-VoteStep (w.node i) req h in
      let calm = handle_request_vote-Calm (w.node i) req h in
      elim (Bool-cases r.vote_granted) [
        | inr refused ↦ rw refused (other-Safe members w i c' member v calm safe)
        | inl grants ↦
            let (voted, _, again) = granted (w.node i) req h grants in
            let e = granted_term (w.node i) req h grants in
            let before = safe.nodes i member in
            let after =
              Sound-votes members w.given (w.asked i) i req.term req.candidate_id c' e voted
                (Sound-Calm members w.given (w.asked i) i (w.node i) c' v calm before) in
            let x : ℕ = req.candidate_id in
            let t : ℕ = req.term in
            rw grants (record {
              nodes = λ j m.
                  put_all
                    (λ j c. Has j members → Sound members (vote i t x ∷ w.given) (w.asked j) j c)
                    w.node i c' j (λ _. after)
                    (λ differs m.
                      Sound-grows members w.given (vote i t x) (w.asked j) j (w.node j)
                        (λ s. differs (sym s)) (safe.nodes j m))
                    m;
              once =
                  once-grows w.given i t x
                    (λ y g. elim (before.kept t y g) [
                      | inl lower ↦ absurd (omega (arith, lower, e, v.term_grows))
                      | inr (same, was) ↦ sym (again (e ∙ same) y was)
                    ])
                    safe.once;
              quorums = λ j term k.
                  Quorum-grows members w.given (vote i t x) j term (safe.quorums j term k);
            })
      ]

  pub election-Safe :
      (members : List ℕ) (w : World S M) (i : ℕ) (now : Instant) (c' : RaftCore S M)
      → Has i members
      → (w.node i).current_term + 1 < u64_mod
      → start_election (w.node i) now ≡ some c'
      → Safe members w
      → Safe members (record w {
        node = put w.node i c';
        asked = put w.asked i none;
        given = vote i c'.current_term i ∷ w.given;
      })
  election-Safe members w i now c' member room h safe =
      let v = start_election-VoteStep (w.node i) now room h in
      let starts = start_election-Starts (w.node i) now room h in
      let before = safe.nodes i member in
      let new_vote : Vote = vote i c'.current_term i in
      record {
        nodes = λ j m.
            put_both (λ j c a. Has j members → Sound members (new_vote ∷ w.given) a j c) w.node
              w.asked i c' none j
              (λ _.
                Sound-election members w.given (w.asked i) i (w.node i) c' member v starts before)
              (λ differs m.
                Sound-grows members w.given new_vote (w.asked j) j (w.node j) (λ s. differs (sym s))
                  (safe.nodes j m))
              m;
        once =
            once-grows w.given i c'.current_term i
              (λ y g. absurd (elim (before.kept c'.current_term y g) [
                | inl lower ↦ omega (arith, lower, starts.term)
                | inr (same, _) ↦ omega (arith, same, starts.term)
              ]))
              safe.once;
        quorums = λ j term k. Quorum-grows members w.given new_vote j term (safe.quorums j term k);
      }

  pub restart-Safe :
      (members : List ℕ) (w : World S M) (i : ℕ) (c' : RaftCore S M)
      → Has i members
      → VoteStep (w.node i) c'
      → Calm (w.node i) c'
      → Safe members w
      → Safe members (record w { node = put w.node i c'; asked = put w.asked i none })
  restart-Safe members w i c' member v calm safe = record {
    nodes = λ j m.
        put_both (λ j c a. Has j members → Sound members w.given a j c) w.node w.asked i c' none j
          (λ m.
            Sound-ends members w.given (w.asked i) i c'
              (Sound-Calm members w.given (w.asked i) i (w.node i) c' v calm (safe.nodes i m)))
          (λ differs m. safe.nodes j m) m;
    once = safe.once;
    quorums = safe.quorums;
  }

  pub request_votes-Safe :
      (members : List ℕ) (w : World S M) (i : ℕ)
      → Safe members w
      → Safe members (record w { asked = put w.asked i (some (w.node i).current_term) })
  request_votes-Safe members w i safe = record {
    nodes = λ j m.
        put_all (λ j a. Has j members → Sound members w.given a j (w.node j)) w.asked i
          (some (w.node i).current_term) j
          (λ m. Sound-asks members w.given (w.asked i) i (w.node i) (safe.nodes i m))
          (λ differs m. safe.nodes j m) m;
    once = safe.once;
    quorums = safe.quorums;
  }
