-- ===== src/Cluster/Replies.antt =====
-- Replies that reach a candidate, and the election that the last of a majority decides
-- (`RaftCore::handle_request_vote_result`).
use raft_vibe.Prelude.{
  ℕ, ◌≡◌, ap, inl, inr, Bool, Bool-cases, true, false, ◌&&◌, not, Option, some, List, All, arith,
  Has, All-snoc,
}
use raft_vibe.Types.{RequestVoteResult}
use raft_vibe.Storage.{Storage}
use raft_vibe.Storage.VoteLaws.{VoteLaws}
use raft_vibe.Machine.{Machine}
use raft_vibe.Core.State.{RaftCore, Instant}
use raft_vibe.Core.Election.{contains, track_vote, handle_request_vote_result}
use raft_vibe.Core.Electing.{handle_request_vote_result_lem}
use raft_vibe.Core.VoteSteps.{handle_request_vote_result-VoteStep}
use raft_vibe.Core.Candidacy.{handle_request_vote_result-Counts, elected-candidate}
use raft_vibe.Cluster.World.{Vote, World, put, elected_by}
use raft_vibe.Cluster.Voting.{vote, Sound, Sound-reply}
use raft_vibe.Cluster.Safety.{put_all, Quorum, Safe}

module _ {S M : Type 0} ⦃st : Storage S⦄ ⦃sm : Machine M⦄ ⦃laws : VoteLaws S⦄ where
  track_vote-given :
      (c : RaftCore S M) (p : ℕ) (r : RequestVoteResult) (P : ℕ → Type 0)
      → All P c.votes_received
      → (r.vote_granted ≡ true → P p)
      → All P (track_vote c p r).votes_received
  unfolding track_vote
  track_vote-given c p r P all gave =
      elim (Bool-cases (r.vote_granted && not (contains c.votes_received p))) [
        | inl t ↦ rw t (All-snoc P c.votes_received p all (gave (ground (arith, t))))
        | inr f ↦ rw f all
      ]

  -- The voters of a node that a reply has made a leader.
  reply-Quorum :
      (members : List ℕ) (given : List Vote) (asked : Option ℕ) (i p term : ℕ)
      (r : RequestVoteResult) (now : Instant) (c c' : RaftCore S M)
      → Has p members
      → asked ≡ some term
      → (r.vote_granted ≡ true → Has (vote p term i) given)
      → Sound members given asked i c
      → handle_request_vote_result c p r now ≡ some (true, c')
      → Quorum members given i c'.current_term
  reply-Quorum members given asked i p term r now c c' member asks gave k h =
      let run = k.running (elected-candidate c p r now h) in
      let (_, _, distinct, enough, leads) =
        handle_request_vote_result_lem c p r now run.distinct h in
      record {
        voters = (track_vote c p r).votes_received;
        distinct = distinct;
        among = track_vote-given c p r (λ v. Has v members) run.among (λ _. member);
        votes = rw leads.term (
            track_vote-given c p r (λ v. Has (vote v c.current_term i) given) run.votes
              (λ g. rw (← run.current term asks) (gave g)));
        majority = omega (arith, enough, k.size);
      }

  pub reply-Safe :
      (members : List ℕ) (w : World S M) (i p term : ℕ) (r : RequestVoteResult) (now : Instant)
      (won : Bool) (c' : RaftCore S M)
      → Has i members
      → Has p members
      → w.asked i ≡ some term
      → (r.vote_granted ≡ true → Has (vote p term i) w.given)
      → handle_request_vote_result (w.node i) p r now ≡ some (won, c')
      → Safe members w
      → Safe members (record w {
        node = put w.node i c';
        elected = elected_by won i c'.current_term w.elected;
      })
  reply-Safe members w i p term r now won c' member member' asks gave h safe =
      let v = handle_request_vote_result-VoteStep (w.node i) p r now h in
      let counts = handle_request_vote_result-Counts (w.node i) p r now h in
      let before = safe.nodes i member in
      record {
        nodes = λ j m.
            put_all (λ j c. Has j members → Sound members w.given (w.asked j) j c) w.node i c' j
              (λ _.
                Sound-reply members w.given (w.asked i) i p term r (w.node i) c' member' asks gave v
                  counts before)
              (λ differs m. safe.nodes j m) m;
        once = safe.once;
        quorums = elected_quorums won h;
      }
    where
      elected_quorums :
          (won : Bool)
          → handle_request_vote_result (w.node i) p r now ≡ some (won, c')
          → (j t : ℕ) → Has (j, t) (elected_by won i c'.current_term w.elected)
          → Quorum members w.given j t
      elected_quorums false h j t m = safe.quorums j t m
      elected_quorums true h j t (inr m) = safe.quorums j t m
      elected_quorums true h j t (inl e) =
          rw (ap (λ x. x.0) e, ap (λ x. x.1) e)
            (reply-Quorum members w.given (w.asked i) i p term r now (w.node i) c' member' asks gave
              (safe.nodes i member) h)
