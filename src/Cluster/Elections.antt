-- ===== src/Cluster/Elections.antt =====
-- Elections of the nodes of src/core/raft_core.rs as `RaftNode::request_votes` runs them: at most
-- one leader in a term.
use raft_vibe.Prelude.{ℕ, ◌+◌, ◌≡◌, sym, ◌∙◌, List, [], length, arith, Has, All-Has}
use raft_vibe.Types.{follower}
use raft_vibe.Storage.{Storage}
use raft_vibe.Storage.VoteLaws.{VoteLaws}
use raft_vibe.Machine.{Machine}
use raft_vibe.Core.State.{RaftCore}
use raft_vibe.Core.VoteSafety.{IsDurable, VoteStep}
use raft_vibe.Core.VoteSteps.{append_log_entry-Frame}
use raft_vibe.Core.FollowerSteps.{
  handle_append_entries-VoteStep, handle_install_snapshot-VoteStep,
  handle_append_entries_result-VoteStep,
}
use raft_vibe.Core.VoteSafety.{Frame-VoteStep}
use raft_vibe.Core.Frame.{take_snapshot-Frame}
use raft_vibe.Core.OneVote.{restart-VoteStep}
use raft_vibe.Core.Calm.{
  Calm, handle_append_entries-Calm, handle_install_snapshot-Calm, handle_append_entries_result-Calm,
  append_log_entry-Calm, take_snapshot-Calm, new-Calm,
}
use raft_vibe.Cluster.Quorum.{share}
use raft_vibe.Cluster.World.{
  World, Other, append_entries, install_snapshot, append_result, client_command, own_snapshot,
  ClusterStep, other, request_vote, election, request_votes, reply, restart, Run, here, next,
}
use raft_vibe.Cluster.Voting.{vote}
use raft_vibe.Cluster.VoteSteps.{
  other-Safe, request_vote-Safe, election-Safe, restart-Safe, request_votes-Safe,
}
use raft_vibe.Cluster.Replies.{reply-Safe}
use raft_vibe.Cluster.Safety.{Quorum, Safe}

module _ {S M : Type 0} ⦃st : Storage S⦄ ⦃sm : Machine M⦄ ⦃laws : VoteLaws S⦄ where
  Other-VoteStep : {c c' : RaftCore S M} → Other c c' → VoteStep c c'
  Other-VoteStep {c} (append_entries req now o h) = handle_append_entries-VoteStep c req now h
  Other-VoteStep {c} (install_snapshot args now r h) = handle_install_snapshot-VoteStep c args now h
  Other-VoteStep {c} (append_result p i r o rs h) = handle_append_entries_result-VoteStep c p i r h
  Other-VoteStep {c} (client_command command e h) =
      Frame-VoteStep (append_log_entry-Frame c command h)
  Other-VoteStep {c} (own_snapshot e) = rw e (Frame-VoteStep (take_snapshot-Frame c))

  Other-Calm : {c c' : RaftCore S M} → Other c c' → Calm c c'
  Other-Calm {c} (append_entries req now o h) = handle_append_entries-Calm c req now h
  Other-Calm {c} (install_snapshot args now r h) = handle_install_snapshot-Calm c args now h
  Other-Calm {c} (append_result p i r o rs h) = handle_append_entries_result-Calm c p i r h
  Other-Calm {c} (client_command command e h) = append_log_entry-Calm c command h
  Other-Calm {c} (own_snapshot e) = rw e (take_snapshot-Calm c)

  -- Two nodes that majorities have elected in a term are one.
  same_candidate :
      (members : List ℕ) (w : World S M) (i j term : ℕ)
      → Safe members w
      → Quorum members w.given i term
      → Quorum members w.given j term
      → i ≡ j
  same_candidate members w i j term safe q q' =
      let (v, h, h') =
        share q.voters q'.voters members q.distinct q'.distinct q.among q'.among
          (omega (arith, q.majority, q'.majority)) in
      safe.once v term i j (All-Has (λ v. Has (vote v term i) w.given) q.voters v q.votes h)
        (All-Has (λ v. Has (vote v term j) w.given) q'.voters v q'.votes h')

  ClusterStep-Safe :
      (members : List ℕ) {w w' : World S M}
      → ClusterStep members w w'
      → Safe members w
      → Safe members w'
  ClusterStep-Safe members {w} (other i c' m o) safe =
      other-Safe members w i c' m (Other-VoteStep o) (Other-Calm o) safe
  ClusterStep-Safe members {w} (request_vote i req r c' m h) safe =
      request_vote-Safe members w i req r c' m h safe
  ClusterStep-Safe members {w} (election i now c' m room h) safe =
      election-Safe members w i now c' m room h safe
  ClusterStep-Safe members {w} (request_votes i m) safe = request_votes-Safe members w i safe
  ClusterStep-Safe members {w} (reply i p term r now won c' m m' asks gave h) safe =
      reply-Safe members w i p term r now won c' m m' asks gave h safe
  ClusterStep-Safe members {w} (restart i machine now c' m h) safe =
      restart-Safe members w i c' m
        (restart-VoteStep (w.node i) machine now (safe.nodes i m).durable h)
        (new-Calm (w.node i) machine now h) safe

  Run-Safe :
      (members : List ℕ) {w w' : World S M} → Run members w w' → Safe members w → Safe members w'
  Run-Safe members here safe = safe
  Run-Safe members (next run step) safe = ClusterStep-Safe members step (Run-Safe members run safe)

  -- A cluster before the first election: durable followers under their ids, each with as many peers
  -- as there are other members.
  pub record Initial (members : List ℕ) (w : World S M) : Type 0 where
    pub durable : (i : ℕ) → Has i members → IsDurable (w.node i)
    pub id : (i : ℕ) → Has i members → (w.node i).id ≡ i
    pub size : (i : ℕ) → Has i members → length (w.node i).peers + 1 ≡ length members
    pub followers : (i : ℕ) → Has i members → (w.node i).state ≡ follower
    pub no_votes : w.given ≡ []
    pub no_leaders : w.elected ≡ []

  Initial-Safe : (members : List ℕ) (w : World S M) → Initial members w → Safe members w
  Initial-Safe members w init = record {
    nodes = λ i m. record {
      durable = init.durable i m;
      id = init.id i m;
      size = init.size i m;
      kept = λ term x h. absurd (rw init.no_votes at h);
      running = λ s. absurd (ground (arith, sym (init.followers i m) ∙ s));
    };
    once = λ v term x y h. absurd (rw init.no_votes at h);
    quorums = λ i term h. absurd (rw init.no_leaders at h);
  }

  -- Election safety: over storages that keep the term and the vote they are given, in a cluster that
  -- starts with durable followers, along any interleaving of calls of the cores' methods, requests
  -- for votes, replies that are lost, delayed or repeated within a call of `request_votes`, crashes
  -- and restarts, at most one node is elected in a term. The two places where `RaftNode` takes over
  -- a term without storing it are left out.
  pub election_safety :
      (members : List ℕ) {w w' : World S M}
      → Initial members w
      → Run members w w'
      → (i j term : ℕ) → Has (i, term) w'.elected
      → Has (j, term) w'.elected
      → i ≡ j
  election_safety members {w} {w'} init run i j term a b =
      let safe = Run-Safe members run (Initial-Safe members w init) in
      same_candidate members w' i j term safe (safe.quorums i term a) (safe.quorums j term b)
