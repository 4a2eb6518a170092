-- ===== src/Cluster/World.antt =====
-- Several nodes that run src/core/raft_core.rs, the votes that they have sent each other, and what
-- can happen next.
use raft_vibe.Prelude.{
  ℕ, ◌+◌, ◌<◌, ◌≡◌, String, Bool, true, Option, none, some, List, ◌∷◌, ◌==◌, u64_mod, if◌then◌else◌,
  Has,
}
use raft_vibe.Types.{
  LogEntry, RequestVoteArgs, RequestVoteResult, AppendEntriesArgs, AppendEntriesResult,
  HandleAppendEntriesOutput, InstallSnapshotArgs, InstallSnapshotResult, ApplyResult,
}
use raft_vibe.Storage.{Storage}
use raft_vibe.Machine.{Machine}
use raft_vibe.Core.State.{RaftCore, Instant, new}
use raft_vibe.Core.Apply.{take_snapshot}
use raft_vibe.Core.Append.{handle_append_entries}
use raft_vibe.Core.Install.{handle_install_snapshot}
use raft_vibe.Core.Election.{handle_request_vote, start_election, handle_request_vote_result}
use raft_vibe.Core.Leader.{append_log_entry, handle_append_entries_result}

-- A vote that `voter` has given to `candidate_id` in the term.
pub record Vote : Type 0 where
  pub voter : ℕ
  pub term : ℕ
  pub candidate_id : ℕ

-- The cores by their ids; the term of the requests that are out in a node's call of
-- `RaftNode::request_votes`; all votes that were ever given; and each node that an election has made
-- a leader, with the term.
pub record World (S M : Type 0) : Type 0 where
  pub node : ℕ → RaftCore S M
  pub asked : ℕ → Option ℕ
  pub given : List Vote
  pub elected : List (ℕ × ℕ)

abbrev pub put : {A : Type 0} → (ℕ → A) → ℕ → A → ℕ → A
put f i a j = if j == i then a else f j

abbrev pub given_by : Bool → ℕ → RequestVoteArgs → List Vote → List Vote
given_by granted voter req given =
    if granted
    then record { voter = voter; term = req.term; candidate_id = req.candidate_id } ∷ given
    else given

abbrev pub elected_by : Bool → ℕ → ℕ → List (ℕ × ℕ) → List (ℕ × ℕ)
elected_by won i term elected = if won then (i, term) ∷ elected else elected

module _ {S M : Type 0} ⦃st : Storage S⦄ ⦃sm : Machine M⦄ where
  -- A call that concerns no election.
  pub data Other (c c' : RaftCore S M) : Type 0 where
    append_entries :
        (req : AppendEntriesArgs) (now : Instant) (o : HandleAppendEntriesOutput)
        → handle_append_entries c req now ≡ some (o, c')
        → Other c c'
    install_snapshot :
        (args : InstallSnapshotArgs) (now : Instant) (r : InstallSnapshotResult)
        → handle_install_snapshot c args now ≡ some (r, c')
        → Other c c'
    append_result :
        (peer_id entry_index : ℕ) (r : AppendEntriesResult) (committed : Option ℕ)
        (results : List (ℕ × ApplyResult))
        → handle_append_entries_result c peer_id entry_index r ≡ some (committed, results, c')
        → Other c c'
    client_command :
        (command : String) (entry : Option LogEntry)
        → append_log_entry c command ≡ some (entry, c')
        → Other c c'
    own_snapshot : c' ≡ (take_snapshot c).1 → Other c c'

  -- One step of a node of the cluster. Requests for votes are those of any node, known or not. A
  -- node's candidacy is a vote for itself. `request_votes` takes the term of its requests when it
  -- is called, and takes replies to these requests only: the run loop does not start an election
  -- before the call has returned, and a restart ends it. The places where
  -- `RaftNode` itself takes over a term without storing it are no steps.
  pub data ClusterStep (members : List ℕ) (w : World S M) : World S M → Type 0 where
    other :
        (i : ℕ) (c' : RaftCore S M)
        → Has i members
        → Other (w.node i) c'
        → ClusterStep members w (record w { node = put w.node i c' })
    request_vote :
        (i : ℕ) (req : RequestVoteArgs) (r : RequestVoteResult) (c' : RaftCore S M)
        → Has i members
        → handle_request_vote (w.node i) req ≡ some (r, c')
        → ClusterStep members w
            (record w { node = put w.node i c'; given = given_by r.vote_granted i req w.given })
    election :
        (i : ℕ) (now : Instant) (c' : RaftCore S M)
        → Has i members
        → (w.node i).current_term + 1 < u64_mod
        → start_election (w.node i) now ≡ some c'
        → ClusterStep members w (record w {
          node = put w.node i c';
          asked = put w.asked i none;
          given = record { voter = i; term = c'.current_term; candidate_id = i } ∷ w.given;
        })
    request_votes :
        (i : ℕ)
        → Has i members
        → ClusterStep members w (record w { asked = put w.asked i (some (w.node i).current_term) })
    reply :
        (i p term : ℕ) (r : RequestVoteResult) (now : Instant) (won : Bool) (c' : RaftCore S M)
        → Has i members
        → Has p members
        → w.asked i ≡ some term
        → (r.vote_granted ≡ true
            → Has (record { voter = p; term = term; candidate_id = i }) w.given)
        → handle_request_vote_result (w.node i) p r now ≡ some (won, c')
        → ClusterStep members w (record w {
          node = put w.node i c';
          elected = elected_by won i c'.current_term w.elected;
        })
    restart :
        (i : ℕ) (machine : M) (now : Instant) (c' : RaftCore S M)
        → Has i members
        → new (w.node i).id (w.node i).peers (w.node i).storage machine now ≡ some c'
        → ClusterStep members w (record w { node = put w.node i c'; asked = put w.asked i none })

  -- Any sequence of such steps.
  pub data Run (members : List ℕ) (w : World S M) : World S M → Type 0 where
    here : Run members w w
    next : {v u : World S M} → Run members w v → ClusterStep members v u → Run members w u
