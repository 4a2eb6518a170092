-- ===== src/Core/Step.antt =====
-- What one node does: a call of a method of `RaftCore`, or a crash and a restart from its storage.
use raft_vibe.Prelude.{ℕ, ◌+◌, ◌<◌, ◌≡◌, String, Bool, Option, some, List, u64_mod}
use raft_vibe.Types.{
  LogEntry, RequestVoteArgs, RequestVoteResult, AppendEntriesArgs, AppendEntriesResult,
  HandleAppendEntriesOutput, InstallSnapshotArgs, InstallSnapshotResult, ApplyResult,
}
use raft_vibe.Storage.{Storage}
use raft_vibe.Machine.{Machine}
use raft_vibe.Core.State.{RaftCore, Instant, new}
use raft_vibe.Core.Apply.{take_snapshot}
use raft_vibe.Core.Append.{handle_append_entries}
use raft_vibe.Core.Install.{handle_install_snapshot}
use raft_vibe.Core.Election.{handle_request_vote, start_election, handle_request_vote_result}
use raft_vibe.Core.Leader.{append_log_entry, handle_append_entries_result}

module _ {S M : Type 0} ⦃st : Storage S⦄ ⦃sm : Machine M⦄ where
  -- A call that returns. An election wants a term that can still be raised by one.
  pub data Step (c c' : RaftCore S M) : Type 0 where
    request_vote :
        (req : RequestVoteArgs) (r : RequestVoteResult)
        → handle_request_vote c req ≡ some (r, c')
        → Step c c'
    append_entries :
        (req : AppendEntriesArgs) (now : Instant) (o : HandleAppendEntriesOutput)
        → handle_append_entries c req now ≡ some (o, c')
        → Step c c'
    install_snapshot :
        (args : InstallSnapshotArgs) (now : Instant) (r : InstallSnapshotResult)
        → handle_install_snapshot c args now ≡ some (r, c')
        → Step c c'
    election :
        (now : Instant) → c.current_term + 1 < u64_mod → start_election c now ≡ some c' → Step c c'
    vote_result :
        (peer_id : ℕ) (r : RequestVoteResult) (now : Instant) (won : Bool)
        → handle_request_vote_result c peer_id r now ≡ some (won, c')
        → Step c c'
    append_result :
        (peer_id entry_index : ℕ) (r : AppendEntriesResult) (committed : Option ℕ)
        (results : List (ℕ × ApplyResult))
        → handle_append_entries_result c peer_id entry_index r ≡ some (committed, results, c')
        → Step c c'
    client_command :
        (command : String) (entry : Option LogEntry)
        → append_log_entry c command ≡ some (entry, c')
        → Step c c'
    own_snapshot : c' ≡ (take_snapshot c).1 → Step c c'
    restart :
        (machine : M) (now : Instant) → new c.id c.peers c.storage machine now ≡ some c' → Step c c'

  -- Any sequence of such steps.
  pub data Reach (c : RaftCore S M) : RaftCore S M → Type 0 where
    here : Reach c c
    next : {d e : RaftCore S M} → Reach c d → Step d e → Reach c e
