-- ===== src/Node/Request.antt =====
-- The requests that `RaftNode` builds under the lock.
use raft_vibe.Prelude.{
  ℕ, ◌-◌, ◌&&◌, Option, none, some, List, [], ◌∷◌, Result, ok, err, get_elem?, last?, retain,
  lookup_or, ltb, leb, ◌==◌, if◌then◌else◌, sub_u64,
}
use raft_vibe.Types.{
  LogEntry, RequestVoteArgs, AppendEntriesArgs, InstallSnapshotArgs, Snapshot, StorageError,
}
use raft_vibe.Storage.{Storage}
use raft_vibe.Core.State.{RaftCore}
use raft_vibe.Core.Query.{last_log_index, last_log_term}
use raft_vibe.Core.Apply.{load_snapshot}

-- What `send_heartbeat` sends to a peer. The number is `last_entry_index`.
pub data Request : Type 0 where
  append_entries : AppendEntriesArgs → ℕ → Request
  install_snapshot : InstallSnapshotArgs → Request

abbrev pub term_or_zero : Option LogEntry → ℕ
term_or_zero none = 0
term_or_zero (some e) = e.term

abbrev pub index_or_zero : Option LogEntry → ℕ
index_or_zero none = 0
index_or_zero (some e) = e.index

module _ {S M : Type 0} where
  unfoldable pub vote_args : RaftCore S M → RequestVoteArgs
  vote_args c = record {
    term = c.current_term;
    candidate_id = c.id;
    last_log_index = last_log_index c;
    last_log_term = last_log_term c;
  }

  abbrev pub next_of : RaftCore S M → ℕ → ℕ
  next_of c peer_id = lookup_or c.next_index peer_id 1

  unfoldable pub prev_term : RaftCore S M → ℕ → ℕ
  prev_term c prev_log_index =
      if prev_log_index == c.snapshot_last_index
      then c.snapshot_last_term
      else if prev_log_index == 0
      then 0
      else if ltb c.snapshot_last_index prev_log_index
      then term_or_zero (get_elem? c.log (prev_log_index - c.snapshot_last_index - 1))
      else 0

  abbrev pub append_args : RaftCore S M → ℕ → List LogEntry → AppendEntriesArgs
  append_args c next_idx entries = record {
    term = c.current_term;
    leader_id = c.id;
    prev_log_index = sub_u64 next_idx 1;
    prev_log_term = prev_term c (sub_u64 next_idx 1);
    entries = entries;
    leader_commit = c.commit_index;
  }

  -- `replicate_to_peers`, for one peer.
  unfoldable pub replicate_args : RaftCore S M → ℕ → ℕ → AppendEntriesArgs
  replicate_args c entry_index peer_id =
      append_args c (next_of c peer_id)
        (retain (λ e. leb (next_of c peer_id) e.index && leb e.index entry_index) c.log)

  unfoldable pub replicate_requests : RaftCore S M → ℕ → List ℕ → List (ℕ × AppendEntriesArgs)
  replicate_requests c entry_index [] = []
  replicate_requests c entry_index (p ∷ ps) =
      (p, replicate_args c entry_index p) ∷ replicate_requests c entry_index ps

  -- `confirm_leadership`, for one peer: no entries.
  unfoldable pub confirm_args : RaftCore S M → ℕ → AppendEntriesArgs
  confirm_args c peer_id = append_args c (next_of c peer_id) []

  unfoldable pub heartbeat_append : RaftCore S M → ℕ → Request
  heartbeat_append c next_idx =
      let entries = retain (λ e. leb next_idx e.index) c.log in
      append_entries (append_args c next_idx entries) (index_or_zero (last? entries))

  unfoldable pub heartbeat_install : RaftCore S M → Snapshot → Request
  heartbeat_install c snapshot = install_snapshot (record {
    term = c.current_term;
    leader_id = c.id;
    last_included_index = snapshot.metadata.last_included_index;
    last_included_term = snapshot.metadata.last_included_term;
    data_bytes = snapshot.data_bytes;
  })

-- `if let Ok(Some(snapshot))`
abbrev loaded : Result StorageError (Option Snapshot) → Option Snapshot
loaded (ok snapshot) = snapshot
loaded (err e) = none

module _ {S M : Type 0} ⦃st : Storage S⦄ where
  -- The request of `send_heartbeat` to one peer; `none` where the snapshot cannot be loaded.
  unfoldable pub heartbeat_request : RaftCore S M → ℕ → Option Request
  heartbeat_request c peer_id =
      if leb (next_of c peer_id) c.snapshot_last_index
      then elim (loaded (load_snapshot c)) [
        | none ↦ none
        | some snapshot ↦ some (heartbeat_install c snapshot)
      ]
      else some (heartbeat_append c (next_of c peer_id))

  unfoldable pub heartbeat_requests : RaftCore S M → List ℕ → List (ℕ × Request)
  heartbeat_requests c [] = []
  heartbeat_requests c (p ∷ ps) = elim (heartbeat_request c p) [
    | none ↦ heartbeat_requests c ps
    | some r ↦ (p, r) ∷ heartbeat_requests c ps
  ]
