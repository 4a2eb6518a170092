-- ===== src/Node/Replies.antt =====
-- The loops of `RaftNode` over the replies of its peers, in the order in which they arrive.
use raft_vibe.Prelude.{
  ℕ, ◌+◌, ◌/◌, Bool, true, false, Option, none, some, List, [], ◌∷◌, ◌>>=◌, Result, ok, err, insert,
  ltb, leb, ◌==◌, if◌then◌else◌, add_u64, length,
}
use raft_vibe.Types.{
  follower, leader, RequestVoteResult, AppendEntriesResult, InstallSnapshotResult, success, failed,
  ApplyResult,
}
use raft_vibe.Storage.{Storage}
use raft_vibe.Machine.{Machine}
use raft_vibe.Core.State.{RaftCore, Instant}
use raft_vibe.Core.Election.{handle_request_vote_result, same_state}
use raft_vibe.Core.Leader.{handle_append_entries_result}

-- src/transport/traits.rs
pub data TransportError : Type 0 where
  connection_failed timeout node_not_found : TransportError

-- A reply: while the task waited for it, other tasks took the lock and changed the core.
pub record Arrival (S M : Type 0) (R : Type 0) : Type 0 where
  pub meanwhile : RaftCore S M → Option (RaftCore S M)
  pub peer : ℕ
  pub reply : Result TransportError R
  pub at : Instant

-- A reply to a request of `send_heartbeat`, with the index that was sent along.
pub data Reply : Type 0 where
  append_reply : AppendEntriesResult → ℕ → Reply
  install_reply : InstallSnapshotResult → ℕ → Reply

module _ {S M : Type 0} where
  -- The three lines by which `RaftNode` itself takes over a higher term. Nothing is persisted.
  unfoldable pub adopt_term : RaftCore S M → ℕ → RaftCore S M
  adopt_term c term = record c { current_term = term; state = follower; voted_for = none }

  unfoldable pub handle_install_reply :
      RaftCore S M → ℕ → InstallSnapshotResult → ℕ → Bool × RaftCore S M
  handle_install_reply c peer_id (success term) last_included_index = (
    true,
    record c {
      next_index = insert c.next_index peer_id (add_u64 last_included_index 1);
      match_index = insert c.match_index peer_id last_included_index;
    },
  )
  handle_install_reply c peer_id (failed term reason) last_included_index =
      if ltb c.current_term term then (false, adopt_term c term) else (false, c)

  -- `confirm_leadership` after its requests are sent; `needed` is `majority_needed`.
  unfoldable pub confirm_loop :
      ℕ
      → List (Arrival S M AppendEntriesResult)
      → (RaftCore S M → Option (RaftCore S M))
      → ℕ
      → RaftCore S M
      → Option (Bool × ℕ × RaftCore S M)
  confirm_loop needed [] last count c = do c₁ ← last c; some (same_state c₁.state leader, count, c₁)
  confirm_loop needed (a ∷ rest) last count c = do
    c₁ ← a.meanwhile c
    elim a.reply [
      | err _ ↦ elim (leb needed count) [
        | true ↦ (do c₂ ← last c₁; some (same_state c₂.state leader, count, c₂))
        | false ↦ confirm_loop needed rest last count c₁
      ]
      | ok result ↦ elim (ltb c₁.current_term result.term) [
        | true ↦ some (false, count, adopt_term c₁ result.term)
        | false ↦
            let count' = if result.success then count + 1 else count in
            elim (leb needed count') [
              | true ↦ (do c₂ ← last c₁; some (same_state c₂.state leader, count', c₂))
              | false ↦ confirm_loop needed rest last count' c₁
            ]
      ]
    ]

  unfoldable pub confirm_leadership :
      List (Arrival S M AppendEntriesResult)
      → (RaftCore S M → Option (RaftCore S M))
      → RaftCore S M
      → Option (Bool × ℕ × RaftCore S M)
  confirm_leadership arrivals last c =
      if same_state c.state leader
      then confirm_loop ((length c.peers + 1) / 2) arrivals last 0 c
      else some (false, 0, c)

-- The result for `entry_index` among those that were applied: the last one, as the loop assigns.
unfoldable pub result_for : ℕ → Option ApplyResult → List (ℕ × ApplyResult) → Option ApplyResult
result_for entry_index found [] = found
result_for entry_index found ((i, r) ∷ rest) =
    result_for entry_index (if i == entry_index then some r else found) rest

module _ {S M : Type 0} ⦃st : Storage S⦄ where
  unfoldable pub vote_loop :
      List (Arrival S M RequestVoteResult) → RaftCore S M → Option (Bool × RaftCore S M)
  vote_loop [] c = some (false, c)
  vote_loop (a ∷ rest) c = do
    c₁ ← a.meanwhile c
    elim a.reply [
      | err _ ↦ vote_loop rest c₁
      | ok result ↦ (do
        (won, c₂) ← handle_request_vote_result c₁ a.peer result a.at
        elim won [ true ↦ some (true, c₂) | false ↦ vote_loop rest c₂ ])
    ]

module _ {S M : Type 0} ⦃st : Storage S⦄ ⦃sm : Machine M⦄ where
  unfoldable pub replicate_loop :
      ℕ
      → List (Arrival S M AppendEntriesResult)
      → RaftCore S M
      → Option (Option ApplyResult × RaftCore S M)
  replicate_loop entry_index [] c = some (none, c)
  replicate_loop entry_index (a ∷ rest) c = do
    c₁ ← a.meanwhile c
    elim a.reply [
      | err _ ↦ replicate_loop entry_index rest c₁
      | ok result ↦ (do
        (_, results, c₂) ← handle_append_entries_result c₁ a.peer entry_index result
        elim (result_for entry_index none results) [
          | some r ↦ some (some r, c₂)
          | none ↦ replicate_loop entry_index rest c₂
        ])
    ]

  handle_reply : RaftCore S M → ℕ → Reply → Option (Bool × RaftCore S M)
  handle_reply c peer_id (append_reply result last_entry_index) = do
    (_, _, c₁) ← handle_append_entries_result c peer_id last_entry_index result
    some (true, c₁)
  handle_reply c peer_id (install_reply result last_included_index) =
      some (handle_install_reply c peer_id result last_included_index)

  -- `send_heartbeat` after its requests are sent: the count of successes goes up by one for each
  -- reply to an AppendEntries, and for each snapshot that was installed.
  unfoldable pub heartbeat_loop :
      List (Arrival S M Reply)
      → (RaftCore S M → Option (RaftCore S M))
      → ℕ
      → RaftCore S M
      → Option (Bool × ℕ × RaftCore S M)
  unfolding handle_reply
  heartbeat_loop [] last count c = do c₁ ← last c; some (same_state c₁.state leader, count, c₁)
  heartbeat_loop (a ∷ rest) last count c = do
    c₁ ← a.meanwhile c
    elim a.reply [
      | err _ ↦ heartbeat_loop rest last count c₁
      | ok reply ↦ (do
        (counted, c₂) ← handle_reply c₁ a.peer reply
        heartbeat_loop rest last (if counted then count + 1 else count) c₂)
    ]

  unfoldable pub send_heartbeat :
      List (Arrival S M Reply)
      → (RaftCore S M → Option (RaftCore S M))
      → RaftCore S M
      → Option (Bool × ℕ × RaftCore S M)
  send_heartbeat arrivals last c =
      if same_state c.state leader then heartbeat_loop arrivals last 0 c else some (false, 0, c)
