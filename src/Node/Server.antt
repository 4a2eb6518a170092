-- ===== src/Node/Server.antt =====
-- `handle_submit` and `handle_read_index` of src/core/raft_server.rs.
use raft_vibe.Prelude.{
  ℕ, ◌+◌, ◌/◌, String, Bool, Option, none, some, List, [], ◌∷◌, ◌>>=◌, Result, ok, err, length, ltb,
  leb, if◌then◌else◌,
}
use raft_vibe.Types.{leader, AppendEntriesResult, ApplyResult}
use raft_vibe.Storage.{Storage}
use raft_vibe.Machine.{Machine}
use raft_vibe.Core.State.{RaftCore}
use raft_vibe.Core.Election.{same_state}
use raft_vibe.Core.Leader.{validate_command, append_log_entry}
use raft_vibe.Node.Replies.{Arrival, TransportError, replicate_loop, confirm_leadership}

pub data RaftError : Type 0 where
  not_leader : (leader_hint : Option ℕ) → RaftError
  not_committed : RaftError
  invalid_command state_machine : String → RaftError
  transport : TransportError → RaftError
  read_timeout : RaftError

abbrev pub submit_outcome : Option ApplyResult → Result RaftError String
submit_outcome none = err not_committed
submit_outcome (some (ok r)) = ok r
submit_outcome (some (err e)) = err (state_machine e)

module _ {S M : Type 0} ⦃st : Storage S⦄ ⦃sm : Machine M⦄ where
  unfoldable pub replicated :
      String
      → List (Arrival S M AppendEntriesResult)
      → RaftCore S M
      → Option (Result RaftError String × RaftCore S M)
  replicated command arrivals c = do
    (appended, c₁) ← append_log_entry c command
    elim appended [
      | none ↦ some (err (not_leader none), c₁)
      | some entry ↦ (do
        (outcome, c₂) ← replicate_loop entry.index arrivals c₁
        some (submit_outcome outcome, c₂))
    ]

  unfoldable pub handle_submit :
      String
      → List (Arrival S M AppendEntriesResult)
      → RaftCore S M
      → Option (Result RaftError String × RaftCore S M)
  unfolding replicated
  handle_submit command arrivals c =
      if same_state c.state leader
      then elim (validate_command c command) [
        | err e ↦ some (err (invalid_command e), c)
        | ok _ ↦ replicated command arrivals c
      ]
      else some (err (not_leader c.current_leader), c)

-- What other tasks do to the core between two locks of this one.
abbrev pub Others : Type 0 → Type 0 → Type 0
Others S M = RaftCore S M → Option (RaftCore S M)

module _ {S M : Type 0} where
  unfoldable pub poll_state : ℕ → RaftCore S M → Option (Result RaftError ℕ)
  poll_state read_index c =
      if same_state c.state leader
      then if leb read_index c.last_applied then some (ok c.last_applied) else none
      else some (err (not_leader c.current_leader))

  -- Step 3: the core is looked at, and again after each wait until five seconds have passed. The
  -- list holds a wait for each further look.
  unfoldable pub poll_loop :
      ℕ → List (Others S M) → RaftCore S M → Option (Result RaftError ℕ × RaftCore S M)
  unfolding poll_state
  poll_loop read_index [] c = elim (poll_state read_index c) [
    | some r ↦ some (r, c)
    | none ↦ some (err read_timeout, c)
  ]
  poll_loop read_index (w ∷ ws) c = elim (poll_state read_index c) [
    | some r ↦ some (r, c)
    | none ↦ (do c₁ ← w c; poll_loop read_index ws c₁)
  ]

  -- Steps 2 and 3, from the outcome of `confirm_leadership`.
  unfoldable pub after_confirm :
      ℕ
      → ℕ
      → List (Others S M)
      → Bool
      → ℕ
      → RaftCore S M
      → Option (Result RaftError ℕ × RaftCore S M)
  unfolding poll_loop
  after_confirm read_index num_peers waits still_leader success_count c =
      if still_leader
      then if ltb (success_count + 1) ((num_peers + 1) / 2 + 1)
        then some (err read_timeout, c)
        else poll_loop read_index waits c
      else some (err (not_leader c.current_leader), c)

  -- Between step 1 and `confirm_leadership` the lock is released, and `before` is what others do then.
  unfoldable pub handle_read_index :
      (before : Others S M)
      → List (Arrival S M AppendEntriesResult)
      → (last between : Others S M) → List (Others S M)
      → RaftCore S M
      → Option (Result RaftError ℕ × RaftCore S M)
  unfolding after_confirm
  handle_read_index before arrivals last between waits c =
      if same_state c.state leader
      then (do
        c₀ ← before c
        (still_leader, success_count, c₁) ← confirm_leadership arrivals last c₀
        c₂ ← between c₁
        after_confirm c.commit_index (length c.peers) waits still_leader success_count c₂)
      else some (err (not_leader c.current_leader), c)

-- `RaftHandle`: a command goes to the server's task over a channel. `delivered` is false where the
-- task has stopped, and the command then has no effect. A reply is lost only where the task panics.
module _ {S M : Type 0} ⦃st : Storage S⦄ ⦃sm : Machine M⦄ where
  unfoldable pub submit :
      (delivered : Bool)
      → String
      → List (Arrival S M AppendEntriesResult)
      → RaftCore S M
      → Option (Result RaftError String × RaftCore S M)
  submit delivered command arrivals c =
      if delivered then handle_submit command arrivals c else some (err (not_leader none), c)

  unfoldable pub read_index :
      (delivered : Bool)
      → (before : Others S M) → List (Arrival S M AppendEntriesResult)
      → (last between : Others S M) → List (Others S M)
      → RaftCore S M
      → Option (Result RaftError ℕ × RaftCore S M)
  read_index delivered before arrivals last between waits c =
      if delivered
      then handle_read_index before arrivals last between waits c
      else some (err (not_leader none), c)
