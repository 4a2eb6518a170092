-- ===== src/Api/Handlers.antt =====
-- The handlers of src/api/client_http.rs. A handler sends its request to the server's task and waits
-- for the answer, so here it runs what the task does with it.
use Prim.Native.String.{◌++◌}
use raft_vibe.Prelude.{
  ℕ, String, Bool, Option, none, some, true, List, ◌>>=◌, Result, ok, err, length,
}
use raft_vibe.Types.{RaftState, leader, AppendEntriesResult}
use raft_vibe.Storage.{Storage}
use raft_vibe.Machine.{Machine}
use raft_vibe.Machine.Kv.{KeyValueStore, get}
use raft_vibe.Core.State.{RaftCore}
use raft_vibe.Core.Election.{same_state}
use raft_vibe.Node.Replies.{Arrival}
use raft_vibe.Node.Server.{
  RaftError, not_leader, not_committed, invalid_command, state_machine, transport, read_timeout,
  Others, submit, read_index,
}

pub data StatusCode : Type 0 where
  service_unavailable bad_request internal_server_error : StatusCode

-- The error's text; `unexpected` stands for the text that `{:?}` gives an error.
pub data Message : Type 0 where
  text : String → Message
  unexpected : RaftError → Message

pub record ErrorResponse : Type 0 where
  pub error : Message
  pub leader_hint : Option ℕ

pub record SubmitResponse : Type 0 where
  pub result : String

pub record KvMutationResponse : Type 0 where
  pub key : String
  pub success : Bool

pub record KvGetResponse : Type 0 where
  pub key : String
  pub value : Option String

pub record LeaderResponse : Type 0 where
  pub leader_id : Option ℕ
  pub node_id : ℕ
  pub is_leader : Bool

pub record StatusResponse : Type 0 where
  pub node_id : ℕ
  pub state : RaftState
  pub term : ℕ
  pub leader_id : Option ℕ
  pub commit_index : ℕ
  pub last_applied : ℕ
  pub log_length : ℕ

abbrev pub Refusal : Type 0
Refusal = StatusCode × ErrorResponse

abbrev refusal : StatusCode → String → Option ℕ → Refusal
refusal status error leader_hint =
    (status, record { error = text error; leader_hint = leader_hint })

-- The error arms that `handle_submit`, `handle_kv_set` and `handle_kv_delete` share.
unfoldable pub submit_refusal : RaftError → Refusal
submit_refusal (not_leader leader_hint) = refusal service_unavailable "Not the leader" leader_hint
submit_refusal not_committed =
    refusal service_unavailable "Entry not committed (couldn't reach majority)" none
submit_refusal (invalid_command e) = refusal bad_request ("Invalid command: " ++ e) none
submit_refusal (state_machine e) = refusal bad_request ("State machine error: " ++ e) none
submit_refusal (transport e) = refusal internal_server_error "Transport error" none
submit_refusal read_timeout = refusal service_unavailable "Read timeout" none

-- The error arms of `handle_kv_get`.
unfoldable pub read_refusal : RaftError → Refusal
read_refusal (not_leader leader_hint) = refusal service_unavailable "Not the leader" leader_hint
read_refusal read_timeout =
    refusal service_unavailable "Read timeout (leadership confirmation or apply timeout)" none
read_refusal e = (internal_server_error, record { error = unexpected e; leader_hint = none })

abbrev pub answer : {A B : Type 0} → (A → B) → Result RaftError A → Result Refusal B
answer f (ok a) = ok (f a)
answer f (err e) = err (submit_refusal e)

-- `format!("SET {} {}", key, value)` and `format!("DELETE {}", key)`
abbrev pub set_command : String → String → String
set_command key value = "SET " ++ (key ++ (" " ++ value))

abbrev pub delete_command : String → String
delete_command key = "DELETE " ++ key

module _ {S M : Type 0} ⦃st : Storage S⦄ ⦃sm : Machine M⦄ where
  unfoldable pub handle_submit :
      Bool
      → String
      → List (Arrival S M AppendEntriesResult)
      → RaftCore S M
      → Option (Result Refusal SubmitResponse × RaftCore S M)
  handle_submit delivered command arrivals c = do
    (outcome, c₁) ← submit delivered command arrivals c
    some (answer (λ r. record { result = r }) outcome, c₁)

  unfoldable pub handle_kv_set :
      Bool
      → String
      → String
      → List (Arrival S M AppendEntriesResult)
      → RaftCore S M
      → Option (Result Refusal KvMutationResponse × RaftCore S M)
  handle_kv_set delivered key value arrivals c = do
    (outcome, c₁) ← submit delivered (set_command key value) arrivals c
    some (answer (λ _. record { key = key; success = true }) outcome, c₁)

  unfoldable pub handle_kv_delete :
      Bool
      → String
      → List (Arrival S M AppendEntriesResult)
      → RaftCore S M
      → Option (Result Refusal KvMutationResponse × RaftCore S M)
  handle_kv_delete delivered key arrivals c = do
    (outcome, c₁) ← submit delivered (delete_command key) arrivals c
    some (answer (λ _. record { key = key; success = true }) outcome, c₁)

module _ {S : Type 0} ⦃st : Storage S⦄ ⦃sm : Machine KeyValueStore⦄ where
  -- Step 2. The store is the state machine of the node, shared: others may change it before the
  -- handler has its lock.
  unfoldable pub read_value :
      String
      → Others S KeyValueStore
      → Result RaftError ℕ
      → RaftCore S KeyValueStore
      → Option (Result Refusal KvGetResponse × RaftCore S KeyValueStore)
  read_value key unlocked (err e) c = some (err (read_refusal e), c)
  read_value key unlocked (ok _) c = do
    c₁ ← unlocked c
    some (ok (record { key = key; value = get c₁.state_machine key }), c₁)

  unfoldable pub handle_kv_get :
      Bool
      → String
      → (before : Others S KeyValueStore) → List (Arrival S KeyValueStore AppendEntriesResult)
      → (last between : Others S KeyValueStore) → List (Others S KeyValueStore)
      → (unlocked : Others S KeyValueStore) → RaftCore S KeyValueStore
      → Option (Result Refusal KvGetResponse × RaftCore S KeyValueStore)
  handle_kv_get delivered key before arrivals last between waits unlocked c = do
    (outcome, c₁) ← read_index delivered before arrivals last between waits c
    read_value key unlocked outcome c₁

module _ {S M : Type 0} where
  -- `handle_leader_core`; `handle_leader` and `handle_leader_kv` have the same body.
  unfoldable pub handle_leader : RaftCore S M → LeaderResponse
  handle_leader c = record {
    leader_id = c.current_leader;
    node_id = c.id;
    is_leader = same_state c.state leader;
  }

  -- `handle_status_core`; `handle_status` and `handle_status_kv` have the same body.
  unfoldable pub handle_status : RaftCore S M → StatusResponse
  handle_status c = record {
    node_id = c.id;
    state = c.state;
    term = c.current_term;
    leader_id = c.current_leader;
    commit_index = c.commit_index;
    last_applied = c.last_applied;
    log_length = length c.log;
  }
