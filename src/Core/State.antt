-- ===== src/Core/State.antt =====
-- The struct `RaftCore` and `RaftCore::new`.
use raft_vibe.Prelude.{ℕ, Option, none, some, List, [], ◌>>=◌, Assoc, expect, expect_value}
use raft_vibe.Types.{LogEntry, RaftState, follower, Snapshot}
use raft_vibe.Storage.{Storage}
use raft_vibe.Machine.{Machine}

-- A reading of the clock (`Instant`). Methods that call `Instant::now()` take it as an argument.
abbrev pub Instant : Type 0
Instant = ℕ

pub record RaftCore (S M : Type 0) : Type 0 where
  pub storage : S
  pub state_machine : M
  pub current_term : ℕ
  pub voted_for : Option ℕ
  pub log : List LogEntry
  pub snapshot_last_index : ℕ
  pub snapshot_last_term : ℕ
  pub commit_index : ℕ
  pub last_applied : ℕ
  pub next_index : Assoc
  pub match_index : Assoc
  pub id : ℕ
  pub state : RaftState
  pub peers : List ℕ
  pub votes_received : List ℕ
  pub current_leader : Option ℕ
  pub last_heartbeat : Instant
  pub snapshot_threshold : ℕ

module _ {M : Type 0} ⦃sm : Machine M⦄ where
  -- The boundary of the snapshot, with the state machine restored from it.
  unfoldable pub restored : Option Snapshot → M → Option (ℕ × ℕ × M)
  restored none m = some (0, 0, m)
  restored (some s) m = do
    m' ← expect (sm.restore m s.data_bytes)
    some (s.metadata.last_included_index, s.metadata.last_included_term, m')

module _ {S M : Type 0} ⦃st : Storage S⦄ ⦃sm : Machine M⦄ where
  -- `RaftCore::new`; `none` is a panic.
  unfoldable pub new : ℕ → List ℕ → S → M → Instant → Option (RaftCore S M)
  unfolding restored
  new id peers storage machine now = do
    term ← expect_value (st.load_term storage)
    vote ← expect_value (st.load_voted_for storage)
    log ← expect_value (st.load_log storage)
    snapshot ← expect_value (st.load_snapshot storage)
    (last_index, last_term, machine') ← restored snapshot machine
    some (record {
      storage = storage;
      state_machine = machine';
      current_term = term;
      voted_for = vote;
      log = log;
      snapshot_last_index = last_index;
      snapshot_last_term = last_term;
      commit_index = last_index;
      last_applied = last_index;
      next_index = [];
      match_index = [];
      id = id;
      state = follower;
      peers = peers;
      votes_received = [];
      current_leader = none;
      last_heartbeat = now;
      snapshot_threshold = 1000;
    })

  unfoldable pub set_snapshot_threshold : RaftCore S M → ℕ → RaftCore S M
  set_snapshot_threshold c threshold = record c { snapshot_threshold = threshold }
