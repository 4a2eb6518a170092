-- ===== src/Core/Election.antt =====
-- Votes: `handle_request_vote`, `start_election`, `become_leader`, `handle_request_vote_result`.
use raft_vibe.Prelude.{
  ℕ, ◌+◌, ◌/◌, Bool, true, false, ◌&&◌, not, Option, none, some, List, [], ◌∷◌, ◌++◌, ◌>>=◌, length,
  ltb, leb, ◌==◌, same_option, if◌then◌else◌, add_u64, insert, Assoc,
}
use raft_vibe.Types.{
  RaftState, follower, candidate, leader, RequestVoteArgs, RequestVoteResult, noop_command,
}
use raft_vibe.Storage.{Storage}
use raft_vibe.Core.State.{RaftCore, Instant}
use raft_vibe.Core.Persist.{set_term, set_voted_for, persist_log_entry}
use raft_vibe.Core.Query.{last_log_index, is_log_up_to_date}
use raft_vibe.Core.Append.{step_down_if_newer}

-- `==` on `RaftState`.
abbrev pub same_state : RaftState → RaftState → Bool
same_state follower follower = true
same_state candidate candidate = true
same_state leader leader = true
same_state _ _ = false

-- `Vec::contains`
unfoldable pub contains : List ℕ → ℕ → Bool
contains [] a = false
contains (x ∷ xs) a = let rest = contains xs a in if x == a then true else rest

-- The loop of `become_leader` over the peers, for one of the two maps.
unfoldable pub insert_all : Assoc → List ℕ → ℕ → Assoc
insert_all m [] v = m
insert_all m (p ∷ ps) v = insert_all (insert m p v) ps v

abbrev pub is_some : Option ℕ → Bool
is_some none = false
is_some (some _) = true

abbrev pub majority_of : List ℕ → ℕ
majority_of peers = (1 + length peers) / 2 + 1

module _ {S M : Type 0} ⦃st : Storage S⦄ where
  -- The part of `handle_request_vote` that follows the test for a higher term.
  unfoldable pub cast_vote :
      RaftCore S M → RequestVoteArgs → Option (RequestVoteResult × RaftCore S M)
  cast_vote c req =
      if is_some c.voted_for && not (same_option c.voted_for (some req.candidate_id))
      then some (record { term = c.current_term; vote_granted = false }, c)
      else if not (is_log_up_to_date c req.last_log_term req.last_log_index)
      then some (record { term = c.current_term; vote_granted = false }, c)
      else (do
        c₁ ← set_voted_for c (some req.candidate_id)
        some (record { term = c₁.current_term; vote_granted = true }, c₁))

  unfoldable pub handle_request_vote :
      RaftCore S M → RequestVoteArgs → Option (RequestVoteResult × RaftCore S M)
  handle_request_vote c req =
      if ltb req.term c.current_term
      then some (record { term = c.current_term; vote_granted = false }, c)
      else (do c₁ ← step_down_if_newer c req.term; cast_vote c₁ req)

  unfoldable pub start_election : RaftCore S M → Instant → Option (RaftCore S M)
  start_election c now = do
    c₁ ← set_term c (add_u64 c.current_term 1)
    c₂ ← set_voted_for (record c₁ { state = candidate; current_leader = none }) (some c₁.id)
    some (record c₂ { votes_received = c₂.id ∷ []; last_heartbeat = now })

  unfoldable pub become_leader : RaftCore S M → Instant → Option (RaftCore S M)
  become_leader c now =
      let last_index = last_log_index c in
      persist_log_entry
        (record c {
          state = leader;
          current_leader = some c.id;
          last_heartbeat = now;
          next_index = insert_all c.next_index c.peers (add_u64 last_index 1);
          match_index = insert_all c.match_index c.peers 0;
        })
        (record { term = c.current_term; index = add_u64 last_index 1; command = noop_command })

  -- `process_request_vote_response`
  unfoldable pub process_request_vote_response :
      RaftCore S M → RequestVoteResult → Option (RaftCore S M)
  process_request_vote_response c result = step_down_if_newer c result.term

  -- The vote is counted if it was granted and is not there yet.
  unfoldable pub track_vote : RaftCore S M → ℕ → RequestVoteResult → RaftCore S M
  track_vote c peer_id result =
      if result.vote_granted && not (contains c.votes_received peer_id)
      then record c { votes_received = c.votes_received ++ peer_id ∷ [] }
      else c

  -- The part of `handle_request_vote_result` that only a candidate reaches.
  unfoldable pub count_vote :
      RaftCore S M → ℕ → RequestVoteResult → Instant → Option (Bool × RaftCore S M)
  count_vote c peer_id result now =
      let c₁ = track_vote c peer_id result in
      if leb (majority_of c₁.peers) (length c₁.votes_received)
      then (do c₂ ← become_leader c₁ now; some (true, c₂))
      else some (false, c₁)

  unfoldable pub handle_request_vote_result :
      RaftCore S M → ℕ → RequestVoteResult → Instant → Option (Bool × RaftCore S M)
  handle_request_vote_result c peer_id result now = do
    c₁ ← process_request_vote_response c result
    if same_state c₁.state candidate then count_vote c₁ peer_id result now else some (false, c₁)
