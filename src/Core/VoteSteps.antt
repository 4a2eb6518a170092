-- ===== src/Core/VoteSteps.antt =====
-- Each step of a node, a restart included, is a `VoteStep`.
use raft_vibe.Prelude.{
  ℕ, ◌+◌, ◌<◌, ◌≡◌, String, Bool, Bool-cases, Option-cases, inl, inr, Option, none, some,
  >>=-eq-some, ltb, u64_mod, add_u64, arith,
}
use raft_vibe.Types.{LogEntry, candidate, RequestVoteArgs, RequestVoteResult}
use raft_vibe.Storage.{Storage}
use raft_vibe.Storage.VoteLaws.{VoteLaws}
use raft_vibe.Core.State.{RaftCore, Instant}
use raft_vibe.Core.Persist.{set_term, set_voted_for}
use raft_vibe.Core.Query.{last_log_index}
use raft_vibe.Core.Append.{step_down_if_newer}
use raft_vibe.Core.Election.{
  cast_vote, count_vote, handle_request_vote, start_election, become_leader, track_vote, same_state,
  handle_request_vote_result, process_request_vote_response,
}
use raft_vibe.Core.Leader.{append_log_entry}
use raft_vibe.Core.Frame.{Frame, Frame-refl, Frame-trans, persist_log_entry-Frame}
use raft_vibe.Core.VoteSafety.{
  VoteStep, VoteStep-refl, VoteStep-trans, Frame-VoteStep, set_term_lem, set_voted_for_lem,
  higher_term, step_down-VoteStep,
}

module _ {S M : Type 0} ⦃st : Storage S⦄ ⦃laws : VoteLaws S⦄ where
  cast_vote-VoteStep :
      (c : RaftCore S M) (req : RequestVoteArgs) {r : RequestVoteResult} {c' : RaftCore S M}
      → cast_vote c req ≡ some (r, c')
      → VoteStep c c'
  unfolding cast_vote
  cast_vote-VoteStep c req {r} {c'} h =
      elim (Option-cases (set_voted_for c (some req.candidate_id))) [
        | inl panic ↦ ground (arith, VoteStep-refl c)
        | inr (c₁, p) ↦
            ground (arith, VoteStep-refl c, set_voted_for_lem c (some req.candidate_id) p)
      ]

  pub handle_request_vote-VoteStep :
      (c : RaftCore S M) (req : RequestVoteArgs) {r : RequestVoteResult} {c' : RaftCore S M}
      → handle_request_vote c req ≡ some (r, c')
      → VoteStep c c'
  unfolding handle_request_vote
  handle_request_vote-VoteStep c req {r} {c'} h = elim (Bool-cases (ltb req.term c.current_term)) [
    | inl stale ↦ ground (arith, VoteStep-refl c)
    | inr current ↦
        let (c₁, p, q) =
          >>=-eq-some (step_down_if_newer c req.term) (λ d. cast_vote d req) {b = (r, c')}
            (rw current at h) in
        VoteStep-trans (step_down-VoteStep c req.term p).0 (cast_vote-VoteStep c₁ req q)
  ]

  pub start_election-VoteStep :
      (c : RaftCore S M) (now : Instant) {c' : RaftCore S M}
      → c.current_term + 1 < u64_mod
      → start_election c now ≡ some c'
      → VoteStep c c'
  unfolding start_election
  start_election-VoteStep c now {c'} room h =
      let (c₁, p, q) = >>=-eq-some (set_term c (add_u64 c.current_term 1)) _ h in
      let (c₂, p', q') =
        >>=-eq-some
          (set_voted_for (record c₁ { state = candidate; current_leader = none }) (some c₁.id)) _
          q in
      let k = set_term_lem c (add_u64 c.current_term 1) p in
      let k' =
        set_voted_for_lem (record c₁ { state = candidate; current_leader = none }) (some c₁.id)
          p' in
      higher_term c c' (ground (arith, k, k')) (ground (arith, k, k'))

  pub become_leader-Frame :
      (c : RaftCore S M) (now : Instant) {c' : RaftCore S M}
      → become_leader c now ≡ some c'
      → Frame c c'
  unfolding become_leader
  become_leader-Frame c now h = Frame-trans (ground arith) (persist_log_entry-Frame _ _ h)

  pub append_log_entry-Frame :
      (c : RaftCore S M) (command : String) {e : Option LogEntry} {c' : RaftCore S M}
      → append_log_entry c command ≡ some (e, c')
      → Frame c c'
  unfolding append_log_entry
  append_log_entry-Frame c command {e} {c'} h =
      let entry : LogEntry = record {
        term = c.current_term;
        index = add_u64 (last_log_index c) 1;
        command = command;
      } in
      ground (arith, Frame-refl c, persist_log_entry-Frame c entry {c' = c'})

  pub track_vote-VoteStep :
      (c : RaftCore S M) (p : ℕ) (r : RequestVoteResult) → VoteStep c (track_vote c p r)
  unfolding track_vote
  track_vote-VoteStep c p r = ground (arith, VoteStep-refl c)

  count_vote-VoteStep :
      (c : RaftCore S M) (p : ℕ) (r : RequestVoteResult) (now : Instant) {won : Bool}
      {c' : RaftCore S M}
      → count_vote c p r now ≡ some (won, c')
      → VoteStep c c'
  unfolding count_vote
  count_vote-VoteStep c p r now {won} {c'} h =
      let d : RaftCore S M = track_vote c p r in
      VoteStep-trans (track_vote-VoteStep c p r)
        (Frame-VoteStep (ground (arith, Frame-refl d, become_leader-Frame d now {c' = c'})))

  pub handle_request_vote_result-VoteStep :
      (c : RaftCore S M) (p : ℕ) (r : RequestVoteResult) (now : Instant) {won : Bool}
      {c' : RaftCore S M}
      → handle_request_vote_result c p r now ≡ some (won, c')
      → VoteStep c c'
  unfolding handle_request_vote_result process_request_vote_response
  handle_request_vote_result-VoteStep c p r now {won} {c'} h =
      let (c₁, s, q) = >>=-eq-some (step_down_if_newer c r.term) _ h in
      let tail : VoteStep c₁ c' = elim (Bool-cases (same_state c₁.state candidate)) [
        | inl runs ↦ count_vote-VoteStep c₁ p r now {won = won} (rw runs at q)
        | inr other ↦ ground (arith, VoteStep-refl c₁)
      ] in
      VoteStep-trans (step_down-VoteStep c r.term s).0 tail
