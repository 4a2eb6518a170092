-- ===== src/Core/Electing.antt =====
-- When a vote is granted, and when a candidate becomes a leader.
use raft_vibe.Prelude.{
  ℕ, ◌+◌, ◌*◌, List, [], ◌∷◌, ◌++◌, Has, Has-append, ◌≤◌, ◌<◌, ◌≡◌, ◌⊎◌, refl, Bool, Bool-cases,
  inl, inr, true, false, not, ◌&&◌, ◌↔◌, dec_lt, same_option, Option, none, some, >>=-eq-some,
  length, if◌then◌else◌, max, arith,
}
use raft_vibe.Types.{follower, candidate, RequestVoteArgs, RequestVoteResult}
use raft_vibe.Storage.{Storage}
use raft_vibe.Storage.Reliable.{Reliable}
use raft_vibe.Core.State.{RaftCore, Instant}
use raft_vibe.Core.Persist.{set_term, set_voted_for, update_term}
use raft_vibe.Core.Query.{last_log_index, last_log_term, is_log_up_to_date}
use raft_vibe.Core.Append.{step_down_if_newer}
use raft_vibe.Core.Election.{
  same_state, contains, is_some, majority_of, cast_vote, handle_request_vote, track_vote,
  count_vote, process_request_vote_response, handle_request_vote_result,
}
use raft_vibe.Core.Leading.{
  Distinct, track_vote-Distinct, Leads, count_vote-Leads, step_down-candidate,
}

-- Section 5.4.1 of the Raft paper: a later last term, or the same one and a log as long.
abbrev pub AtLeastAsUpToDate : {S M : Type 0} → RaftCore S M → RequestVoteArgs → Type 0
AtLeastAsUpToDate c req =
    (last_log_term c < req.last_log_term)
    ⊎ ((req.last_log_term ≡ last_log_term c) × (last_log_index c ≤ req.last_log_index))

-- The node may vote for this candidate in the term of the request.
abbrev pub FreeToVote : {S M : Type 0} → RaftCore S M → RequestVoteArgs → Type 0
FreeToVote c req =
    (c.current_term < req.term)
    ⊎ ((req.term ≡ c.current_term) × ((c.voted_for ≡ none) ⊎ (c.voted_for ≡ some req.candidate_id)))

module _ {S M : Type 0} ⦃st : Storage S⦄ ⦃safe : Reliable S⦄ where
  pub set_voted_for_ok :
      (c : RaftCore S M) (vote : Option ℕ)
      → set_voted_for c vote
        ≡ some (record c { voted_for = vote; storage = (st.save_voted_for c.storage vote).1 })
  unfolding set_voted_for
  set_voted_for_ok c vote = ground (arith, safe.save_voted_for_ok c.storage vote)

  -- The two tests of `cast_vote`.
  abbrev free : RaftCore S M → RequestVoteArgs → Bool
  free c req = not (is_some c.voted_for && not (same_option c.voted_for (some req.candidate_id)))

  abbrev grants : RaftCore S M → RequestVoteArgs → Bool
  grants c req = free c req && is_log_up_to_date c req.last_log_term req.last_log_index

  cast_vote_lem :
      (c : RaftCore S M) (req : RequestVoteArgs)
      → (c' : RaftCore S M) × (cast_vote c req
          ≡ some (record { term = c.current_term; vote_granted = grants c req }, c'))
  unfolding cast_vote
  cast_vote_lem c req =
      let d : RaftCore S M = record c {
        voted_for = some req.candidate_id;
        storage = (st.save_voted_for c.storage (some req.candidate_id)).1;
      } in
      (if grants c req then d else c, ground (arith, set_voted_for_ok c (some req.candidate_id)))

  grants_iff :
      (c : RaftCore S M) (req : RequestVoteArgs)
      → req.term ≡ c.current_term
      → (grants c req ≡ true) ↔ (FreeToVote c req × AtLeastAsUpToDate c req)
  unfolding is_log_up_to_date
  grants_iff c req now = (λ h. ground arith, λ h. ground arith)

  -- A request for a vote is answered, in the larger of the two terms, and the vote is granted
  -- exactly if the node is free to vote for the candidate in the term of the request and the
  -- candidate's log is at least as up to date as its own (over a storage that does not fail).
  pub handle_request_vote_exact :
      (c : RaftCore S M) (req : RequestVoteArgs)
      → (r : RequestVoteResult) × (c' : RaftCore S M) × (handle_request_vote c req ≡ some (r, c'))
        × (r.term ≡ max c.current_term req.term)
        × ((r.vote_granted ≡ true) ↔ (FreeToVote c req × AtLeastAsUpToDate c req))
  unfolding handle_request_vote step_down_if_newer update_term set_term last_log_term last_log_index
  handle_request_vote_exact c req = elim (dec_lt req.term c.current_term) [
    | yes stale ↦ (
      record { term = c.current_term; vote_granted = false },
      c,
      ground arith,
      omega arith,
      (λ h. ground arith, λ h. ground arith),
    )
    | no current ↦ elim (dec_lt c.current_term req.term) [
      | no same ↦
          let (c', call) = cast_vote_lem c req in
          (
            record { term = c.current_term; vote_granted = grants c req },
            c',
            ground (arith, call),
            omega arith,
            grants_iff c req (omega arith),
          )
      | yes newer ↦
          let s : S = (st.save_term c.storage req.term).1 in
          let d : RaftCore S M = record c {
            current_term = req.term;
            voted_for = none;
            state = follower;
            storage = (st.save_voted_for s none).1;
          } in
          let (c', call) = cast_vote_lem d req in
          let saved = set_voted_for_ok (record c { current_term = req.term; storage = s }) none in
          let exact = grants_iff d req refl in
          (
            record { term = req.term; vote_granted = grants d req },
            c',
            ground (arith, call, saved, safe.save_term_ok c.storage req.term),
            omega arith,
            (λ h. (inl newer, (exact.0 h).1), λ h. exact.1 (inr (refl, inl refl), h.1)),
          )
    ]
  ]

module _ {S M : Type 0} ⦃st : Storage S⦄ where
  pub handle_request_vote_result_lem :
      (c : RaftCore S M) (p : ℕ) (r : RequestVoteResult) (now : Instant) {c' : RaftCore S M}
      → Distinct c.votes_received
      → handle_request_vote_result c p r now ≡ some (true, c')
      → (c.state ≡ candidate)
        × (r.term ≤ c.current_term)
        × Distinct (track_vote c p r).votes_received
        × (majority_of c.peers ≤ length (track_vote c p r).votes_received)
        × Leads c c'
  unfolding handle_request_vote_result process_request_vote_response
  handle_request_vote_result_lem c p r now {c'} d h =
      let (c₁, s, q) = >>=-eq-some (step_down_if_newer c r.term) _ h in
      elim (Bool-cases (same_state c₁.state candidate)) [
        | inr other ↦ absurd (ground arith)
        | inl runs ↦
            let (same, fresh, was) = step_down-candidate c r.term s runs in
            let call : count_vote c p r now ≡ some (true, c') = rw same at (rw runs at q) in
            let (enough, leads) = count_vote-Leads c p r now call in
            (was, fresh, track_vote-Distinct c p r d, enough, leads)
      ]

  track_vote-Has :
      (c : RaftCore S M) (p : ℕ) (r : RequestVoteResult) (v : ℕ)
      → Has v (track_vote c p r).votes_received
      → Has v c.votes_received ⊎ ((v ≡ p) × (r.vote_granted ≡ true))
  unfolding track_vote
  track_vote-Has c p r v m =
      elim (Bool-cases (r.vote_granted && not (contains c.votes_received p))) [
        | inr kept ↦
            let e : (track_vote c p r).votes_received ≡ c.votes_received = ground (arith, kept) in
            inl (rw e at m)
        | inl added ↦
            let e : (track_vote c p r).votes_received ≡ c.votes_received ++ p ∷ [] =
              ground (arith, added) in
            elim (Has-append c.votes_received (p ∷ []) v (rw e at m)) [
              | inl before ↦ inl before
              | inr (inl same) ↦ inr (same, ground (arith, added))
              | inr (inr nothing) ↦ absurd nothing
            ]
      ]

  -- Where the votes that a candidate has received are of distinct nodes, a response makes it a leader
  -- only if it is a candidate, the response shows no newer term, and there are distinct nodes, more
  -- than half of the cluster, of which each had given it its vote before or is the node that responds
  -- and has granted it; it then leads in the term of its candidacy, with a no-op entry of that term at
  -- the end of its log, and with every follower's next index at that entry.
  pub handle_request_vote_result_elects :
      (c : RaftCore S M) (p : ℕ) (r : RequestVoteResult) (now : Instant) {c' : RaftCore S M}
      → Distinct c.votes_received
      → handle_request_vote_result c p r now ≡ some (true, c')
      → (c.state ≡ candidate)
        × (r.term ≤ c.current_term)
        × (voters : List ℕ) × Distinct voters
        × (length c.peers + 1 < 2 * length voters)
        × ((v : ℕ) → Has v voters → Has v c.votes_received ⊎ ((v ≡ p) × (r.vote_granted ≡ true)))
        × Leads c c'
  handle_request_vote_result_elects c p r now {c'} d h =
      let (was, fresh, distinct, enough, leads) = handle_request_vote_result_lem c p r now d h in
      (
        was,
        fresh,
        (track_vote c p r).votes_received,
        distinct,
        omega (arith, enough),
        track_vote-Has c p r,
        leads,
      )
