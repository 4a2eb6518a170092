-- ===== src/Node/StaleTerm.antt =====
-- The term that `RaftNode` takes over by itself, in `confirm_leadership` and in `send_heartbeat`, is
-- not persisted.
use raft_vibe.Prelude.{ℕ, ◌<◌, ◌≡◌, Option-cases, inl, inr, true, some, arith}
use raft_vibe.Types.{RequestVoteArgs, RequestVoteResult}
use raft_vibe.Storage.{Storage}
use raft_vibe.Storage.VoteLaws.{VoteLaws}
use raft_vibe.Storage.Reliable.{Reliable}
use raft_vibe.Machine.{Machine}
use raft_vibe.Core.State.{RaftCore, Instant, new}
use raft_vibe.Core.Persist.{set_voted_for}
use raft_vibe.Core.Append.{step_down_if_newer}
use raft_vibe.Core.Election.{cast_vote, handle_request_vote}
use raft_vibe.Core.VoteSafety.{IsDurable, set_voted_for_lem}
use raft_vibe.Core.OneVote.{new_lem}
use raft_vibe.Core.Electing.{AtLeastAsUpToDate, handle_request_vote_exact}
use raft_vibe.Node.Replies.{adopt_term}

module _ {S M : Type 0} ⦃st : Storage S⦄ ⦃laws : VoteLaws S⦄ where
  cast_vote-stored_term :
      (c : RaftCore S M) (req : RequestVoteArgs) {r : RequestVoteResult} {c' : RaftCore S M}
      → cast_vote c req ≡ some (r, c')
      → st.load_term c'.storage ≡ st.load_term c.storage
  unfolding cast_vote
  cast_vote-stored_term c req {r} {c'} h =
      elim (Option-cases (set_voted_for c (some req.candidate_id))) [
        | inl panic ↦ ground arith
        | inr (c₁, p) ↦ ground (arith, set_voted_for_lem c (some req.candidate_id) p)
      ]

  -- A vote in the term that is in memory leaves the stored term as it is.
  vote-stored_term :
      (c : RaftCore S M) (req : RequestVoteArgs) {r : RequestVoteResult} {c' : RaftCore S M}
      → req.term ≡ c.current_term
      → handle_request_vote c req ≡ some (r, c')
      → st.load_term c'.storage ≡ st.load_term c.storage
  unfolding handle_request_vote step_down_if_newer
  vote-stored_term c req {r} {c'} same h =
      cast_vote-stored_term c req {r = r} {c' = c'} (ground arith)

  module _ ⦃sm : Machine M⦄ ⦃safe : Reliable S⦄ where
    -- Two votes in one term: a durable node takes over a higher term from a response, votes in it
    -- for one candidate, and restarts. Then it is back in its old term, and it votes in the higher
    -- term again, for any candidate whose log is at least as up to date as its own.
    pub second_vote :
        (c : RaftCore S M) (term : ℕ) (req req' : RequestVoteArgs) (machine : M) (now : Instant)
        {r : RequestVoteResult} {c₁ c₂ : RaftCore S M}
        → IsDurable c
        → c.current_term < term
        → req.term ≡ term
        → handle_request_vote (adopt_term c term) req ≡ some (r, c₁)
        → r.vote_granted ≡ true
        → new c₁.id c₁.peers c₁.storage machine now ≡ some c₂
        → req'.term ≡ term
        → AtLeastAsUpToDate c₂ req'
        → (c₂.current_term ≡ c.current_term)
          × (r' : RequestVoteResult) × (c₃ : RaftCore S M) × (handle_request_vote c₂ req'
              ≡ some (r', c₃))
          × (r'.vote_granted ≡ true)
          × (r'.term ≡ term)
    unfolding adopt_term
    second_vote c term req req' machine now {r} {c₁} {c₂} d newer e h g restarted e' fresh =
        let kept = vote-stored_term (adopt_term c term) req {r = r} {c' = c₁} e h in
        let k = new_lem c₁.id c₁.peers c₁.storage machine now restarted in
        let old : c₂.current_term ≡ c.current_term = ground (arith, kept, k, d) in
        let (r', c₃, call, t, exact) = handle_request_vote_exact c₂ req' in
        (
          old,
          r',
          c₃,
          call,
          exact.1 (inl (omega (arith, old, newer, e')), fresh),
          omega (arith, old, newer, e', t),
        )
