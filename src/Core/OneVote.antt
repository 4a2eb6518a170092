-- ===== src/Core/OneVote.antt =====
-- A node votes once in a term, whatever it does in between, crashes and restarts included.
use raft_vibe.Prelude.{
  ℕ, ◌<◌, ◌≤◌, ◌≡◌, sym, ◌∙◌, dec_lt, ◌⊎◌, true, Bool-cases, Option-cases, inl, inr, none, some,
  >>=-eq-some, expect_value, ltb, arith, List,
}
use raft_vibe.Types.{RequestVoteArgs, RequestVoteResult}
use raft_vibe.Storage.{Storage}
use raft_vibe.Storage.VoteLaws.{VoteLaws}
use raft_vibe.Machine.{Machine}
use raft_vibe.Core.State.{RaftCore, Instant, new, restored}
use raft_vibe.Core.Persist.{set_term, set_voted_for, update_term}
use raft_vibe.Core.Append.{step_down_if_newer}
use raft_vibe.Core.Election.{cast_vote, handle_request_vote}
use raft_vibe.Core.Step.{
  Step, Reach, here, next, request_vote, append_entries, install_snapshot, election, vote_result,
  append_result, client_command, own_snapshot, restart,
}
use raft_vibe.Core.VoteSafety.{
  IsDurable, VoteStep, VoteStep-refl, VoteStep-trans, Frame-VoteStep, set_voted_for_lem,
  step_down-VoteStep,
}
use raft_vibe.Core.Frame.{take_snapshot-Frame}
use raft_vibe.Core.VoteSteps.{
  handle_request_vote-VoteStep, start_election-VoteStep, handle_request_vote_result-VoteStep,
  append_log_entry-Frame,
}
use raft_vibe.Core.FollowerSteps.{
  handle_append_entries-VoteStep, handle_install_snapshot-VoteStep,
  handle_append_entries_result-VoteStep,
}

module _ {S M : Type 0} ⦃st : Storage S⦄ ⦃sm : Machine M⦄ where
  -- A node that starts takes term and vote from its storage.
  pub new_lem :
      (id : ℕ) (peers : List ℕ) (storage : S) (machine : M) (now : Instant) {c : RaftCore S M}
      → new id peers storage machine now ≡ some c
      → IsDurable c × (c.storage ≡ storage)
  unfolding new
  new_lem id peers storage machine now {c} h =
      let (t, p, h₁) = >>=-eq-some (expect_value (st.load_term storage)) _ h in
      let (v, q, h₂) = >>=-eq-some (expect_value (st.load_voted_for storage)) _ h₁ in
      let (l, r, h₃) = >>=-eq-some (expect_value (st.load_log storage)) _ h₂ in
      let (s, u, h₄) = >>=-eq-some (expect_value (st.load_snapshot storage)) _ h₃ in
      let ((i, k, m), w, h₅) = >>=-eq-some (restored s machine) _ h₄ in ground arith

  pub restart-VoteStep :
      (c : RaftCore S M) (machine : M) (now : Instant) {c' : RaftCore S M}
      → IsDurable c
      → new c.id c.peers c.storage machine now ≡ some c'
      → VoteStep c c'
  restart-VoteStep c machine now {c'} d h =
      let k = new_lem c.id c.peers c.storage machine now h in
      record {
        term_grows = ground (arith, k, d);
        vote_kept = λ x e v. ground (arith, k, d);
        durable = λ _. k.0;
      }

  module _ ⦃laws : VoteLaws S⦄ where
    pub Step-VoteStep : {c c' : RaftCore S M} → IsDurable c → Step c c' → VoteStep c c'
    Step-VoteStep {c} d (request_vote req r h) = handle_request_vote-VoteStep c req h
    Step-VoteStep {c} d (append_entries req now o h) = handle_append_entries-VoteStep c req now h
    Step-VoteStep {c} d (install_snapshot args now r h) =
        handle_install_snapshot-VoteStep c args now h
    Step-VoteStep {c} d (election now room h) = start_election-VoteStep c now room h
    Step-VoteStep {c} d (vote_result p r now won h) =
        handle_request_vote_result-VoteStep c p r now h
    Step-VoteStep {c} d (append_result p i r o rs h) =
        handle_append_entries_result-VoteStep c p i r h
    Step-VoteStep {c} d (client_command command e h) =
        Frame-VoteStep (append_log_entry-Frame c command h)
    Step-VoteStep {c} d (own_snapshot e) = rw e (Frame-VoteStep (take_snapshot-Frame c))
    Step-VoteStep {c} d (restart machine now h) = restart-VoteStep c machine now d h

    Reach-VoteStep : {c c' : RaftCore S M} → IsDurable c → Reach c c' → VoteStep c c' × IsDurable c'
    Reach-VoteStep {c} d here = (VoteStep-refl c, d)
    Reach-VoteStep d (next r s) =
        let (before, e) = Reach-VoteStep d r in
        let step = Step-VoteStep e s in (VoteStep-trans before step, step.durable e)

    -- Over a storage that keeps the term and the vote it is given, from a durable core, along any
    -- calls of the core's methods and restarts, what is stored stays what is in memory, and the
    -- term rises, or it is the same and a vote that was given in it stays.
    pub term_and_vote_survive :
        {c c' : RaftCore S M}
        → IsDurable c
        → Reach c c'
        → IsDurable c'
          × ((c.current_term < c'.current_term)
              ⊎ ((c'.current_term ≡ c.current_term)
                  × ((c.voted_for ≡ none) ⊎ (c'.voted_for ≡ c.voted_for))))
    term_and_vote_survive {c} {c'} d r =
        let (v, e) = Reach-VoteStep d r in
        (
          e,
          elim (dec_lt c.current_term c'.current_term) [
            | yes rises ↦ inl rises
            | no stays ↦
                let same : c'.current_term ≡ c.current_term = omega (arith, v.term_grows) in
                inr (
                  same,
                  elim (Option-cases c.voted_for) [
                    | inl open_vote ↦ inl open_vote
                    | inr (x, p) ↦ inr (v.vote_kept x same p ∙ sym p)
                  ],
                )
          ],
        )

    cast_vote_granted :
        (c : RaftCore S M) (req : RequestVoteArgs) {r : RequestVoteResult} {c' : RaftCore S M}
        → cast_vote c req ≡ some (r, c')
        → r.vote_granted ≡ true
        → (c'.voted_for ≡ some req.candidate_id)
          × (r.term ≡ c'.current_term)
          × (c'.current_term ≡ c.current_term)
          × ((c.voted_for ≡ none) ⊎ (c.voted_for ≡ some req.candidate_id))
    unfolding cast_vote
    cast_vote_granted c req h g = elim (Option-cases (set_voted_for c (some req.candidate_id))) [
      | inl panic ↦ ground arith
      | inr (c₁, p) ↦ ground (arith, set_voted_for_lem c (some req.candidate_id) p)
    ]

    -- What a granted vote says of the node that grants it.
    pub granted :
        (c : RaftCore S M) (req : RequestVoteArgs) {r : RequestVoteResult} {c' : RaftCore S M}
        → handle_request_vote c req ≡ some (r, c')
        → r.vote_granted ≡ true
        → (c'.voted_for ≡ some req.candidate_id)
          × (r.term ≡ c'.current_term)
          × (c'.current_term ≡ c.current_term
              → (x : ℕ) → c.voted_for ≡ some x
              → x ≡ req.candidate_id)
    unfolding handle_request_vote
    granted c req {r} {c'} h g = elim (Bool-cases (ltb req.term c.current_term)) [
      | inl stale ↦ ground arith
      | inr current ↦
          let (c₁, p, q) =
            >>=-eq-some (step_down_if_newer c req.term) (λ d. cast_vote d req) {b = (r, c')}
              (rw current at h) in
          let k = cast_vote_granted c₁ req q g in
          let v = (step_down-VoteStep c req.term p).0 in
          (k.0, k.1, λ e x voted. ground (arith, k, v.vote_kept x))
    ]

    -- One vote in a term: over a storage that keeps the term and the vote it is given, if a
    -- durable node grants a vote, and after any further calls of the core's methods and restarts
    -- grants one in the same term, both went to the same candidate.
    pub one_vote_per_term :
        (c : RaftCore S M) (req req' : RequestVoteArgs) {r r' : RequestVoteResult}
        {c₁ c₂ c₃ : RaftCore S M}
        → IsDurable c
        → handle_request_vote c req ≡ some (r, c₁)
        → r.vote_granted ≡ true
        → Reach c₁ c₂
        → handle_request_vote c₂ req' ≡ some (r', c₃)
        → r'.vote_granted ≡ true
        → r'.term ≡ r.term
        → req.candidate_id ≡ req'.candidate_id
    one_vote_per_term c req req' {r} {r'} {c₁} {c₂} {c₃} d h g reach h' g' same =
        let a = granted c req h g in
        let b = granted c₂ req' h' g' in
        let v = (Reach-VoteStep ((handle_request_vote-VoteStep c req h).durable d) reach).0 in
        let w = handle_request_vote-VoteStep c₂ req' h' in
        let terms : (c₂.current_term ≡ c₁.current_term) × (c₃.current_term ≡ c₂.current_term) = (
          omega (arith, a.1, b.1, v.term_grows, w.term_grows),
          omega (arith, a.1, b.1, v.term_grows, w.term_grows),
        ) in
        b.2 terms.1 req.candidate_id (v.vote_kept req.candidate_id terms.0 a.0)

    step_down_term :
        (c : RaftCore S M) (term : ℕ) {c' : RaftCore S M}
        → step_down_if_newer c term ≡ some c'
        → c.current_term ≤ term
        → c'.current_term ≡ term
    unfolding step_down_if_newer update_term set_term set_voted_for
    step_down_term c term h le = ground (arith, le)

    -- A vote that is granted is in the term of the request.
    pub granted_term :
        (c : RaftCore S M) (req : RequestVoteArgs) {r : RequestVoteResult} {c' : RaftCore S M}
        → handle_request_vote c req ≡ some (r, c')
        → r.vote_granted ≡ true
        → c'.current_term ≡ req.term
    unfolding handle_request_vote
    granted_term c req {r} {c'} h g = elim (Bool-cases (ltb req.term c.current_term)) [
      | inl stale ↦ ground arith
      | inr current ↦
          let (c₁, p, q) =
            >>=-eq-some (step_down_if_newer c req.term) (λ d. cast_vote d req) {b = (r, c')}
              (rw current at h) in
          let k = cast_vote_granted c₁ req q g in
          k.2 ∙ step_down_term c req.term p (ground (arith, current))
    ]
