-- ===== src/Core/Calm.antt =====
-- The methods that neither start an election nor count a vote: a candidate keeps its term and its
-- votes for as long as it is one.
use raft_vibe.Prelude.{
  ℕ, ◌≡◌, refl, ◌∙◌, Bool-cases, ltb, String, Option, Option-cases, inl, inr, some, List,
  >>=-eq-some, expect_value, arith,
}
use raft_vibe.Types.{
  LogEntry, candidate, leader, RequestVoteArgs, RequestVoteResult, AppendEntriesArgs,
  AppendEntriesResult, HandleAppendEntriesOutput, InstallSnapshotArgs, InstallSnapshotResult,
  ApplyResult,
}
use raft_vibe.Storage.{Storage}
use raft_vibe.Storage.VoteLaws.{VoteLaws}
use raft_vibe.Machine.{Machine}
use raft_vibe.Core.State.{RaftCore, Instant, new, restored}
use raft_vibe.Core.Persist.{set_term, set_voted_for, update_term}
use raft_vibe.Core.Apply.{take_snapshot}
use raft_vibe.Core.Append.{step_down_if_newer, handle_append_entries}
use raft_vibe.Core.Install.{handle_install_snapshot, install_newer}
use raft_vibe.Core.Election.{cast_vote, handle_request_vote, same_state}
use raft_vibe.Core.Leader.{
  append_log_entry, process_append_entries_response, record_result, handle_append_entries_result,
}
use raft_vibe.Core.Frame.{Frame, Frame-trans, take_snapshot-Frame}
use raft_vibe.Core.VoteSteps.{append_log_entry-Frame}
use raft_vibe.Core.FollowerSteps.{
  answer_leader-Frame, install_newer-Frame, try_commit-Frame, record_result-Frame,
}

pub record Calm {S M : Type 0} (c c' : RaftCore S M) : Type 0 where
  pub id : c'.id ≡ c.id
  pub peers : c'.peers ≡ c.peers
  pub candidacy :
      c'.state ≡ candidate
      → (c.state ≡ candidate)
        × (c'.votes_received ≡ c.votes_received)
        × (c'.current_term ≡ c.current_term)

module _ {S M : Type 0} ⦃st : Storage S⦄ where
  pub Calm-refl : (c : RaftCore S M) → Calm c c
  Calm-refl c = record { id = refl; peers = refl; candidacy = λ h. (h, refl, refl) }

  pub Calm-trans : {a b c : RaftCore S M} → Calm a b → Calm b c → Calm a c
  Calm-trans f g = record {
    id = g.id ∙ f.id;
    peers = g.peers ∙ f.peers;
    candidacy = λ h.
        let (was, votes, term) = g.candidacy h in
        let (was', votes', term') = f.candidacy was in (was', votes ∙ votes', term ∙ term');
  }

  Frame-Calm : {c c' : RaftCore S M} → Frame c c' → Calm c c'
  Frame-Calm f = record {
    id = f.id;
    peers = f.peers;
    candidacy = λ h. let (was, votes) = f.candidacy h in (was, votes, f.term);
  }

  set_term-Calm :
      (c : RaftCore S M) (term : ℕ) {c' : RaftCore S M}
      → set_term c term ≡ some c'
      → (c'.id ≡ c.id) × (c'.peers ≡ c.peers)
  unfolding set_term
  set_term-Calm c term h = (ground arith, ground arith)

  set_voted_for-Calm :
      (c : RaftCore S M) (vote : Option ℕ) {c' : RaftCore S M}
      → set_voted_for c vote ≡ some c'
      → Calm c c'
  unfolding set_voted_for
  set_voted_for-Calm c vote h = ground (arith, Calm-refl c)

  pub step_down-Calm :
      (c : RaftCore S M) (term : ℕ) {c' : RaftCore S M}
      → step_down_if_newer c term ≡ some c'
      → Calm c c'
  unfolding step_down_if_newer update_term set_term set_voted_for
  step_down-Calm c term h = ground (arith, Calm-refl c)

  cast_vote-Calm :
      (c : RaftCore S M) (req : RequestVoteArgs) {r : RequestVoteResult} {c' : RaftCore S M}
      → cast_vote c req ≡ some (r, c')
      → Calm c c'
  unfolding cast_vote
  cast_vote-Calm c req {r} {c'} h = elim (Option-cases (set_voted_for c (some req.candidate_id))) [
    | inl panic ↦ ground (arith, Calm-refl c)
    | inr (c₁, p) ↦ ground (arith, Calm-refl c, set_voted_for-Calm c (some req.candidate_id) p)
  ]

  pub handle_request_vote-Calm :
      (c : RaftCore S M) (req : RequestVoteArgs) {r : RequestVoteResult} {c' : RaftCore S M}
      → handle_request_vote c req ≡ some (r, c')
      → Calm c c'
  unfolding handle_request_vote
  handle_request_vote-Calm c req {r} {c'} h = elim (Bool-cases (ltb req.term c.current_term)) [
    | inl stale ↦ ground (arith, Calm-refl c)
    | inr current ↦
        let (c₁, p, q) =
          >>=-eq-some (step_down_if_newer c req.term) (λ d. cast_vote d req) {b = (r, c')}
            (rw current at h) in
        Calm-trans (step_down-Calm c req.term p) (cast_vote-Calm c₁ req q)
  ]

  module _ ⦃sm : Machine M⦄ where
    pub new-Calm :
        (c : RaftCore S M) (machine : M) (now : Instant) {c' : RaftCore S M}
        → new c.id c.peers c.storage machine now ≡ some c'
        → Calm c c'
    unfolding new
    new-Calm c machine now {c'} h =
        let (t, p, h₁) = >>=-eq-some (expect_value (st.load_term c.storage)) _ h in
        let (v, q, h₂) = >>=-eq-some (expect_value (st.load_voted_for c.storage)) _ h₁ in
        let (l, r, h₃) = >>=-eq-some (expect_value (st.load_log c.storage)) _ h₂ in
        let (s, u, h₄) = >>=-eq-some (expect_value (st.load_snapshot c.storage)) _ h₃ in
        let ((i, k, m), w, h₅) = >>=-eq-some (restored s machine) _ h₄ in ground arith

    module _ ⦃laws : VoteLaws S⦄ where
      pub handle_append_entries-Calm :
          (c : RaftCore S M) (req : AppendEntriesArgs) (now : Instant)
          {o : HandleAppendEntriesOutput} {c' : RaftCore S M}
          → handle_append_entries c req now ≡ some (o, c')
          → Calm c c'
      unfolding handle_append_entries
      handle_append_entries-Calm c req now {o} {c'} h =
          let (c₁, p, q) = >>=-eq-some (step_down_if_newer c req.term) _ h in
          let tail : Calm c₁ c' = elim (Bool-cases (ltb req.term c₁.current_term)) [
            | inl stale ↦ ground (arith, Calm-refl c₁)
            | inr current ↦ Frame-Calm (answer_leader-Frame c₁ req now {o = o} (rw current at q))
          ] in
          Calm-trans (step_down-Calm c req.term p) tail

      pub handle_install_snapshot-Calm :
          (c : RaftCore S M) (args : InstallSnapshotArgs) (now : Instant)
          {r : InstallSnapshotResult} {c' : RaftCore S M}
          → handle_install_snapshot c args now ≡ some (r, c')
          → Calm c c'
      unfolding handle_install_snapshot
      handle_install_snapshot-Calm c args now {r} {c'} h =
          elim (Bool-cases (ltb args.term c.current_term)) [
            | inl stale ↦ ground (arith, Calm-refl c)
            | inr current ↦
                let (c₁, p, q) =
                  >>=-eq-some (step_down_if_newer c args.term)
                    (λ d.
                      install_newer
                        (record d { last_heartbeat = now; current_leader = some args.leader_id })
                        args)
                    {b = (r, c')} (rw current at h) in
                let k =
                  install_newer-Frame
                    (record c₁ { last_heartbeat = now; current_leader = some args.leader_id }) args
                    q in
                Calm-trans (step_down-Calm c args.term p) (record {
                  id = k.id;
                  peers = k.peers;
                  candidacy = λ s. let (was, votes) = k.candidacy s in (was, votes, k.term);
                })
          ]

      pub handle_append_entries_result-Calm :
          (c : RaftCore S M) (p i : ℕ) (r : AppendEntriesResult) {o : Option ℕ}
          {rs : List (ℕ × ApplyResult)} {c' : RaftCore S M}
          → handle_append_entries_result c p i r ≡ some (o, rs, c')
          → Calm c c'
      unfolding handle_append_entries_result process_append_entries_response
      handle_append_entries_result-Calm c p i r {o} {rs} {c'} h =
          let (c₁, s, q) = >>=-eq-some (step_down_if_newer c r.term) _ h in
          let tail : Calm c₁ c' = elim (Bool-cases (same_state c₁.state leader)) [
            | inl leads ↦ Frame-Calm (
                Frame-trans (record_result-Frame c₁ p i r)
                  (try_commit-Frame (record_result c₁ p i r) i {o = o} {rs = rs} (rw leads at q)))
            | inr other ↦ ground (arith, Calm-refl c₁)
          ] in
          Calm-trans (step_down-Calm c r.term s) tail

      pub append_log_entry-Calm :
          (c : RaftCore S M) (command : String) {e : Option LogEntry} {c' : RaftCore S M}
          → append_log_entry c command ≡ some (e, c')
          → Calm c c'
      append_log_entry-Calm c command h = Frame-Calm (append_log_entry-Frame c command h)

      pub take_snapshot-Calm : (c : RaftCore S M) → Calm c (take_snapshot c).1
      take_snapshot-Calm c = Frame-Calm (take_snapshot-Frame c)
