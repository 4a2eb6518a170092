-- ===== src/Core/Leading.antt =====
-- The votes of a candidate, and what an elected node holds (src/core/raft_core.rs).
use raft_vibe.Prelude.{
  ℕ, ◌≤◌, ◌≡◌, refl, Bool-cases, Option-cases, inl, inr, true, false, not, ◌&&◌, some, List, [],
  ◌∷◌, ◌++◌, length, ◌==◌, if◌then◌else◌, Assoc, lookup, insert, lookup-insert, add_u64, arith,
}
use raft_vibe.Types.{candidate, leader, RequestVoteResult, noop_command}
use raft_vibe.Storage.{Storage}
use raft_vibe.Core.State.{RaftCore, Instant}
use raft_vibe.Core.Persist.{update_term, persist_log_entry}
use raft_vibe.Core.Query.{last_log_index}
use raft_vibe.Core.Append.{step_down_if_newer}
use raft_vibe.Core.Election.{
  same_state, contains, insert_all, majority_of, become_leader, track_vote, count_vote,
}

-- No peer stands in the list twice.
abbrev pub Distinct : List ℕ → Type 0
Distinct [] = Unit
Distinct (x ∷ xs) = (contains xs x ≡ false) × Distinct xs

contains-append :
    (xs : List ℕ) (y z : ℕ) → contains (xs ++ y ∷ []) z ≡ (if contains xs z then true else y == z)
unfolding contains
contains-append [] y z = ground arith
contains-append (x ∷ xs) y z = ground (arith, contains-append xs y z)

pub Distinct-append :
    (xs : List ℕ) (y : ℕ) → Distinct xs → contains xs y ≡ false → Distinct (xs ++ y ∷ [])
unfolding contains
Distinct-append [] y d h = (refl, tt)
Distinct-append (x ∷ xs) y d h =
    (ground (arith, contains-append xs y x), Distinct-append xs y d.1 (ground arith))

-- A value is put under each key of the list, and under no other.
lookup-insert_all :
    (m : Assoc) (ps : List ℕ) (v q : ℕ)
    → lookup (insert_all m ps v) q ≡ (if contains ps q then some v else lookup m q)
unfolding insert_all contains
lookup-insert_all m [] v q = refl
lookup-insert_all m (p ∷ ps) v q =
    ground (arith, lookup-insert_all (insert m p v) ps v q, lookup-insert m p v q)

module _ {S M : Type 0} ⦃st : Storage S⦄ where
  pub track_vote-Distinct :
      (c : RaftCore S M) (p : ℕ) (r : RequestVoteResult)
      → Distinct c.votes_received
      → Distinct (track_vote c p r).votes_received
  unfolding track_vote
  track_vote-Distinct c p r d = ground (arith, Distinct-append c.votes_received p d)

  -- What a leader starts with.
  pub record Leads (c c' : RaftCore S M) : Type 0 where
    pub state : c'.state ≡ leader
    pub term : c'.current_term ≡ c.current_term
    pub itself : c'.current_leader ≡ some c.id
    pub noop :
        c'.log
        ≡ c.log
          ++ (record {
            term = c.current_term;
            index = add_u64 (last_log_index c) 1;
            command = noop_command;
          })
            ∷ []
    pub next :
        (q : ℕ)
        → contains c.peers q ≡ true
        → lookup c'.next_index q ≡ some (add_u64 (last_log_index c) 1)
    pub matched : (q : ℕ) → contains c.peers q ≡ true → lookup c'.match_index q ≡ some 0

  become_leader-Leads :
      (c : RaftCore S M) (now : Instant) {c' : RaftCore S M}
      → become_leader c now ≡ some c'
      → Leads c c'
  unfolding become_leader persist_log_entry
  become_leader-Leads c now {c'} h = record {
    state = ground arith;
    term = ground arith;
    itself = ground arith;
    noop = ground arith;
    next = λ q k.
        ground (arith, lookup-insert_all c.next_index c.peers (add_u64 (last_log_index c) 1) q);
    matched = λ q k. ground (arith, lookup-insert_all c.match_index c.peers 0 q);
  }

  pub count_vote-Leads :
      (c : RaftCore S M) (p : ℕ) (r : RequestVoteResult) (now : Instant) {c' : RaftCore S M}
      → count_vote c p r now ≡ some (true, c')
      → (majority_of c.peers ≤ length (track_vote c p r).votes_received) × Leads c c'
  unfolding count_vote track_vote last_log_index
  count_vote-Leads c p r now {c'} h =
      elim (Bool-cases (r.vote_granted && not (contains c.votes_received p))) [
        | inl counted ↦
            let d : RaftCore S M = record c { votes_received = c.votes_received ++ p ∷ [] } in
            elim (Option-cases (become_leader d now)) [
              | inl panic ↦ absurd (ground arith)
              | inr (c₂, q) ↦
                  let l = become_leader-Leads d now q in
                  let same : c₂ ≡ c' = ground arith in
                  let leads : Leads c c₂ = record {
                    state = l.state;
                    term = l.term;
                    itself = l.itself;
                    noop = l.noop;
                    next = l.next;
                    matched = l.matched;
                  } in
                  (ground arith, rw same at leads)
            ]
        | inr not_counted ↦ elim (Option-cases (become_leader c now)) [
          | inl panic ↦ absurd (ground arith)
          | inr (c₂, q) ↦
              let l = become_leader-Leads c now q in
              let same : c₂ ≡ c' = ground arith in (ground arith, rw same at l)
        ]
      ]

  pub step_down-candidate :
      (c : RaftCore S M) (term : ℕ) {c' : RaftCore S M}
      → step_down_if_newer c term ≡ some c'
      → same_state c'.state candidate ≡ true
      → (c' ≡ c) × (term ≤ c.current_term) × (c.state ≡ candidate)
  unfolding step_down_if_newer
  step_down-candidate c term {c'} h runs = elim (Option-cases (update_term c term)) [
    | inl panic ↦ ground arith
    | inr (c₁, p) ↦ ground arith
  ]
