-- ===== src/Node/Submit.antt =====
-- What `handle_submit` of src/core/raft_server.rs has established when it succeeds.
use raft_vibe.Prelude.{
  ◌≡◌, String, Bool-cases, Option-cases, Result-cases, inl, inr, Option, none, some, List,
  >>=-eq-some, ok, err, add_u64, arith,
}
use raft_vibe.Types.{LogEntry, AppendEntriesResult, ApplyResult, leader}
use raft_vibe.Storage.{Storage}
use raft_vibe.Machine.{Machine}
use raft_vibe.Core.State.{RaftCore}
use raft_vibe.Core.Persist.{persist_log_entry}
use raft_vibe.Core.Query.{last_log_index}
use raft_vibe.Core.Election.{same_state}
use raft_vibe.Core.Leader.{validate_command, append_log_entry}
use raft_vibe.Node.Replies.{Arrival, replicate_loop}
use raft_vibe.Node.Deciding.{Decided, replicate_loop_sound}
use raft_vibe.Node.Server.{submit_outcome, replicated, handle_submit}

submit_outcome-ok :
    (o : Option ApplyResult) {a : String} → submit_outcome o ≡ ok a → o ≡ some (ok a)
submit_outcome-ok none h = absurd (ground (arith, h))
submit_outcome-ok (some (ok r)) h = ground (arith, h)
submit_outcome-ok (some (err e)) h = absurd (ground (arith, h))

module _ {S M : Type 0} ⦃st : Storage S⦄ ⦃sm : Machine M⦄ where
  append_log_entry-entry :
      (c : RaftCore S M) (command : String) (entry : LogEntry) {c₁ : RaftCore S M}
      → append_log_entry c command ≡ some (some entry, c₁)
      → (entry.term ≡ c.current_term)
        × (entry.command ≡ command)
        × (entry.index ≡ add_u64 (last_log_index c) 1)
  unfolding append_log_entry
  append_log_entry-entry c command entry {c₁} h =
      elim (Option-cases (
        persist_log_entry c (record {
          term = c.current_term;
          index = add_u64 (last_log_index c) 1;
          command = command;
        }))) [ inl panic ↦ absurd (ground (arith, h, panic)) | inr (c₂, p) ↦ ground (arith, h, p) ]

  -- A command whose submission succeeds: the node led and its state machine took the command; an
  -- entry of the node's term with that command was appended behind the end of the log; and one of the
  -- arrivals, taken in where the arrivals before it and what others did in between had taken the core,
  -- was a response on which the node, as a leader, committed the index of this entry, by an entry of
  -- its own term that the followers with rows of their own in `match_index`, with the leader more than
  -- half of the cluster, are recorded to hold; the answer is what applying at that index gave in the
  -- same call. That the entry at the index is still the one that was appended is not claimed.
  pub handle_submit_sound :
      (command : String) (arrivals : List (Arrival S M AppendEntriesResult)) (c : RaftCore S M)
      {a : String} {c' : RaftCore S M}
      → handle_submit command arrivals c ≡ some (ok a, c')
      → (c.state ≡ leader)
        × (validate_command c command ≡ ok tt)
        × (entry : LogEntry) × (c₁ : RaftCore S M) × (append_log_entry c command
            ≡ some (some entry, c₁))
        × (entry.term ≡ c.current_term)
        × (entry.command ≡ command)
        × (entry.index ≡ add_u64 (last_log_index c) 1)
        × Decided entry.index (ok a) arrivals c₁ c'
  unfolding handle_submit replicated
  handle_submit_sound command arrivals c {a} {c'} h =
      elim (Bool-cases (same_state c.state leader)) [
        | inr other ↦ absurd (ground (arith, h, other))
        | inl leads ↦ elim (Result-cases (validate_command c command)) [
          | inl (e, invalid) ↦ absurd (ground (arith, h, leads, invalid))
          | inr (u, valid) ↦
              let q : replicated command arrivals c ≡ some (ok a, c') =
                ground (arith, h, leads, valid) in
              let ((appended, c₁), p, w) =
                >>=-eq-some (append_log_entry c command) _ {b = (ok a, c')} q in
              elim (Option-cases appended) [
                | inl absent ↦ absurd (ground (arith, w, absent))
                | inr (entry, e) ↦
                    let call : append_log_entry c command ≡ some (some entry, c₁) =
                      ground (arith, p, e) in
                    let (term, text, index) =
                      append_log_entry-entry c command entry {c₁ = c₁} call in
                    let ((o, c₂), v, z) =
                      >>=-eq-some (replicate_loop entry.index arrivals c₁) _ {b = (ok a, c')}
                        (rw e at w) in
                    let done = submit_outcome-ok o {a = a} (ground (arith, z)) in
                    let decided =
                      replicate_loop_sound entry.index arrivals c₁ {a = ok a} {c' = c'}
                        (ground (arith, v, z, done)) in
                    (
                      ground (arith, leads),
                      ground (arith, valid),
                      entry,
                      c₁,
                      call,
                      term,
                      text,
                      index,
                      decided,
                    )
              ]
        ]
      ]
