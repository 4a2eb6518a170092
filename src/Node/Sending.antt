-- ===== src/Node/Sending.antt =====
-- The requests that a leader builds against its own log.
use raft_vibe.Prelude.{
  ℕ, ◌+◌, ◌-◌, ◌≤◌, ◌<◌, ◌≡◌, ◌⊎◌, refl, ap, ◌∙◌, inl, inr, true, some, List, ◌∷◌, ◌&&◌, length,
  drop, last?, retain, leb, sub_u64, arith, dec_lt,
}
use raft_vibe.Types.{LogEntry, AppendEntriesArgs}
use raft_vibe.Storage.{Storage}
use raft_vibe.Core.State.{RaftCore}
use raft_vibe.Core.Query.{get_log_entry}
use raft_vibe.Core.Log.{Contiguous, Contiguous-drop, retain-Contiguous, get_log_entry_lem}
use raft_vibe.Core.LogOk.{LogOk}
use raft_vibe.Node.Request.{
  append_entries, replicate_args, next_of, prev_term, index_or_zero, heartbeat_append,
  heartbeat_request,
}

module _ {S M : Type 0} where
  -- What a request must say for a follower to check it: the entries follow `prev_log_index`, and
  -- `prev_log_term` is the leader's own term at that index.
  pub record Consistent (c : RaftCore S M) (next : ℕ) (req : AppendEntriesArgs) : Type 0 where
    pub prev : req.prev_log_index + 1 ≡ next
    pub contiguous : Contiguous req.prev_log_index req.entries
    pub prev_term :
        ((req.prev_log_index ≡ c.snapshot_last_index) × (req.prev_log_term ≡ c.snapshot_last_term))
        ⊎ ((e : LogEntry) × (get_log_entry c req.prev_log_index ≡ some e)
            × (req.prev_log_term ≡ e.term))
    pub term : req.term ≡ c.current_term
    pub leader_commit : req.leader_commit ≡ c.commit_index

  prev_term_lem :
      (c : RaftCore S M) (prev : ℕ)
      → c.snapshot_last_index < prev
      → prev ≤ c.snapshot_last_index + length c.log
      → (e : LogEntry) × (get_log_entry c prev ≡ some e) × (prev_term c prev ≡ e.term)
  unfolding prev_term get_log_entry
  prev_term_lem c prev lo hi =
      let (e, found, at) = get_log_entry_lem c prev lo hi in (e, found, ground (arith, at))

  prev_term_boundary : (c : RaftCore S M) → prev_term c c.snapshot_last_index ≡ c.snapshot_last_term
  unfolding prev_term
  prev_term_boundary c = ground arith

  retained :
      (c : RaftCore S M) (next : ℕ)
      → LogOk c
      → c.snapshot_last_index < next
      → retain (λ e. leb next e.index) c.log ≡ drop (next - 1 - c.snapshot_last_index) c.log
  retained c next k lo =
      let e : next ≡ next - 1 + 1 = omega arith in
      let all =
        retain-Contiguous (next - 1) c.snapshot_last_index c.log (omega arith) k.contiguous in
      rw (← e) at all

  -- On a well-formed core, a heartbeat to a follower whose next index is behind the boundary of the
  -- snapshot and at most one past the end of the log carries the whole log from that index on, and
  -- its entries, its previous index and its previous term agree with the log.
  pub heartbeat_request-Consistent :
      ⦃st : Storage S⦄ (c : RaftCore S M) (p : ℕ)
      → LogOk c
      → c.snapshot_last_index < next_of c p
      → next_of c p ≤ c.snapshot_last_index + length c.log + 1
      → (req : AppendEntriesArgs) × (i : ℕ) × (heartbeat_request c p ≡ some (append_entries req i))
        × (req.entries ≡ drop (next_of c p - 1 - c.snapshot_last_index) c.log)
        × Consistent c (next_of c p) req
  unfolding heartbeat_request heartbeat_append
  heartbeat_request-Consistent c p k lo hi =
      let next : ℕ = next_of c p in
      let n : ℕ = next - 1 - c.snapshot_last_index in
      let no_wrap : sub_u64 next 1 ≡ next - 1 = omega (arith, k.fits) in
      let rest = retained c next k lo in
      let from : c.snapshot_last_index + n ≡ next - 1 = omega arith in
      let req : AppendEntriesArgs = record {
        term = c.current_term;
        leader_id = c.id;
        prev_log_index = next - 1;
        prev_log_term = prev_term c (next - 1);
        entries = drop n c.log;
        leader_commit = c.commit_index;
      } in
      let follows = Contiguous-drop n c.snapshot_last_index c.log (omega arith) k.contiguous in
      (
        req,
        index_or_zero (last? (drop n c.log)),
        rw (no_wrap, rest) (ground (arith, no_wrap, rest)),
        refl,
        record {
          prev = omega arith;
          contiguous = rw from at follows;
          prev_term = elim (dec_lt c.snapshot_last_index (next - 1)) [
            | yes above ↦ inr (prev_term_lem c (next - 1) above (omega arith))
            | no at ↦
                let e : next - 1 ≡ c.snapshot_last_index = omega arith in
                inl (e, ap (prev_term c) e ∙ prev_term_boundary c)
          ];
          term = refl;
          leader_commit = refl;
        },
      )

  -- Unlike `send_heartbeat`, `replicate_to_peers` does not look at the boundary of the snapshot: to
  -- a follower whose next index is 1, a leader with a snapshot sends entries that start behind its
  -- snapshot as if they started the log.
  pub replicate_args_gap :
      (c : RaftCore S M) (p i : ℕ) (x : LogEntry) (l : List LogEntry)
      → LogOk c
      → 0 < c.snapshot_last_index
      → next_of c p ≡ 1
      → c.log ≡ x ∷ l
      → c.snapshot_last_index < i
      → (rest : List LogEntry) × ((replicate_args c i p).entries ≡ x ∷ rest)
        × ((replicate_args c i p).prev_log_index ≡ 0)
        × (1 < x.index)
  unfolding replicate_args
  replicate_args_gap c p i x l k snap first log within =
      let own = rw log at k.contiguous in
      let keep : (leb (next_of c p) x.index && leb x.index i) ≡ true =
        ground (arith, first, own.0) in
      (
        retain (λ e. leb (next_of c p) e.index && leb e.index i) l,
        rw (log, keep) refl,
        rw first (omega arith),
        omega (arith, own.0),
      )
