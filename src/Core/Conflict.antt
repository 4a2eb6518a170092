-- ===== src/Core/Conflict.antt =====
-- A conflicting entry behind a snapshot: `persist_truncate_log` takes an index for a position.
use raft_vibe.Prelude.{
  ℕ, suc, ◌-◌, ◌<◌, ◌≡◌, ◌≢◌, ◌∙◌, some, [], ◌∷◌, >>=-eq-some, get_elem?, sub_u64, u64_mod,
  get_elem?-append_left, get_elem?-take, lt-length_of_get_elem?, arith,
}
use raft_vibe.Types.{LogEntry}
use raft_vibe.Storage.{Storage}
use raft_vibe.Core.State.{RaftCore}
use raft_vibe.Core.Persist.{persist_log_entry, persist_truncate_log}
use raft_vibe.Core.Query.{get_log_entry}
use raft_vibe.Core.Append.{replace_from, apply_entry}

module _ {S M : Type 0} ⦃st : Storage S⦄ where
  truncate_keeps_before :
      (c : RaftCore S M) (index p : ℕ) {x : LogEntry} {c' : RaftCore S M}
      → suc p < index
      → index < u64_mod
      → get_elem? c.log p ≡ some x
      → persist_truncate_log c index ≡ some c'
      → (c'.snapshot_last_index ≡ c.snapshot_last_index) × (get_elem? c'.log p ≡ some x)
  unfolding persist_truncate_log
  truncate_keeps_before c index p {x} {c'} lt fits at h =
      let pos : sub_u64 index 1 ≡ index - 1 = omega arith in
      let kept = get_elem?-take (index - 1) c.log p (omega arith) in ground (arith, pos, kept)

  append_keeps_before :
      (c : RaftCore S M) (e : LogEntry) (p : ℕ) {x : LogEntry} {c' : RaftCore S M}
      → get_elem? c.log p ≡ some x
      → persist_log_entry c e ≡ some c'
      → (c'.snapshot_last_index ≡ c.snapshot_last_index) × (get_elem? c'.log p ≡ some x)
  unfolding persist_log_entry
  append_keeps_before c e p at h =
      let kept = get_elem?-append_left c.log (e ∷ []) p (lt-length_of_get_elem? c.log p at) in
      ground (arith, kept)

  replace_keeps_before :
      (c : RaftCore S M) (e : LogEntry) (p : ℕ) {x : LogEntry} {c' : RaftCore S M}
      → suc p < e.index
      → e.index < u64_mod
      → get_elem? c.log p ≡ some x
      → replace_from c e ≡ some c'
      → (c'.snapshot_last_index ≡ c.snapshot_last_index) × (get_elem? c'.log p ≡ some x)
  unfolding replace_from
  replace_keeps_before c e p lt fits at h =
      let (c₁, q, r) = >>=-eq-some (persist_truncate_log c e.index) _ h in
      let a = truncate_keeps_before c e.index p lt fits at q in
      let b = append_keeps_before c₁ e p a.1 r in (b.0 ∙ a.0, b.1)

  -- With a snapshot, a conflicting entry is not removed: `persist_truncate_log` cuts at
  -- `index - 1`, which lies behind the entry's position, and the lookup at its index still finds it.
  pub conflict_kept :
      (c : RaftCore S M) (e x : LogEntry) {c' : RaftCore S M}
      → 0 < c.snapshot_last_index
      → e.index < u64_mod
      → get_log_entry c e.index ≡ some x
      → x.term ≢ e.term
      → apply_entry c e ≡ some c'
      → get_log_entry c' e.index ≡ some x
  unfolding apply_entry get_log_entry
  conflict_kept c e x {c'} snap fits found differs h =
      let p : ℕ = e.index - c.snapshot_last_index - 1 in
      let facts : (c.snapshot_last_index < e.index) × (get_elem? c.log p ≡ some x) = ground arith in
      ground (arith, replace_keeps_before c e p {x = x} {c' = c'} (omega arith) fits facts.1)
