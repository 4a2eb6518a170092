-- ===== src/Api/Reads.antt =====
-- What the answers of src/api/client_http.rs say about the node.
use raft_vibe.Prelude.{
  ℕ, ◌+◌, ◌*◌, length, ◌<◌, ◌≤◌, ◌≡◌, refl, String, Bool, Option-cases, Result-cases, inl, inr,
  some, List, >>=-eq-some, Result, ok, err, arith,
}
use raft_vibe.Types.{LogEntry, leader, AppendEntriesResult}
use raft_vibe.Storage.{Storage}
use raft_vibe.Machine.{Machine}
use raft_vibe.Machine.Kv.{KeyValueStore, get}
use raft_vibe.Core.State.{RaftCore}
use raft_vibe.Core.Leader.{append_log_entry}
use raft_vibe.Node.Replies.{Arrival}
use raft_vibe.Node.Server.{RaftError, Others, handle_submit, handle_read_index, submit, read_index}
use raft_vibe.Node.Deciding.{Decided}
use raft_vibe.Node.Submit.{handle_submit_sound}
use raft_vibe.Node.Confirm.{Confirmed, handle_read_index_sound}
use raft_vibe.Api.Handlers.{
  KvGetResponse, KvMutationResponse, handle_kv_get, handle_kv_set, read_value, set_command,
}

module _ {S : Type 0} ⦃st : Storage S⦄ ⦃sm : Machine KeyValueStore⦄ where
  read_value_lem :
      (key : String) (unlocked : Others S KeyValueStore) (outcome : Result RaftError ℕ)
      (c : RaftCore S KeyValueStore) {r : KvGetResponse} {c' : RaftCore S KeyValueStore}
      → read_value key unlocked outcome c ≡ some (ok r, c')
      → (v : ℕ) × (outcome ≡ ok v)
        × (unlocked c ≡ some c')
        × (r.key ≡ key)
        × (r.value ≡ get c'.state_machine key)
  unfolding read_value
  read_value_lem key unlocked (err e) c h = absurd (ground (arith, h))
  read_value_lem key unlocked (ok v) c {r} {c'} h = elim (Option-cases (unlocked c)) [
    | inl panic ↦ absurd (ground (arith, h))
    | inr (c₁, u) ↦ (v, refl, ground arith, ground arith, ground arith)
  ]

  -- A read over HTTP that succeeds: the node led when it was asked, and again when it asked its peers to
  -- confirm that; the first replies, of which none showed a newer term, had as many successes as make,
  -- with the node, more than half of the cluster, and under the lock after them the node led; at a
  -- moment after that it still led and had applied everything up to its own commit index when it was
  -- asked; and the value is the store's at a moment not before that. Commands that an earlier leader
  -- has committed and this node did not count as committed when it was asked need not be in it.
  pub handle_kv_get_sound :
      (delivered : Bool) (key : String) (before : Others S KeyValueStore)
      (arrivals : List (Arrival S KeyValueStore AppendEntriesResult))
      (last between : Others S KeyValueStore) (waits : List (Others S KeyValueStore))
      (unlocked : Others S KeyValueStore) (c : RaftCore S KeyValueStore) {r : KvGetResponse}
      {c' : RaftCore S KeyValueStore}
      → handle_kv_get delivered key before arrivals last between waits unlocked c ≡ some (ok r, c')
      → (c.state ≡ leader)
        × (c₀ : RaftCore S KeyValueStore) × (before c ≡ some c₀)
        × (c₀.state ≡ leader)
        × (n : ℕ) × (length c.peers + 1 < 2 * (1 + n))
        × (c₁ : RaftCore S KeyValueStore) × Confirmed arrivals last c₀ n c₁
        × (c₂ : RaftCore S KeyValueStore) × (c₂.state ≡ leader)
        × (c.commit_index ≤ c₂.last_applied)
        × (unlocked c₂ ≡ some c')
        × (r.key ≡ key)
        × (r.value ≡ get c'.state_machine key)
  unfolding handle_kv_get read_index
  handle_kv_get_sound delivered key before arrivals last between waits unlocked c {r} {c'} h =
      let ((outcome, c₂), p, q) =
        >>=-eq-some (read_index delivered before arrivals last between waits c) _ h in
      let (v, e, u, k, w) = read_value_lem key unlocked outcome c₂ {r = r} {c' = c'} q in
      let lead : handle_read_index before arrivals last between waits c ≡ some (ok v, c₂) =
        ground arith in
      let (led, c₀, g, led₀, n, enough, c₁, confirmed, leads, index, applied) =
        handle_read_index_sound before arrivals last between waits c {v = v} {c' = c₂} lead in
      (
        led,
        c₀,
        g,
        led₀,
        n,
        enough,
        c₁,
        confirmed,
        c₂,
        leads,
        omega (arith, index, applied),
        u,
        k,
        w,
      )

module _ {S M : Type 0} ⦃st : Storage S⦄ ⦃sm : Machine M⦄ where
  -- A write over HTTP that succeeds: the node led, and an entry of its term with exactly the
  -- command of the request was appended; one of the arrivals, taken in where the arrivals before it and
  -- what others did in between had taken the core, was a response on which the node, as a leader,
  -- committed the index of this entry, by an entry of its own term that the followers with rows of
  -- their own in `match_index`, with the leader more than half of the cluster, are recorded to hold;
  -- and applying at that index gave success in the same call.
  pub handle_kv_set_sound :
      (delivered : Bool) (key value : String) (arrivals : List (Arrival S M AppendEntriesResult))
      (c : RaftCore S M) {r : KvMutationResponse} {c' : RaftCore S M}
      → handle_kv_set delivered key value arrivals c ≡ some (ok r, c')
      → (r.key ≡ key)
        × (c.state ≡ leader)
        × (entry : LogEntry) × (c₁ : RaftCore S M) × (append_log_entry c (set_command key value)
            ≡ some (some entry, c₁))
        × (entry.term ≡ c.current_term)
        × (entry.command ≡ set_command key value)
        × (a : String) × Decided entry.index (ok a) arrivals c₁ c'
  unfolding handle_kv_set submit
  handle_kv_set_sound delivered key value arrivals c {r} {c'} h =
      let ((outcome, c₁), p, q) =
        >>=-eq-some (submit delivered (set_command key value) arrivals c) _ h in
      elim (Result-cases outcome) [
        | inl (e, failed) ↦ absurd (ground (arith, q, failed))
        | inr (a, done) ↦
            let call : handle_submit (set_command key value) arrivals c ≡ some (ok a, c') =
              ground (arith, p, q, done) in
            let (leads, valid, entry, c₂, appended, term, text, index, decided) =
              handle_submit_sound (set_command key value) arrivals c {a = a} {c' = c'} call in
            (ground (arith, q, done), leads, entry, c₂, appended, term, text, a, decided)
      ]
