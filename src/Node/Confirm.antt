-- ===== src/Node/Confirm.antt =====
-- ReadIndex: what `confirm_leadership` and `handle_read_index` have established when they succeed.
use raft_vibe.Prelude.{
  ℕ, suc, ◌+◌, ◌*◌, ◌/◌, ◌≤◌, ◌<◌, ◌≡◌, refl, ap, ◌++◌, Bool, true, false, Result-cases, leb, ltb,
  Bool-cases, Option-cases, inl, inr, Option, some, List, [], ◌∷◌, ◌>>=◌, >>=-eq-some, ok, err,
  length, if◌then◌else◌, arith,
}
use raft_vibe.Types.{leader, AppendEntriesResult}
use raft_vibe.Core.State.{RaftCore}
use raft_vibe.Core.Election.{same_state}
use raft_vibe.Node.Replies.{Arrival, TransportError, confirm_loop, confirm_leadership}
use raft_vibe.Node.Server.{Others, poll_state, poll_loop, after_confirm, handle_read_index}

module _ {S M : Type 0} where
  -- `Confirming arrivals c n d`: these arrivals, in their order, take the core from `c` to `d`, none
  -- that answers shows a term newer than the node's when it comes, and `n` of them answer with
  -- success. Only what other tasks do in between changes the core.
  pub data Confirming
      : List (Arrival S M AppendEntriesResult) → RaftCore S M → ℕ → RaftCore S M → Type 0 where
    heard_all : (c : RaftCore S M) → Confirming [] c 0 c
    lost :
        (a : Arrival S M AppendEntriesResult) (e : TransportError)
        {rest : List (Arrival S M AppendEntriesResult)} {n : ℕ} {c c₁ d : RaftCore S M}
        → a.meanwhile c ≡ some c₁
        → a.reply ≡ err e
        → Confirming rest c₁ n d
        → Confirming (a ∷ rest) c n d
    refused :
        (a : Arrival S M AppendEntriesResult) (r : AppendEntriesResult)
        {rest : List (Arrival S M AppendEntriesResult)} {n : ℕ} {c c₁ d : RaftCore S M}
        → a.meanwhile c ≡ some c₁
        → a.reply ≡ ok r
        → r.term ≤ c₁.current_term
        → r.success ≡ false
        → Confirming rest c₁ n d
        → Confirming (a ∷ rest) c n d
    confirmed :
        (a : Arrival S M AppendEntriesResult) (r : AppendEntriesResult)
        {rest : List (Arrival S M AppendEntriesResult)} {n : ℕ} {c c₁ d : RaftCore S M}
        → a.meanwhile c ≡ some c₁
        → a.reply ≡ ok r
        → r.term ≤ c₁.current_term
        → r.success ≡ true
        → Confirming rest c₁ n d
        → Confirming (a ∷ rest) c (suc n) d

  -- The first arrivals, up to some place, confirm `n` times that the node leads from `c` on; under the
  -- lock after them the core is `c'`, and the node leads.
  pub record Confirmed (arrivals : List (Arrival S M AppendEntriesResult)) (last : Others S M)
      (c : RaftCore S M) (n : ℕ) (c' : RaftCore S M) : Type 0 where
    pub heard : List (Arrival S M AppendEntriesResult)
    pub unheard : List (Arrival S M AppendEntriesResult)
    pub in_order : arrivals ≡ heard ++ unheard
    pub d : RaftCore S M
    pub confirming : Confirming heard c n d
    pub then_locked : last d ≡ some c'
    pub still_leads : c'.state ≡ leader

  heard_none :
      (arrivals : List (Arrival S M AppendEntriesResult)) (last : Others S M) (c : RaftCore S M)
      {c' : RaftCore S M}
      → last c ≡ some c'
      → c'.state ≡ leader
      → Confirmed arrivals last c 0 c'
  heard_none arrivals last c p leads = record {
    heard = [];
    unheard = arrivals;
    in_order = refl;
    d = c;
    confirming = heard_all c;
    then_locked = p;
    still_leads = leads;
  }

  prepend :
      (a : Arrival S M AppendEntriesResult) (rest : List (Arrival S M AppendEntriesResult))
      (last : Others S M) (c c₁ : RaftCore S M) (k m : ℕ) {c' : RaftCore S M}
      → ((l : List (Arrival S M AppendEntriesResult)) (d : RaftCore S M)
          → Confirming l c₁ k d
          → Confirming (a ∷ l) c m d)
      → Confirmed rest last c₁ k c'
      → Confirmed (a ∷ rest) last c m c'
  prepend a rest last c c₁ k m f w = record {
    heard = a ∷ w.heard;
    unheard = w.unheard;
    in_order = ap (λ l. a ∷ l) w.in_order;
    d = w.d;
    confirming = f w.heard w.d w.confirming;
    then_locked = w.then_locked;
    still_leads = w.still_leads;
  }

  -- What is heard from some place on, by the loop's count of successes before and after.
  abbrev HeardFrom :
      List (Arrival S M AppendEntriesResult)
      → Others S M
      → ℕ
      → RaftCore S M
      → ℕ
      → RaftCore S M
      → Type 0
  HeardFrom arrivals last count c n c' = (k : ℕ) × (n ≡ count + k) × Confirmed arrivals last c k c'

  -- The last lock of `confirm_leadership`.
  abbrev last_lock : Others S M → ℕ → RaftCore S M → Option (Bool × ℕ × RaftCore S M)
  last_lock last count c = do d ← last c; some (same_state d.state leader, count, d)

  stops :
      (arrivals : List (Arrival S M AppendEntriesResult)) (last : Others S M) (count : ℕ)
      (c : RaftCore S M) {n : ℕ} {c' : RaftCore S M}
      → last_lock last count c ≡ some (true, n, c')
      → HeardFrom arrivals last count c n c'
  stops arrivals last count c {n} {c'} h =
      let (d, p, q) = >>=-eq-some (last c) _ {b = (true, n, c')} h in
      (0, ground (arith, q), heard_none arrivals last c (ground (arith, p, q)) (ground (arith, q)))

  stops_or_goes_on :
      (needed : ℕ) (rest : List (Arrival S M AppendEntriesResult)) (last : Others S M) (count : ℕ)
      (c : RaftCore S M) {n : ℕ} {c' : RaftCore S M}
      → (confirm_loop needed rest last count c ≡ some (true, n, c')
          → HeardFrom rest last count c n c')
      → (elim (leb needed count) [
        | true ↦ last_lock last count c
        | false ↦ confirm_loop needed rest last count c
      ])
        ≡ some (true, n, c')
      → HeardFrom rest last count c n c'
  stops_or_goes_on needed rest last count c {n} {c'} further h =
      elim (Bool-cases (leb needed count)) [
        | inl enough ↦ stops rest last count c {n = n} {c' = c'} (rw enough at h)
        | inr more ↦ further (rw more at h)
      ]

  confirm_loop_sound :
      (needed : ℕ) (arrivals : List (Arrival S M AppendEntriesResult)) (last : Others S M)
      (count : ℕ) (c : RaftCore S M) {n : ℕ} {c' : RaftCore S M}
      → confirm_loop needed arrivals last count c ≡ some (true, n, c')
      → HeardFrom arrivals last count c n c'
  unfolding confirm_loop
  confirm_loop_sound needed [] last count c {n} {c'} h = stops [] last count c {n = n} {c' = c'} h
  confirm_loop_sound needed (a ∷ rest) last count c {n} {c'} h =
      let (c₁, p, q) = >>=-eq-some (a.meanwhile c) _ h in
      elim (Result-cases a.reply) [
        | inl (e, failed) ↦
            let (k, t, w) =
              stops_or_goes_on needed rest last count c₁ {n = n} {c' = c'}
                (confirm_loop_sound needed rest last count c₁) (rw failed at q) in
            (k, t, prepend a rest last c c₁ k k (λ l d. lost a e p failed) w)
        | inr (r, replied) ↦
            let z = rw replied at q in
            elim (Bool-cases (ltb c₁.current_term r.term)) [
              | inl newer ↦ absurd (ground (arith, rw newer at z))
              | inr fresh ↦
                  let count' : ℕ = if r.success then count + 1 else count in
                  let (k, t, w) =
                    stops_or_goes_on needed rest last count' c₁ {n = n} {c' = c'}
                      (confirm_loop_sound needed rest last count' c₁) (rw fresh at z) in
                  elim (Bool-cases r.success) [
                    | inl yes_reply ↦ (
                      suc k,
                      ground (arith, t, yes_reply),
                      prepend a rest last c c₁ k (suc k)
                          (λ l d. confirmed a r p replied (ground (arith, fresh)) yes_reply) w,
                    )
                    | inr no_reply ↦ (
                      k,
                      ground (arith, t, no_reply),
                      prepend a rest last c c₁ k k
                          (λ l d. refused a r p replied (ground (arith, fresh)) no_reply) w,
                    )
                  ]
            ]
      ]

module _ {S M : Type 0} where
  poll_loop_sound :
      (read_index : ℕ) (waits : List (Others S M)) (c : RaftCore S M) {v : ℕ} {c' : RaftCore S M}
      → poll_loop read_index waits c ≡ some (ok v, c')
      → (c'.state ≡ leader) × (read_index ≤ v) × (v ≡ c'.last_applied)
  unfolding poll_loop poll_state
  poll_loop_sound read_index [] c h = ground arith
  poll_loop_sound read_index (w ∷ ws) c {v} {c'} h = elim (Option-cases (w c)) [
    | inl panic ↦ ground arith
    | inr (c₁, p) ↦ ground (arith, poll_loop_sound read_index ws c₁ {v = v} {c' = c'})
  ]

  confirm_leadership_sound :
      (arrivals : List (Arrival S M AppendEntriesResult)) (last : Others S M) (c : RaftCore S M)
      {n : ℕ} {c' : RaftCore S M}
      → confirm_leadership arrivals last c ≡ some (true, n, c')
      → (c.state ≡ leader) × Confirmed arrivals last c n c'
  unfolding confirm_leadership
  confirm_leadership_sound arrivals last c {n} {c'} h =
      elim (Bool-cases (same_state c.state leader)) [
        | inr other ↦ absurd (ground (arith, h, other))
        | inl leads ↦
            let (k, t, w) =
              confirm_loop_sound ((length c.peers + 1) / 2) arrivals last 0 c {n = n} {c' = c'}
                (rw leads at h) in
            let e : n ≡ k = omega (arith, t) in (ground (arith, leads), rw e w)
      ]

  after_confirm_sound :
      (read_index num_peers : ℕ) (waits : List (Others S M)) (leads : Bool) (n : ℕ)
      (c : RaftCore S M) {v : ℕ} {c' : RaftCore S M}
      → after_confirm read_index num_peers waits leads n c ≡ some (ok v, c')
      → (c'.state ≡ leader)
        × (read_index ≤ v)
        × (v ≡ c'.last_applied)
        × ((num_peers + 1) / 2 + 1 ≤ n + 1)
        × (leads ≡ true)
  unfolding after_confirm
  after_confirm_sound read_index num_peers waits leads n c {v} {c'} h =
      ground (arith, poll_loop_sound read_index waits c {v = v} {c' = c'})

  -- A read index is given only by a node that led when it was asked, and again when, after whatever
  -- others did before it had the lock again, it asked its peers to confirm that; only after replies,
  -- the first ones to come, of which none showed a newer term and as many were successes as make,
  -- with the node, more than half of the cluster; and only while the node leads under the lock after
  -- these replies and under the lock at the end. It is what the node has applied at the end, and no
  -- less than the node's own commit index when it was asked. It may be less than what an earlier
  -- leader has committed and this node does not count as committed yet.
  pub handle_read_index_sound :
      (before : Others S M) (arrivals : List (Arrival S M AppendEntriesResult))
      (last between : Others S M) (waits : List (Others S M)) (c : RaftCore S M) {v : ℕ}
      {c' : RaftCore S M}
      → handle_read_index before arrivals last between waits c ≡ some (ok v, c')
      → (c.state ≡ leader)
        × (c₀ : RaftCore S M) × (before c ≡ some c₀)
        × (c₀.state ≡ leader)
        × (n : ℕ) × (length c.peers + 1 < 2 * (1 + n))
        × (c₁ : RaftCore S M) × Confirmed arrivals last c₀ n c₁
        × (c'.state ≡ leader)
        × (c.commit_index ≤ v)
        × (v ≡ c'.last_applied)
  unfolding handle_read_index
  handle_read_index_sound before arrivals last between waits c {v} {c'} h =
      elim (Bool-cases (same_state c.state leader)) [
        | inr other ↦ absurd (ground (arith, h, other))
        | inl leads ↦
            let (c₀, g, i) = >>=-eq-some (before c) _ {b = (ok v, c')} (rw leads at h) in
            let ((l, n, c₁), p, q) =
              >>=-eq-some (confirm_leadership arrivals last c₀)
                (λ r. between r.2 >>= λ d.
                  after_confirm c.commit_index (length c.peers) waits r.0 r.1 d)
                {b = (ok v, c')} i in
            let (c₂, u, w) = >>=-eq-some (between c₁) _ q in
            let a = after_confirm_sound c.commit_index (length c.peers) waits l n c₂ w in
            let (led, b) = confirm_leadership_sound arrivals last c₀ (ground (arith, p, a.4)) in
            (ground arith, c₀, g, led, n, omega (arith, a.3), c₁, b, a.0, a.1, a.2)
      ]
