-- ===== src/Node/Deciding.antt =====
-- The arrival on which `replicate_to_peers` of src/core/raft_node.rs has its result.
use raft_vibe.Prelude.{
  ℕ, ◌≤◌, ◌≡◌, ◌⊎◌, ◌==◌, ◌++◌, refl, ap, Has, Bool-cases, Option-cases, Result-cases, inl, inr,
  Option, none, some, List, [], ◌∷◌, >>=-eq-some, ok, err, arith,
}
use raft_vibe.Types.{AppendEntriesResult, ApplyResult, leader}
use raft_vibe.Storage.{Storage}
use raft_vibe.Machine.{Machine}
use raft_vibe.Core.State.{RaftCore}
use raft_vibe.Core.Apply.{apply_committed_entries}
use raft_vibe.Core.Election.{same_state}
use raft_vibe.Core.Leader.{
  record_result, try_commit, process_append_entries_response, handle_append_entries_result,
}
use raft_vibe.Core.Committing.{MayCommit, handle_append_entries_result_sound}
use raft_vibe.Node.Replies.{Arrival, TransportError, result_for, replicate_loop}

result_for-Has :
    (i : ℕ) (found : Option ApplyResult) (rs : List (ℕ × ApplyResult)) {a : ApplyResult}
    → result_for i found rs ≡ some a
    → (found ≡ some a) ⊎ Has (i, a) rs
unfolding result_for
result_for-Has i found [] h = inl h
result_for-Has i found ((j, r) ∷ rs) {a} h = elim (Bool-cases (j == i)) [
  | inr other ↦ elim (result_for-Has i found rs {a = a} (rw other at h)) [
    | inl e ↦ inl e
    | inr m ↦ inr (inr m)
  ]
  | inl same ↦ elim (result_for-Has i (some r) rs {a = a} (rw same at h)) [
    | inl e ↦ inr (inl (ground (arith, same, e)))
    | inr m ↦ inr (inr m)
  ]
]

module _ {S M : Type 0} ⦃st : Storage S⦄ ⦃sm : Machine M⦄ where
  -- `Awaiting i arrivals c d`: these arrivals, in their order, take the core from `c` to `d`, and none
  -- of them brings a result for the entry `i`. An arrival that is an error leaves the core as others
  -- have made it in between; a response is taken in as it came.
  pub data Awaiting (i : ℕ)
      : List (Arrival S M AppendEntriesResult) → RaftCore S M → RaftCore S M → Type 0 where
    none_yet : (c : RaftCore S M) → Awaiting i [] c c
    lost :
        (x : Arrival S M AppendEntriesResult) (e : TransportError)
        {rest : List (Arrival S M AppendEntriesResult)} {c c₁ d : RaftCore S M}
        → x.meanwhile c ≡ some c₁
        → x.reply ≡ err e
        → Awaiting i rest c₁ d
        → Awaiting i (x ∷ rest) c d
    taken_in :
        (x : Arrival S M AppendEntriesResult) (r : AppendEntriesResult) (committed : Option ℕ)
        (results : List (ℕ × ApplyResult)) {rest : List (Arrival S M AppendEntriesResult)}
        {c c₁ c₂ d : RaftCore S M}
        → x.meanwhile c ≡ some c₁
        → x.reply ≡ ok r
        → handle_append_entries_result c₁ x.peer i r ≡ some (committed, results, c₂)
        → Awaiting i rest c₂ d
        → Awaiting i (x ∷ rest) c d

  -- The arrival `x` that decided, `before` the others: it is a response, and the call that takes it in
  -- commits the index `i`, as it may, and brings the result `a` of applying the entry there.
  pub record Decided (i : ℕ) (a : ApplyResult) (arrivals : List (Arrival S M AppendEntriesResult))
      (c c' : RaftCore S M) : Type 0 where
    pub before : List (Arrival S M AppendEntriesResult)
    pub x : Arrival S M AppendEntriesResult
    pub after : List (Arrival S M AppendEntriesResult)
    pub in_order : arrivals ≡ before ++ x ∷ after
    pub waited : RaftCore S M
    pub awaiting : Awaiting i before c waited
    pub d : RaftCore S M
    pub others : x.meanwhile waited ≡ some d
    pub response : AppendEntriesResult
    pub replied : x.reply ≡ ok response
    pub fresh : response.term ≤ d.current_term
    pub may_commit : MayCommit (record_result d x.peer i response) i
    pub results : List (ℕ × ApplyResult)
    pub call : handle_append_entries_result d x.peer i response ≡ some (some i, results, c')
    pub given : Has (i, a) results

  try_commit-nothing :
      (c : RaftCore S M) (i : ℕ) {rs : List (ℕ × ApplyResult)} {c' : RaftCore S M}
      → try_commit c i ≡ some (none, rs, c')
      → rs ≡ []
  unfolding try_commit
  try_commit-nothing c i {rs} {c'} h =
      elim (Option-cases (apply_committed_entries (record c { commit_index = i }))) [
        | inl panic ↦ ground arith
        | inr ((rs', c₁), p) ↦ ground arith
      ]

  no_results :
      (c : RaftCore S M) (p i : ℕ) (r : AppendEntriesResult) {rs : List (ℕ × ApplyResult)}
      {c' : RaftCore S M}
      → handle_append_entries_result c p i r ≡ some (none, rs, c')
      → rs ≡ []
  unfolding handle_append_entries_result
  no_results c p i r {rs} {c'} h =
      let (c₁, s, q) = >>=-eq-some (process_append_entries_response c r) _ h in
      elim (Bool-cases (same_state c₁.state leader)) [
        | inr other ↦ ground arith
        | inl leads ↦
            try_commit-nothing (record_result c₁ p i r) i {rs = rs} {c' = c'} (rw leads at q)
      ]

  decides :
      (x : Arrival S M AppendEntriesResult) (rest : List (Arrival S M AppendEntriesResult))
      (c₀ c : RaftCore S M) (i : ℕ) (r : AppendEntriesResult) (o : Option ℕ)
      {rs : List (ℕ × ApplyResult)} {c' : RaftCore S M} {a : ApplyResult}
      → x.meanwhile c₀ ≡ some c
      → x.reply ≡ ok r
      → handle_append_entries_result c x.peer i r ≡ some (o, rs, c')
      → result_for i none rs ≡ some a
      → Decided i a (x ∷ rest) c₀ c'
  unfolding result_for
  decides x rest c₀ c i r none {rs} {c'} {a} m p h f =
      let e : rs ≡ [] = no_results c x.peer i r h in absurd (ground (arith, e, f))
  decides x rest c₀ c i r (some j) {rs} {c'} {a} m p h f =
      let s = handle_append_entries_result_sound c x.peer i j r h in
      record {
        before = [];
        x = x;
        after = rest;
        in_order = refl;
        waited = c₀;
        awaiting = none_yet c₀;
        d = c;
        others = m;
        response = r;
        replied = p;
        fresh = s.0;
        may_commit = s.2;
        results = rs;
        call = ground (arith, h, s.1);
        given = elim (result_for-Has i none rs {a = a} f) [
          | inl e ↦ absurd (ground (arith, e))
          | inr there ↦ there
        ];
      }

  decides_later :
      (y : Arrival S M AppendEntriesResult) (rest : List (Arrival S M AppendEntriesResult)) (i : ℕ)
      (a : ApplyResult) (c c₁ : RaftCore S M) {c' : RaftCore S M}
      → ((l : List (Arrival S M AppendEntriesResult)) (d : RaftCore S M)
          → Awaiting i l c₁ d
          → Awaiting i (y ∷ l) c d)
      → Decided i a rest c₁ c'
      → Decided i a (y ∷ rest) c c'
  decides_later y rest i a c c₁ f w = record {
    before = y ∷ w.before;
    x = w.x;
    after = w.after;
    in_order = ap (λ l. y ∷ l) w.in_order;
    waited = w.waited;
    awaiting = f w.before w.waited w.awaiting;
    d = w.d;
    others = w.others;
    response = w.response;
    replied = w.replied;
    fresh = w.fresh;
    may_commit = w.may_commit;
    results = w.results;
    call = w.call;
    given = w.given;
  }

  -- Where `replicate_loop` has a result, one of the arrivals decided on it.
  pub replicate_loop_sound :
      (i : ℕ) (arrivals : List (Arrival S M AppendEntriesResult)) (c : RaftCore S M)
      {a : ApplyResult} {c' : RaftCore S M}
      → replicate_loop i arrivals c ≡ some (some a, c')
      → Decided i a arrivals c c'
  unfolding replicate_loop
  replicate_loop_sound i [] c h = absurd (ground (arith, h))
  replicate_loop_sound i (x ∷ rest) c {a} {c'} h =
      let (c₁, p, q) = >>=-eq-some (x.meanwhile c) _ h in
      elim (Result-cases x.reply) [
        | inl (e, failed) ↦
            decides_later x rest i a c c₁ (λ l d. lost x e p failed)
              (replicate_loop_sound i rest c₁ (rw failed at q))
        | inr (r, replied) ↦
            let ((o, rs, c₂), u, w) =
              >>=-eq-some (handle_append_entries_result c₁ x.peer i r) _ (rw replied at q) in
            elim (Option-cases (result_for i none rs)) [
              | inl absent ↦
                  decides_later x rest i a c c₂ (λ l d. taken_in x r o rs p replied u)
                    (replicate_loop_sound i rest c₂ (rw absent at w))
              | inr (b, found) ↦
                  decides x rest c c₁ i r o {rs = rs} p replied (ground (arith, u, w, found))
                    (ground (arith, w, found))
            ]
      ]
