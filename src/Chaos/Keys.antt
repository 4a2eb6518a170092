-- ===== src/Chaos/Keys.antt =====
-- The loop of `check` in chaos-test/src/checker.rs over the keys of a history.
use mathlib.Core.Path.{subst}
use raft_vibe.Prelude.{
  ℕ, ◌≤◌, ◌≡◌, ◌↔◌, inl, inr, refl, Bool-cases, true, String, List, [], ◌∷◌, ◌++◌, All, arith,
  All-Has, Has-All, Has-append, All-retain,
}
use raft_vibe.Chaos.History.{Operation, History, ops_for_key}
use raft_vibe.Chaos.Checker.{
  CheckResult, max_ts, confirmed, indeterminate, check_single_key, check_keys,
}
use raft_vibe.Chaos.Split.{Splits, for_key-Splits, Splits-for_key}
use raft_vibe.Chaos.Verdict.{Linearizes, InOrder, check_single_key_iff}

max_ts-bound :
    (time : ℕ) (l : List Operation) → All (λ op. op.complete_ts ≤ time) l → max_ts l ≤ time
unfolding max_ts
max_ts-bound time [] all = omega arith
max_ts-bound time (op ∷ l) (h, all) = omega (arith, h, max_ts-bound time l all)

module _ (P : Operation → Type 0) (h : History) (key : String) (all : All P h.ops) where
  confirmed-All : All P (confirmed (ops_for_key h key))
  unfolding confirmed ops_for_key
  confirmed-All = All-retain P _ _ (All-retain P _ h.ops all)

  indeterminate-All : All P (indeterminate (ops_for_key h key))
  unfolding indeterminate ops_for_key
  indeterminate-All = All-retain P _ _ (All-retain P _ h.ops all)

append-All :
    (P : Operation → Type 0) (xs ys : List Operation) → All P xs → All P ys → All P (xs ++ ys)
append-All P xs ys a b = Has-All P (xs ++ ys) (λ op m. elim (Has-append xs ys op m) [
  | inl l ↦ All-Has P xs op a l
  | inr r ↦ All-Has P ys op b r
])

-- The operations of the key have a linearization.
abbrev pub KeyLinearizes : ℕ → History → String → Type 0
KeyLinearizes time h key =
    (ops : List Operation) × (undecided : List Operation) × Splits key h.ops ops undecided
    × (order : List ℕ) × Linearizes time ops undecided order

filtered_iff :
    (h : History) (key : String) (time : ℕ)
    → InOrder h.ops
    → All (λ op. op.complete_ts ≤ time) h.ops
    → ((check_single_key
          (confirmed (ops_for_key h key))
          (indeterminate (ops_for_key h key))).is_linearizable
        ≡ true)
      ↔ ((order : List ℕ) × Linearizes time
            (confirmed (ops_for_key h key))
            (indeterminate (ops_for_key h key))
            order)
filtered_iff h key time timed ends =
    let ops = ops_for_key h key in
    check_single_key_iff (confirmed ops) (indeterminate ops) time
      (confirmed-All (λ op. op.invoke_ts ≤ op.complete_ts) h key timed)
      (indeterminate-All (λ op. op.invoke_ts ≤ op.complete_ts) h key timed)
      (max_ts-bound time (confirmed ops ++ indeterminate ops) (
        append-All _ (confirmed ops) (indeterminate ops)
          (confirmed-All (λ op. op.complete_ts ≤ time) h key ends)
          (indeterminate-All (λ op. op.complete_ts ≤ time) h key ends)))

key_iff :
    (h : History) (key : String) (time : ℕ)
    → InOrder h.ops
    → All (λ op. op.complete_ts ≤ time) h.ops
    → ((check_single_key
          (confirmed (ops_for_key h key))
          (indeterminate (ops_for_key h key))).is_linearizable
        ≡ true)
      ↔ KeyLinearizes time h key
unfolding ops_for_key
key_iff h key time timed ends =
    let exact = filtered_iff h key time timed ends in
    (
      λ e. let (order, l) = exact.0 e in (_, _, for_key-Splits key h.ops, order, l),
      λ (ops, undecided, s, order, l).
          let (a, b) = Splits-for_key key s in
          exact.1 (
            order,
            subst (λ us. Linearizes time _ us order) b
                (subst (λ os. Linearizes time os undecided order) a l),
          ),
    )

module _ (h : History) (time : ℕ) (timed : InOrder h.ops)
    (ends : All (λ op. op.complete_ts ≤ time) h.ops) where
  accepted :
      (keys : List String) (found : List ℕ)
      → (check_keys h keys found).is_linearizable ≡ true
      → All (KeyLinearizes time h) keys
  unfolding check_keys
  accepted [] found e = tt
  accepted (key ∷ keys) found e =
      let ops = ops_for_key h key in
      let result : CheckResult = check_single_key (confirmed ops) (indeterminate ops) in
      elim (Bool-cases result.is_linearizable) [
        | inl t ↦ ((key_iff h key time timed ends).0 t, accepted keys _ (rw (check_keys, t) at e))
        | inr f ↦ absurd (ground (arith, rw (check_keys, f) at e))
      ]

  accepts :
      (keys : List String) (found : List ℕ)
      → All (KeyLinearizes time h) keys
      → (check_keys h keys found).is_linearizable ≡ true
  unfolding check_keys
  accepts [] found all = refl
  accepts (key ∷ keys) found (k, all) =
      let t = (key_iff h key time timed ends).1 k in rw (check_keys, t) (accepts keys _ all)

-- Where every operation of the history started before it was complete and none was complete after
-- the time, the loop over the keys, in whatever order it walks them and whatever it has found
-- before, accepts the history if and only if for each of the keys the operations on this key that the
-- client was told the outcome of, and the writes on this key that ended in an error, which may or may
-- not have happened, have a linearization.
pub check_keys_iff :
    (h : History) (keys : List String) (found : List ℕ) (time : ℕ)
    → InOrder h.ops
    → All (λ op. op.complete_ts ≤ time) h.ops
    → ((check_keys h keys found).is_linearizable ≡ true) ↔ All (KeyLinearizes time h) keys
check_keys_iff h keys found time timed ends =
    (accepted h time timed ends keys found, accepts h time timed ends keys found)
