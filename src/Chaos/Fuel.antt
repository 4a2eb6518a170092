-- ===== src/Chaos/Fuel.antt =====
-- Termination of `search` in chaos-test/src/checker.rs: each call places one operation.
use raft_vibe.Prelude.{
  ℕ, zero, suc, ◌+◌, ◌≤◌, ◌≡◌, refl, Bool, Option, Option-cases, inl, inr, List, [], ◌∷◌, ◌++◌,
  length, max, arith, Has,
}
use raft_vibe.Chaos.History.{Operation}
use raft_vibe.Chaos.Checker.{RegisterModel, try_apply, candidates, Rest, try_each, search}
use raft_vibe.Chaos.Tries.{candidates-Has, required_after, optional_after}
use raft_vibe.Chaos.Search.{left_fewer}

module _ (ops : ℕ → Operation) where
  -- The loop is the same with calls that agree after each candidate.
  try_each_same :
      (next next' : Rest ops) (cs : List (ℕ × Bool)) (required optional : List ℕ)
      (m : RegisterModel) (frontier : ℕ) (lin : List ℕ)
      → ((i : ℕ) (flag : Bool) (m' : RegisterModel)
          → Has (i, flag) cs
          → next
              (required_after ops i flag required)
              (optional_after ops i flag optional)
              m'
              (max frontier (ops i).invoke_ts)
              (lin ++ (ops i).id ∷ [])
            ≡ next'
                (required_after ops i flag required)
                (optional_after ops i flag optional)
                m'
                (max frontier (ops i).invoke_ts)
                (lin ++ (ops i).id ∷ []))
      → try_each ops next cs required optional m frontier lin
        ≡ try_each ops next' cs required optional m frontier lin
  unfolding try_each
  try_each_same next next' [] required optional m frontier lin f = refl
  try_each_same next next' ((i, flag) ∷ cs) required optional m frontier lin f =
      let rest =
        try_each_same next next' cs required optional m frontier lin
          (λ j b m' h. f j b m' (inr h)) in
      elim (Option-cases (try_apply (ops i) m)) [
        | inl invalid ↦ rw (try_each, invalid) rest
        | inr (m', valid) ↦
            let step = f i flag m' (inl refl) in
            let again : Option (List ℕ) =
              next' (required_after ops i flag required) (optional_after ops i flag optional) m'
                (max frontier (ops i).invoke_ts) (lin ++ (ops i).id ∷ []) in
            elim (Option-cases again) [
              | inl fails ↦ rw (try_each, valid, step, fails) rest
              | inr (found, e) ↦ rw (try_each, valid, step, e) refl
            ]
      ]

  -- The result of `search` is the same at any two bounds of its depth that are at least the number of
  -- the operations that are left: the search ends by placing them, and never by its bound.
  pub search_depth :
      (fuel fuel' : ℕ) (required optional : List ℕ) (m : RegisterModel) (frontier : ℕ)
      (lin : List ℕ)
      → length required + length optional ≤ fuel
      → length required + length optional ≤ fuel'
      → search ops fuel required optional m frontier lin
        ≡ search ops fuel' required optional m frontier lin
  unfolding search
  search_depth zero zero [] optional m frontier lin a b = refl
  search_depth zero (suc fuel') [] optional m frontier lin a b = refl
  search_depth (suc fuel) zero [] optional m frontier lin a b = refl
  search_depth (suc fuel) (suc fuel') [] optional m frontier lin a b = refl
  search_depth zero fuel' (r ∷ required) optional m frontier lin a b = absurd (omega (arith, a))
  search_depth (suc fuel) zero (r ∷ required) optional m frontier lin a b =
      absurd (omega (arith, b))
  search_depth (suc fuel) (suc fuel') (r ∷ required) optional m frontier lin a b =
      try_each_same (search ops fuel) (search ops fuel')
        (candidates ops (r ∷ required) optional frontier) (r ∷ required) optional m frontier lin
        (λ i flag m' h.
          let (from, _) = candidates-Has ops (r ∷ required) optional frontier i flag h in
          let fewer = left_fewer ops (r ∷ required) optional i flag from in
          search_depth fuel fuel' (required_after ops i flag (r ∷ required))
            (optional_after ops i flag optional) m' (max frontier (ops i).invoke_ts)
            (lin ++ (ops i).id ∷ []) (omega (arith, a, fewer)) (omega (arith, b, fewer)))
