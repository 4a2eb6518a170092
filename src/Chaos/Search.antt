-- ===== src/Chaos/Search.antt =====
-- `search` of chaos-test/src/checker.rs finds an order exactly if there is one.
use raft_vibe.Prelude.{
  ℕ, zero, suc, ◌+◌, ◌≤◌, ◌<◌, ◌≡◌, ◌≢◌, ◌⊎◌, inl, inr, refl, sym, ◌∙◌, Bool, true, false, some,
  List, [], ◌∷◌, ◌++◌, All, length, map, max, ℕ_discrete, arith, Has, All-Has, Has-All, others-Has,
  Has-others, length-others-lt,
}
use mathlib.Core.List.{append-nil, append_assoc}
use raft_vibe.Chaos.History.{Operation}
use raft_vibe.Chaos.Checker.{RegisterModel, try_apply, without, candidates, search}
use raft_vibe.Chaos.Linear.{try_apply-Effect, IsLinearization}
use raft_vibe.Chaos.Tries.{From, candidates-Has, required_after, optional_after, try_each_sound}

-- No index is both required and optional.
abbrev pub Apart : List ℕ → List ℕ → Type 0
Apart required optional = All (λ i. ¬ (Has i optional)) required

module _ (ops : ℕ → Operation) where
  abbrev pub ids : List ℕ → List ℕ
  ids order = map (λ i. (ops i).id) order

  -- What is left once a candidate is placed.
  pub left_within :
      (required optional : List ℕ) (i : ℕ) (flag : Bool) (j : ℕ)
      → Apart required optional
      → From ops required optional i flag
      → Has j (required_after ops i flag required) ⊎ Has j (optional_after ops i flag optional)
      → (Has j required ⊎ Has j optional) × (j ≢ i)
  left_within required optional i false j apart from (inl m) =
      let (h, differs) = others-Has i required j m in (inl h, differs)
  left_within required optional i false j apart from (inr m) =
      (inr m, λ e. All-Has (λ k. ¬ (Has k optional)) required i apart from (rw e at m))
  left_within required optional i true j apart from (inl m) =
      (inl m, λ e. All-Has (λ k. ¬ (Has k optional)) required j apart m (rw (sym e) at from))
  left_within required optional i true j apart from (inr m) =
      let (h, differs) = others-Has i optional j m in (inr h, differs)

  pub left_of :
      (required optional : List ℕ) (i : ℕ) (flag : Bool) (j : ℕ)
      → Has j required ⊎ Has j optional
      → j ≢ i
      → Has j (required_after ops i flag required) ⊎ Has j (optional_after ops i flag optional)
  left_of required optional i false j (inl m) differs = inl (Has-others i required j m differs)
  left_of required optional i false j (inr m) differs = inr m
  left_of required optional i true j (inl m) differs = inl m
  left_of required optional i true j (inr m) differs = inr (Has-others i optional j m differs)

  pub left-Apart :
      (required optional : List ℕ) (i : ℕ) (flag : Bool)
      → Apart required optional
      → Apart (required_after ops i flag required) (optional_after ops i flag optional)
  left-Apart required optional i false apart =
      Has-All (λ j. ¬ (Has j optional)) (without i required)
        (λ j m. All-Has (λ k. ¬ (Has k optional)) required j apart (others-Has i required j m).0)
  left-Apart required optional i true apart =
      Has-All (λ j. ¬ (Has j (without i optional))) required
        (λ j m p.
          All-Has (λ k. ¬ (Has k optional)) required j apart m (others-Has i optional j p).0)

  pub left_fewer :
      (required optional : List ℕ) (i : ℕ) (flag : Bool)
      → From ops required optional i flag
      → length (required_after ops i flag required) + length (optional_after ops i flag optional)
        < length required + length optional
  left_fewer required optional i false m = omega (arith, length-others-lt i required m)
  left_fewer required optional i true m = omega (arith, length-others-lt i optional m)

  pub required_left :
      (required : List ℕ) (optional : List ℕ) (i : ℕ) (flag : Bool) (j : ℕ)
      → Has j required
      → (j ≡ i) ⊎ Has j (required_after ops i flag required)
  required_left required optional i true j m = inr m
  required_left required optional i false j m = elim (ℕ_discrete j i) [
    | yes e ↦ inl e
    | no differs ↦ inr (Has-others i required j m differs)
  ]

  -- Put before a linearization of what is left, a candidate that can be applied gives one.
  place :
      (required optional : List ℕ) (m m' : RegisterModel) (time : ℕ) (i : ℕ) (flag : Bool)
      (order : List ℕ)
      → Apart required optional
      → From ops required optional i flag
      → time ≤ (ops i).complete_ts
      → try_apply (ops i) m ≡ some m'
      → IsLinearization ops
          (required_after ops i flag required)
          (optional_after ops i flag optional)
          m'
          (max time (ops i).invoke_ts)
          order
      → IsLinearization ops required optional m time (i ∷ order)
  place required optional m m' time i flag order apart from late valid k = record {
    legal = (m', try_apply-Effect (ops i) m m' valid, k.legal);
    real_time = (
      Has-All (λ j. (ops i).invoke_ts ≤ (ops j).complete_ts) order
          (λ j h. omega (
            arith,
            All-Has (λ j. max time (ops i).invoke_ts ≤ (ops j).complete_ts) order j k.not_before h,
          )),
      k.real_time,
    );
    not_before = (
      late,
      Has-All (λ j. time ≤ (ops j).complete_ts) order
          (λ j h. omega (
            arith,
            All-Has (λ j. max time (ops i).invoke_ts ≤ (ops j).complete_ts) order j k.not_before h,
          )),
    );
    once = (
      λ h.
          (left_within required optional i flag i apart from (All-Has _ order i k.within h)).1 refl,
      k.once,
    );
    within = (
      from_either flag from,
      Has-All _ order (λ j h.
          (left_within required optional i flag j apart from (All-Has _ order j k.within h)).0),
    );
    complete = Has-All _ required (λ j h. elim (required_left required optional i flag j h) [
      | inl e ↦ inl e
      | inr l ↦ inr (All-Has _ (required_after ops i flag required) j k.complete l)
    ]);
  }
    where
      from_either : (b : Bool) → From ops required optional i b → Has i required ⊎ Has i optional
      from_either false h = inl h
      from_either true h = inr h

  pub search_sound :
      (fuel : ℕ) (required optional : List ℕ) (m : RegisterModel) (frontier : ℕ) (lin l : List ℕ)
      → Apart required optional
      → search ops fuel required optional m frontier lin ≡ some l
      → (order : List ℕ) × (l ≡ lin ++ ids order)
        × IsLinearization ops required optional m frontier order
  unfolding search
  search_sound fuel [] optional m frontier lin l apart h = (
    [],
    ground (arith, h, append-nil lin),
    record { legal = tt; real_time = tt; not_before = tt; once = tt; within = tt; complete = tt },
  )
  search_sound zero (r ∷ required) optional m frontier lin l apart h = absurd (ground (arith, h))
  search_sound (suc fuel) (r ∷ required) optional m frontier lin l apart h =
      let (i, flag, m', c, valid, again) =
        try_each_sound ops (search ops fuel) (candidates ops (r ∷ required) optional frontier)
          (r ∷ required) optional m frontier lin l h in
      let (from, late) = candidates-Has ops (r ∷ required) optional frontier i flag c in
      let (order, e, k) =
        search_sound fuel (required_after ops i flag (r ∷ required))
          (optional_after ops i flag optional) m' (max frontier (ops i).invoke_ts)
          (lin ++ (ops i).id ∷ []) l (left-Apart (r ∷ required) optional i flag apart) again in
      (
        i ∷ order,
        e ∙ append_assoc lin ((ops i).id ∷ []) (ids order),
        place (r ∷ required) optional m m' frontier i flag order apart from late valid k,
      )
