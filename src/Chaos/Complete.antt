-- ===== src/Chaos/Complete.antt =====
-- `search` of chaos-test/src/checker.rs finds an order wherever there is one.
use raft_vibe.Prelude.{
  ℕ, zero, suc, ◌+◌, ◌≤◌, ◌≡◌, ◌⊎◌, inl, inr, refl, Bool, true, false, some, List, [], ◌∷◌, ◌++◌,
  All, length, max, arith, Has, All-Has, Has-All, others-Has,
}
use raft_vibe.Chaos.History.{Operation}
use raft_vibe.Chaos.Checker.{RegisterModel, candidates, search}
use raft_vibe.Chaos.Linear.{Effect-try_apply, WellTimed, IsLinearization}
use raft_vibe.Chaos.Tries.{From, Has-candidates, required_after, optional_after, try_each_complete}
use raft_vibe.Chaos.Search.{Apart, left_within, left_of, left-Apart, left_fewer}

module _ (ops : ℕ → Operation) where
  was_required :
      (required : List ℕ) (i : ℕ) (flag : Bool) (j : ℕ)
      → Has j (required_after ops i flag required)
      → Has j required
  was_required required i false j m = (others-Has i required j m).0
  was_required required i true j m = m

  left-WellTimed :
      (required : List ℕ) (i : ℕ) (flag : Bool)
      → WellTimed ops required
      → WellTimed ops (required_after ops i flag required)
  left-WellTimed required i flag timed = Has-All _ (required_after ops i flag required) (λ j m.
      All-Has (λ j. (ops j).invoke_ts ≤ (ops j).complete_ts) required j timed
        (was_required required i flag j m))

  -- The first of a linearization is required or optional.
  side :
      (required optional : List ℕ) (i : ℕ)
      → Has i required ⊎ Has i optional
      → (flag : Bool) × From ops required optional i flag
  side required optional i (inl m) = (false, m)
  side required optional i (inr m) = (true, m)

  -- The first of a linearization started before every required operation was complete.
  starts_early :
      (required optional : List ℕ) (m : RegisterModel) (time i : ℕ) (order : List ℕ)
      → WellTimed ops required
      → IsLinearization ops required optional m time (i ∷ order)
      → All (λ j. (ops i).invoke_ts ≤ (ops j).complete_ts) required
  starts_early required optional m time i order timed k = Has-All _ required (λ j h.
      elim (All-Has (λ j. Has j (i ∷ order)) required j k.complete h) [
        | inl e ↦
            rw (← e) (All-Has (λ j. (ops j).invoke_ts ≤ (ops j).complete_ts) required j timed h)
        | inr l ↦ All-Has (λ j. (ops i).invoke_ts ≤ (ops j).complete_ts) order j k.real_time.0 l
      ])

  -- Without its first, a linearization is one of what is left.
  tail-IsLinearization :
      (required optional : List ℕ) (m : RegisterModel) (time i : ℕ) (flag : Bool) (order : List ℕ)
      → Apart required optional
      → From ops required optional i flag
      → (k : IsLinearization ops required optional m time (i ∷ order))
      → IsLinearization ops
          (required_after ops i flag required)
          (optional_after ops i flag optional)
          k.legal.0
          (max time (ops i).invoke_ts)
          order
  tail-IsLinearization required optional m time i flag order apart from k = record {
    legal = k.legal.2;
    real_time = k.real_time.1;
    not_before = Has-All _ order (λ j h. omega (
      arith,
      All-Has (λ j. (ops i).invoke_ts ≤ (ops j).complete_ts) order j k.real_time.0 h,
      All-Has (λ j. time ≤ (ops j).complete_ts) order j k.not_before.1 h,
    ));
    once = k.once.1;
    within = Has-All _ order (λ j h.
        left_of ops required optional i flag j
          (All-Has (λ j. Has j required ⊎ Has j optional) order j k.within.1 h)
          (λ e. k.once.0 (rw e at h)));
    complete = Has-All _ (required_after ops i flag required) (λ j h.
        elim (All-Has (λ j. Has j (i ∷ order)) required j k.complete
          (was_required required i flag j h)) [
            | inl e ↦ absurd ((left_within ops required optional i flag j apart from (inl h)).1 e)
            | inr l ↦ l
          ]);
  }

  pub search_complete :
      (fuel : ℕ) (required optional : List ℕ) (m : RegisterModel) (frontier : ℕ)
      (lin order : List ℕ)
      → length required + length optional ≤ fuel
      → Apart required optional
      → WellTimed ops required
      → IsLinearization ops required optional m frontier order
      → (found : List ℕ) × (search ops fuel required optional m frontier lin ≡ some found)
  unfolding search
  search_complete fuel [] optional m frontier lin order enough apart timed k = (lin, refl)
  search_complete zero (r ∷ required) optional m frontier lin order enough apart timed k =
      absurd (omega (arith, enough))
  search_complete (suc fuel) (r ∷ required) optional m frontier lin [] enough apart timed k =
      absurd k.complete.0
  search_complete (suc fuel) (r ∷ required) optional m frontier lin (i ∷ order) enough apart timed
        k =
      let (flag, from) = side (r ∷ required) optional i k.within.0 in
      let fewer = left_fewer ops (r ∷ required) optional i flag from in
      let (found, again) =
        search_complete fuel (required_after ops i flag (r ∷ required))
          (optional_after ops i flag optional) k.legal.0 (max frontier (ops i).invoke_ts)
          (lin ++ (ops i).id ∷ []) order (omega (arith, fewer, enough))
          (left-Apart ops (r ∷ required) optional i flag apart)
          (left-WellTimed (r ∷ required) i flag timed)
          (tail-IsLinearization (r ∷ required) optional m frontier i flag order apart from k) in
      try_each_complete ops (search ops fuel) (candidates ops (r ∷ required) optional frontier)
        (r ∷ required) optional m k.legal.0 frontier lin found i flag
        (Has-candidates ops r required optional frontier i flag from
          (starts_early (r ∷ required) optional m frontier i order timed k) k.not_before.0)
        (Effect-try_apply (ops i) m k.legal.1) again
