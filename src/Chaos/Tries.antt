-- ===== src/Chaos/Tries.antt =====
-- The candidates of one round of `search` in chaos-test/src/checker.rs, and the loop over them.
use raft_vibe.Prelude.{
  ℕ, ◌-◌, ◌^◌, ◌≤◌, ◌≡◌, refl, ap, inl, inr, Bool, true, false, Option, Option-cases, some, List,
  [], ◌∷◌, ◌++◌, All, map, max, retain, if◌then◌else◌, arith, Has, Has-append, Has-append_left,
  Has-append_right, retain-Has, Has-retain, Has-map, map-Has,
}
use raft_vibe.Chaos.History.{Operation}
use raft_vibe.Chaos.Checker.{
  RegisterModel, try_apply, minimum, unwrap_or, without, min_complete, is_candidate, eligible,
  comes_first, candidates, Rest, try_each,
}
use raft_vibe.Chaos.Member.{sort_by-Has, Has-sort_by}

-- A bound of every number is a bound of the least.
le-minimum :
    (b d x : ℕ) (l : List ℕ) → b ≤ x → All (λ y. b ≤ y) l → b ≤ unwrap_or (minimum (x ∷ l)) d
unfolding minimum
le-minimum b d x [] h all = h
le-minimum b d x (y ∷ l) h (k, all) = ground (arith, le-minimum b d y l k all)

All-map : (f : ℕ → ℕ) (b : ℕ) (l : List ℕ) → All (λ i. b ≤ f i) l → All (λ y. b ≤ y) (map f l)
All-map f b [] all = tt
All-map f b (i ∷ l) (h, all) = (h, All-map f b l all)

module _ (ops : ℕ → Operation) where
  -- Which side a candidate is from.
  abbrev pub From : List ℕ → List ℕ → ℕ → Bool → Type 0
  From required optional i false = Has i required
  From required optional i true = Has i optional

  eligible-Has :
      (deadline frontier : ℕ) (flag : Bool) (l : List ℕ) (i : ℕ) (b : Bool)
      → Has (i, b) (eligible ops deadline frontier flag l)
      → (b ≡ flag) × Has i l × (is_candidate ops deadline frontier i ≡ true)
  unfolding eligible
  eligible-Has deadline frontier flag l i b m =
      let (j, h, e) =
        map-Has (λ k. (k, flag)) (retain (is_candidate ops deadline frontier) l) (i, b) m in
      let same : i ≡ j = ap (λ p. p.0) e in
      let (k, q) = retain-Has (is_candidate ops deadline frontier) l j h in
      (ap (λ p. p.1) e, rw same k, rw same q)

  Has-eligible :
      (deadline frontier : ℕ) (flag : Bool) (l : List ℕ) (i : ℕ)
      → Has i l
      → (ops i).invoke_ts ≤ deadline
      → frontier ≤ (ops i).complete_ts
      → Has (i, flag) (eligible ops deadline frontier flag l)
  unfolding eligible
  Has-eligible deadline frontier flag l i m a b =
      Has-map (λ k. (k, flag)) (retain (is_candidate ops deadline frontier) l) i
        (Has-retain (is_candidate ops deadline frontier) l i m (ground arith))

  -- A candidate is one of the operations that are left, and is not complete before the frontier.
  pub candidates-Has :
      (required optional : List ℕ) (frontier : ℕ) (i : ℕ) (flag : Bool)
      → Has (i, flag) (candidates ops required optional frontier)
      → From required optional i flag × (frontier ≤ (ops i).complete_ts)
  unfolding candidates
  candidates-Has required optional frontier i flag m =
      let d : ℕ = min_complete ops required in
      let first = eligible ops d frontier false required in
      let second = eligible ops d frontier true optional in
      elim (Has-append first second (i, flag)
        (sort_by-Has (comes_first ops) (first ++ second) (i, flag) m)) [
          | inl l ↦
              let (e, h, q) = eligible-Has d frontier false required i flag l in
              (rw e h, ground (arith, q))
          | inr r ↦
              let (e, h, q) = eligible-Has d frontier true optional i flag r in
              (rw e h, ground (arith, q))
        ]

  -- What is left is a candidate if it started before every required operation was complete, and is
  -- not complete before the frontier.
  pub Has-candidates :
      (r : ℕ) (required optional : List ℕ) (frontier : ℕ) (i : ℕ) (flag : Bool)
      → From (r ∷ required) optional i flag
      → All (λ j. (ops i).invoke_ts ≤ (ops j).complete_ts) (r ∷ required)
      → frontier ≤ (ops i).complete_ts
      → Has (i, flag) (candidates ops (r ∷ required) optional frontier)
  unfolding candidates min_complete
  Has-candidates r required optional frontier i flag m early late =
      let d : ℕ = min_complete ops (r ∷ required) in
      let first = eligible ops d frontier false (r ∷ required) in
      let second = eligible ops d frontier true optional in
      let in_time : (ops i).invoke_ts ≤ d =
        le-minimum (ops i).invoke_ts (2 ^ 64 - 1) (ops r).complete_ts
          (map (λ j. (ops j).complete_ts) required) early.0
          (All-map (λ j. (ops j).complete_ts) (ops i).invoke_ts required early.1) in
      Has-sort_by (comes_first ops) (first ++ second) (i, flag)
        (elim flag as (λ b. From (r ∷ required) optional i b → Has (i, b) (first ++ second)) [
          | false ↦ λ h.
              Has-append_left first second (i, false)
                (Has-eligible d frontier false (r ∷ required) i h in_time late)
          | true ↦ λ h.
              Has-append_right first second (i, true)
                (Has-eligible d frontier true optional i h in_time late)
        ]
          m)

  -- The state of the search once the candidate is placed.
  abbrev pub required_after : ℕ → Bool → List ℕ → List ℕ
  required_after i is_optional required = if is_optional then required else without i required

  abbrev pub optional_after : ℕ → Bool → List ℕ → List ℕ
  optional_after i is_optional optional = if is_optional then without i optional else optional

  pub try_each_sound :
      (next : Rest ops) (cs : List (ℕ × Bool)) (required optional : List ℕ) (m : RegisterModel)
      (frontier : ℕ) (lin l : List ℕ)
      → try_each ops next cs required optional m frontier lin ≡ some l
      → (i : ℕ) × (flag : Bool) × (m' : RegisterModel) × Has (i, flag) cs
        × (try_apply (ops i) m ≡ some m')
        × (next
              (required_after i flag required)
              (optional_after i flag optional)
              m'
              (max frontier (ops i).invoke_ts)
              (lin ++ (ops i).id ∷ [])
            ≡ some l)
  unfolding try_each
  try_each_sound next [] required optional m frontier lin l h = absurd (ground (arith, h))
  try_each_sound next ((i, flag) ∷ cs) required optional m frontier lin l h =
      elim (Option-cases (try_apply (ops i) m)) [
        | inl invalid ↦
            let (j, b, m', c, a, n) =
              try_each_sound next cs required optional m frontier lin l
                (rw (try_each, invalid) at h) in
            (j, b, m', inr c, a, n)
        | inr (m', valid) ↦
            let again : Option (List ℕ) =
              next (required_after i flag required) (optional_after i flag optional) m'
                (max frontier (ops i).invoke_ts) (lin ++ (ops i).id ∷ []) in
            elim (Option-cases again) [
              | inl fails ↦
                  let (j, b, m₁, c, a, n) =
                    try_each_sound next cs required optional m frontier lin l
                      (rw (try_each, valid, fails) at h) in
                  (j, b, m₁, inr c, a, n)
              | inr (found, e) ↦
                  let same : found ≡ l = ground (arith, rw (try_each, valid, e) at h) in
                  (i, flag, m', inl refl, valid, rw same at e)
            ]
      ]

  pub try_each_complete :
      (next : Rest ops) (cs : List (ℕ × Bool)) (required optional : List ℕ) (m m' : RegisterModel)
      (frontier : ℕ) (lin l : List ℕ) (i : ℕ) (flag : Bool)
      → Has (i, flag) cs
      → try_apply (ops i) m ≡ some m'
      → next
          (required_after i flag required)
          (optional_after i flag optional)
          m'
          (max frontier (ops i).invoke_ts)
          (lin ++ (ops i).id ∷ [])
        ≡ some l
      → (found : List ℕ) × (try_each ops next cs required optional m frontier lin ≡ some found)
  unfolding try_each
  try_each_complete next [] required optional m m' frontier lin l i flag c valid ok_next = absurd c
  try_each_complete next ((j, b) ∷ cs) required optional m m' frontier lin l i flag (inl e) valid
        ok_next =
      let same : i ≡ j = ap (λ p. p.0) e in
      let side : flag ≡ b = ap (λ p. p.1) e in
      (l, rw (← same, ← side) (rw (try_each, valid, ok_next) refl))
  try_each_complete next ((j, b) ∷ cs) required optional m m' frontier lin l i flag (inr c) valid
        ok_next =
      let (found, e) =
        try_each_complete next cs required optional m m' frontier lin l i flag c valid ok_next in
      elim (Option-cases (try_apply (ops j) m)) [
        | inl invalid ↦ (found, rw (try_each, invalid) e)
        | inr (m₁, applied) ↦
            let again : Option (List ℕ) =
              next (required_after j b required) (optional_after j b optional) m₁
                (max frontier (ops j).invoke_ts) (lin ++ (ops j).id ∷ []) in
            elim (Option-cases again) [
              | inl fails ↦ (found, rw (try_each, applied, fails) e)
              | inr (other, f) ↦ (other, rw (try_each, applied, f) refl)
            ]
      ]
