-- ===== src/Chaos/Late.antt =====
-- Indeterminate writes in chaos-test/src/checker.rs: the end of the history is as late as any time.
use raft_vibe.Prelude.{
  ℕ, zero, suc, ◌-◌, ◌≤◌, ◌<◌, ◌≡◌, ◌⊎◌, inl, inr, none, refl, sym, ◌∙◌, List, [], ◌∷◌, ◌++◌,
  length, map, All, arith, Has, All-Has, Has-All, Has-append_left, Has-append_right,
}
use raft_vibe.Chaos.History.{Operation}
use raft_vibe.Chaos.Checker.{RegisterModel, extended, max_ts, get_or, range_from}
use raft_vibe.Chaos.Indices.{range_from-Has, get_or-Has, get_or-append_left, get_or-append_right}
use raft_vibe.Chaos.Linear.{Effect, writes, reads, Legal, RealTime, IsLinearization}

-- Two operations that differ at most in their completion.
abbrev pub SameOp : Operation → Operation → Type 0
SameOp a b = (a.kind ≡ b.kind) × (a.result ≡ b.result) × (a.invoke_ts ≡ b.invoke_ts)

Effect-SameOp :
    (a b : Operation) (m : RegisterModel) {m' : RegisterModel}
    → SameOp a b
    → Effect a m m'
    → Effect b m m'
Effect-SameOp a b m (k, r, _) (writes wk wr) = writes (sym k ∙ wk) (sym r ∙ wr)
Effect-SameOp a b m (k, r, _) (reads rk rr) = reads (sym k ∙ rk) (sym r ∙ rr)

module _ (f g : ℕ → Operation) where
  Legal-SameOp :
      (order : List ℕ) (m : RegisterModel)
      → All (λ i. SameOp (f i) (g i)) order
      → Legal f m order
      → Legal g m order
  Legal-SameOp [] m same legal = tt
  Legal-SameOp (i ∷ order) m (s, same) (m', eff, legal) =
      (m', Effect-SameOp (f i) (g i) m s eff, Legal-SameOp order m' same legal)

  RealTime-SameOp :
      (P : ℕ → Type 0) (order : List ℕ)
      → ((i j : ℕ)
          → P i
          → P j
          → (f i).invoke_ts ≤ (f j).complete_ts
          → (g i).invoke_ts ≤ (g j).complete_ts)
      → All P order
      → RealTime f order
      → RealTime g order
  RealTime-SameOp P [] h ps timed = tt
  RealTime-SameOp P (i ∷ order) h (p, ps) (first, timed) = (
    Has-All _ order (λ j m.
        h i j p (All-Has P order j ps m)
          (All-Has (λ j. (f i).invoke_ts ≤ (f j).complete_ts) order j first m)),
    RealTime-SameOp P order h ps timed,
  )

  -- A linearization from time 0 stays one if the operations differ in their completion only, and the
  -- order in time that they allow is no smaller.
  pub IsLinearization-SameOp :
      (required optional : List ℕ) (m : RegisterModel) (order : List ℕ)
      → ((i : ℕ) → Has i required ⊎ Has i optional → SameOp (f i) (g i))
      → ((i j : ℕ)
          → Has i required ⊎ Has i optional
          → Has j required ⊎ Has j optional
          → (f i).invoke_ts ≤ (f j).complete_ts
          → (g i).invoke_ts ≤ (g j).complete_ts)
      → IsLinearization f required optional m 0 order
      → IsLinearization g required optional m 0 order
  IsLinearization-SameOp required optional m order same later k = record {
    legal =
        Legal-SameOp order m
          (Has-All _ order
            (λ i h. same i (All-Has (λ i. Has i required ⊎ Has i optional) order i k.within h)))
          k.legal;
    real_time =
        RealTime-SameOp (λ i. Has i required ⊎ Has i optional) order later k.within k.real_time;
    not_before = Has-All _ order (λ i h. omega arith);
    once = k.once;
    within = k.within;
    complete = k.complete;
  }

-- The operations of a key, the indeterminate writes as if each was complete at the time.
abbrev pub settled : ℕ → List Operation → List Operation → ℕ → Operation
settled time ops undecided = get_or (ops ++ map (extended time) undecided)

get_or-map :
    (f : Operation → Operation) (xs : List Operation) (i : ℕ)
    → i < length xs
    → get_or (map f xs) i ≡ f (get_or xs i)
unfolding get_or
get_or-map f [] i h = absurd (omega (arith, h))
get_or-map f (x ∷ xs) zero h = refl
get_or-map f (x ∷ xs) (suc i) h = get_or-map f xs i (omega (arith, h))

-- What is placed at an index: a confirmed operation, or an indeterminate write with the time as its
-- completion.
pub data Slot (ops undecided : List Operation) (i : ℕ) : Type 0 where
  confirmed_at :
      (op : Operation)
      → Has op ops
      → ((time : ℕ) → settled time ops undecided i ≡ op)
      → Slot ops undecided i
  undecided_at :
      (op : Operation)
      → Has op undecided
      → ((time : ℕ) → settled time ops undecided i ≡ extended time op)
      → Slot ops undecided i

pub place_of :
    (ops undecided : List Operation) (i : ℕ)
    → Has i (range_from 0 (length ops)) ⊎ Has i (range_from (length ops) (length undecided))
    → Slot ops undecided i
place_of ops undecided i (inl h) =
    let lt : i < length ops = omega (arith, (range_from-Has 0 (length ops) i h).1) in
    confirmed_at (get_or ops i) (get_or-Has ops i lt)
      (λ time. get_or-append_left ops (map (extended time) undecided) i lt)
place_of ops undecided i (inr h) =
    let (a, b) = range_from-Has (length ops) (length undecided) i h in
    let k : ℕ = i - length ops in
    let lt : k < length undecided = omega (arith, a, b) in
    undecided_at (get_or undecided k) (get_or-Has undecided k lt) (λ time.
      get_or-append_right ops (map (extended time) undecided) k i (omega (arith, a))
      ∙ get_or-map (extended time) undecided k lt)

place-SameOp :
    (ops undecided : List Operation) (i a b : ℕ)
    → Slot ops undecided i
    → SameOp (settled a ops undecided i) (settled b ops undecided i)
unfolding extended
place-SameOp ops undecided i a b (confirmed_at op h at_time) =
    rw (at_time a, at_time b) (refl, refl, refl)
place-SameOp ops undecided i a b (undecided_at op h at_time) =
    rw (at_time a, at_time b) (refl, refl, refl)

place-early :
    (ops undecided : List Operation) (i a b : ℕ)
    → All (λ op. op.invoke_ts ≤ b) (ops ++ undecided)
    → Slot ops undecided i
    → (settled a ops undecided i).invoke_ts ≤ b
unfolding extended
place-early ops undecided i a b all (confirmed_at op h at_time) =
    rw (at_time a) (All-Has _ (ops ++ undecided) op all (Has-append_left ops undecided op h))
place-early ops undecided i a b all (undecided_at op h at_time) =
    rw (at_time a) (All-Has _ (ops ++ undecided) op all (Has-append_right ops undecided op h))

place-later :
    (ops undecided : List Operation) (j a b x : ℕ)
    → Slot ops undecided j
    → x ≤ b
    → x ≤ (settled a ops undecided j).complete_ts
    → x ≤ (settled b ops undecided j).complete_ts
unfolding extended
place-later ops undecided j a b x (confirmed_at op h at_time) le =
    rw (at_time a, at_time b) (λ k. k)
place-later ops undecided j a b x (undecided_at op h at_time) le =
    rw (at_time a, at_time b) (λ k. le)

-- From one completion of the indeterminate writes to another that no operation starts after.
pub settled-IsLinearization :
    (ops undecided : List Operation) (a b : ℕ) (order : List ℕ)
    → All (λ op. op.invoke_ts ≤ b) (ops ++ undecided)
    → IsLinearization
        (settled a ops undecided)
        (range_from 0 (length ops))
        (range_from (length ops) (length undecided))
        none
        0
        order
    → IsLinearization
        (settled b ops undecided)
        (range_from 0 (length ops))
        (range_from (length ops) (length undecided))
        none
        0
        order
settled-IsLinearization ops undecided a b order all =
    IsLinearization-SameOp (settled a ops undecided) (settled b ops undecided)
      (range_from 0 (length ops)) (range_from (length ops) (length undecided)) none order
      (λ i h. place-SameOp ops undecided i a b (place_of ops undecided i h))
      (λ i j h k le.
        let (_, _, same) = place-SameOp ops undecided i a b (place_of ops undecided i h) in
        let early = place-early ops undecided i a b all (place_of ops undecided i h) in
        place-later ops undecided j a b (settled b ops undecided i).invoke_ts
          (place_of ops undecided j k) (omega (arith, early, same)) (omega (arith, le, same)))

pub max_ts-le : (l : List Operation) (op : Operation) → Has op l → op.complete_ts ≤ max_ts l
unfolding max_ts
max_ts-le [] op h = absurd h
max_ts-le (x ∷ l) op (inl e) = rw e (omega arith)
max_ts-le (x ∷ l) op (inr h) = omega (arith, max_ts-le l op h)
