-- ===== src/Chaos/Indices.antt =====
-- The indices that `check_single_key` of chaos-test/src/checker.rs makes for the operations of a key.
use raft_vibe.Prelude.{
  ℕ, zero, suc, ℕ_discrete, ◌+◌, ◌-◌, ◌≤◌, ◌<◌, ◌≡◌, inl, inr, refl, sym, ap, List, [], ◌∷◌, ◌++◌,
  length, arith, Has, Has-All,
}
use raft_vibe.Chaos.History.{Operation}
use raft_vibe.Chaos.Checker.{range_from, get_or}
use raft_vibe.Chaos.Search.{Apart}

pub range_from-Has : (lo n i : ℕ) → Has i (range_from lo n) → (lo ≤ i) × (i < lo + n)
range_from-Has lo zero i h = absurd h
range_from-Has lo (suc n) i (inl e) = (ground arith, ground arith)
range_from-Has lo (suc n) i (inr h) =
    let (a, b) = range_from-Has (lo + 1) n i h in (omega (arith, a), omega (arith, b))

Has-range_from : (lo n i : ℕ) → lo ≤ i → i < lo + n → Has i (range_from lo n)
Has-range_from lo zero i a b = absurd (omega (arith, a, b))
Has-range_from lo (suc n) i a b = elim (ℕ_discrete i lo) [
  | yes e ↦ inl e
  | no differs ↦ inr (Has-range_from (lo + 1) n i (omega (arith, a, differs)) (omega (arith, b)))
]

pub length-range_from : (lo n : ℕ) → length (range_from lo n) ≡ n
length-range_from lo zero = refl
length-range_from lo (suc n) = ap suc (length-range_from (lo + 1) n)

pub range_from-Apart : (n m : ℕ) → Apart (range_from 0 n) (range_from n m)
range_from-Apart n m =
    Has-All _ (range_from 0 n)
      (λ i h o. omega (arith, (range_from-Has 0 n i h).1, (range_from-Has n m i o).0))

-- The operation at an index is one of the list.
pub get_or-Has : (l : List Operation) (i : ℕ) → i < length l → Has (get_or l i) l
unfolding get_or
get_or-Has [] i h = absurd (omega (arith, h))
get_or-Has (x ∷ l) zero h = inl refl
get_or-Has (x ∷ l) (suc i) h = inr (get_or-Has l i (omega (arith, h)))

index_of :
    (l xs : List Operation) (op : Operation)
    → Has op l
    → (i : ℕ) × (i < length l) × (get_or (l ++ xs) i ≡ op)
unfolding get_or
index_of [] xs op h = absurd h
index_of (x ∷ l) xs op (inl e) = (zero, omega arith, sym e)
index_of (x ∷ l) xs op (inr h) =
    let (i, lt, e) = index_of l xs op h in (suc i, omega (arith, lt), e)

-- Every operation of the key has its index.
pub index_of-required :
    (l xs : List Operation) (op : Operation)
    → Has op l
    → (i : ℕ) × Has i (range_from 0 (length l)) × (get_or (l ++ xs) i ≡ op)
index_of-required l xs op h =
    let (i, lt, e) = index_of l xs op h in
    (i, Has-range_from 0 (length l) i (omega arith) (omega (arith, lt)), e)

pub get_or-append_left :
    (l xs : List Operation) (i : ℕ) → i < length l → get_or (l ++ xs) i ≡ get_or l i
unfolding get_or
get_or-append_left [] xs i h = absurd (omega (arith, h))
get_or-append_left (x ∷ l) xs zero h = refl
get_or-append_left (x ∷ l) xs (suc i) h = get_or-append_left l xs i (omega (arith, h))

pub get_or-append_right :
    (l xs : List Operation) (i j : ℕ) → j ≡ length l + i → get_or (l ++ xs) j ≡ get_or xs i
unfolding get_or
get_or-append_right [] xs i j e = let same : j ≡ i = omega (arith, e) in ap (get_or xs) same
get_or-append_right (x ∷ l) xs i zero e = absurd (omega (arith, e))
get_or-append_right (x ∷ l) xs i (suc j) e = get_or-append_right l xs i j (omega (arith, e))

pub get_or-required :
    (l xs : List Operation) (i : ℕ) → Has i (range_from 0 (length l)) → Has (get_or (l ++ xs) i) l
get_or-required l xs i h =
    let lt : i < length l = omega (arith, (range_from-Has 0 (length l) i h).1) in
    rw (get_or-append_left l xs i lt) (get_or-Has l i lt)

pub get_or-optional :
    (l xs : List Operation) (i : ℕ)
    → Has i (range_from (length l) (length xs))
    → Has (get_or (l ++ xs) i) xs
get_or-optional l xs i h =
    let (a, b) = range_from-Has (length l) (length xs) i h in
    let lt : i - length l < length xs = omega (arith, a, b) in
    rw (get_or-append_right l xs (i - length l) i (omega (arith, a)))
      (get_or-Has xs (i - length l) lt)
