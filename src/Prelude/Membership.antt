-- ===== src/Prelude/Membership.antt =====
-- Membership in a list, as a type with its place, and what list functions do to it.
use Prim.Native.Nat.{ℕ, ◌≤◌, ◌<◌}
use mathlib.Core.Path.{◌≡◌, refl, sym, ap, ◌∙◌}
use mathlib.Core.Logic.{◌⊎◌, inl, inr, ◌≢◌}
use mathlib.Core.Bool.{Bool, true, not}
use mathlib.Core.List.{List, [], ◌∷◌, ◌++◌, map}
use native.Mathlib.Omega.{arith}
use raft_vibe.Prelude.Lists.{length, retain, All}
use raft_vibe.Prelude.Tests.{Bool-cases, ◌==◌}

module _ {A : Type 0} where
  abbrev pub Has : A → List A → Type 0
  Has a [] = ⊥
  Has a (x ∷ xs) = (a ≡ x) ⊎ Has a xs

  pub All-Has : (P : A → Type 0) (l : List A) (a : A) → All P l → Has a l → P a
  All-Has P [] a ps m = absurd m
  All-Has P (x ∷ xs) a (p, ps) (inl e) = rw e p
  All-Has P (x ∷ xs) a (p, ps) (inr m) = All-Has P xs a ps m

  pub Has-All : (P : A → Type 0) (l : List A) → ((a : A) → Has a l → P a) → All P l
  Has-All P [] f = tt
  Has-All P (x ∷ xs) f = (f x (inl refl), Has-All P xs (λ a m. f a (inr m)))

  pub Has-append_left : (xs ys : List A) (a : A) → Has a xs → Has a (xs ++ ys)
  Has-append_left [] ys a m = absurd m
  Has-append_left (x ∷ xs) ys a (inl e) = inl e
  Has-append_left (x ∷ xs) ys a (inr m) = inr (Has-append_left xs ys a m)

  pub Has-append_right : (xs ys : List A) (a : A) → Has a ys → Has a (xs ++ ys)
  Has-append_right [] ys a m = m
  Has-append_right (x ∷ xs) ys a m = inr (Has-append_right xs ys a m)

  pub Has-append : (xs ys : List A) (a : A) → Has a (xs ++ ys) → Has a xs ⊎ Has a ys
  Has-append [] ys a m = inr m
  Has-append (x ∷ xs) ys a (inl e) = inl (inl e)
  Has-append (x ∷ xs) ys a (inr m) = elim (Has-append xs ys a m) [
    | inl l ↦ inl (inr l)
    | inr r ↦ inr r
  ]

  pub retain-Has : (p : A → Bool) (l : List A) (a : A) → Has a (retain p l) → Has a l × (p a ≡ true)
  retain-Has p [] a m = absurd m
  retain-Has p (x ∷ xs) a m = elim (Bool-cases (p x)) [
    | inr drops ↦ let (l, q) = retain-Has p xs a (rw drops at m) in (inr l, q)
    | inl keeps ↦
        let m' : Has a (x ∷ retain p xs) = rw keeps at m in
        elim m' [
          | inl e ↦ (inl e, ap p e ∙ keeps)
          | inr rest ↦ let (l, q) = retain-Has p xs a rest in (inr l, q)
        ]
  ]

  pub Has-retain : (p : A → Bool) (l : List A) (a : A) → Has a l → p a ≡ true → Has a (retain p l)
  Has-retain p [] a m q = absurd m
  Has-retain p (x ∷ xs) a (inl e) q = let k : p x ≡ true = ap p (sym e) ∙ q in rw k (inl e)
  Has-retain p (x ∷ xs) a (inr m) q = elim (Bool-cases (p x)) [
    | inl keeps ↦ rw keeps (inr (Has-retain p xs a m q))
    | inr drops ↦ rw drops (Has-retain p xs a m q)
  ]

pub Has-map : {A B : Type 0} (f : A → B) (l : List A) (a : A) → Has a l → Has (f a) (map f l)
Has-map f [] a m = absurd m
Has-map f (x ∷ xs) a (inl e) = inl (ap f e)
Has-map f (x ∷ xs) a (inr m) = inr (Has-map f xs a m)

pub map-Has :
    {A B : Type 0} (f : A → B) (l : List A) (b : B)
    → Has b (map f l)
    → (a : A) × Has a l × (b ≡ f a)
map-Has f [] b m = absurd m
map-Has f (x ∷ xs) b (inl e) = (x, inl refl, e)
map-Has f (x ∷ xs) b (inr m) = let (a, l, e) = map-Has f xs b m in (a, inr l, e)

-- The list without one number.
abbrev pub others : ℕ → List ℕ → List ℕ
others i l = retain (λ j. not (j == i)) l

pub others-Has : (i : ℕ) (l : List ℕ) (j : ℕ) → Has j (others i l) → Has j l × (j ≢ i)
others-Has i l j m =
    let (h, q) = retain-Has (λ k. not (k == i)) l j m in (h, λ e. ground (arith, q, e))

pub Has-others : (i : ℕ) (l : List ℕ) (j : ℕ) → Has j l → j ≢ i → Has j (others i l)
Has-others i l j m differs = Has-retain (λ k. not (k == i)) l j m (ground (arith, differs))

pub length-others-le : (i : ℕ) (l : List ℕ) → length (others i l) ≤ length l
length-others-le i [] = omega arith
length-others-le i (x ∷ xs) = ground (arith, length-others-le i xs)

pub length-others-lt : (i : ℕ) (l : List ℕ) → Has i l → length (others i l) < length l
length-others-lt i [] m = absurd m
length-others-lt i (x ∷ xs) (inl e) = ground (arith, length-others-le i xs)
length-others-lt i (x ∷ xs) (inr m) = ground (arith, length-others-lt i xs m)

module _ {A : Type 0} (P : A → Type 0) where
  pub All-snoc : (l : List A) (a : A) → All P l → P a → All P (l ++ a ∷ [])
  All-snoc [] a all p = (p, tt)
  All-snoc (x ∷ l) a (q, all) p = (q, All-snoc l a all p)

  pub All-retain : (keep : A → Bool) (l : List A) → All P l → All P (retain keep l)
  All-retain keep l all =
      Has-All P (retain keep l) (λ a h. All-Has P l a all (retain-Has keep l a h).0)
