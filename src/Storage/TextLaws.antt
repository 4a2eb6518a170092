-- ===== src/Storage/TextLaws.antt =====
-- Printing, reading, trimming and splitting of text, as src/storage/file.rs uses them.
use raft_vibe.Prelude.{
  ℕ, zero, suc, ◌+◌, ◌*◌, ◌/◌, ◌%◌, ◌^◌, ◌≤◌, ◌<◌, ◌≡◌, ◌≢◌, inl, inr, refl, ap, ◌∙◌, Bool,
  Bool-cases, false, some, [], ◌∷◌, ◌++◌, All, ltb, ◌&&◌, ◌==◌, arith, All-snoc,
}
use native.Mathlib.Nat.{pow-suc}
use raft_vibe.Storage.Text.{
  Text, digit_char, digit_value, digits, hex8, width_from, to_string, scan, from_str_radix,
  is_whitespace,
}

-- A character that is neither white space nor a sign.
abbrev pub Solid : ℕ → Type 0
Solid c = (48 ≤ c) × (c < 128)

pub Solid-not_whitespace : (c : ℕ) → Solid c → is_whitespace c ≡ false
Solid-not_whitespace c (a, b) = ground arith

digit-value : (d : ℕ) → d < 36 → digit_value (digit_char d) ≡ d
digit-value d h = ground arith

pub digit-Solid : (d : ℕ) → d < 36 → Solid (digit_char d)
digit-Solid d h = (ground arith, ground arith)

scan-append :
    (base bound acc : ℕ) (xs ys : Text) (n : ℕ)
    → scan base bound acc xs ≡ some n
    → scan base bound acc (xs ++ ys) ≡ scan base bound n ys
unfolding scan
scan-append base bound acc [] ys n h =
    let e : acc ≡ n = ground (arith, h) in ap (λ a. scan base bound a ys) e
scan-append base bound acc (c ∷ xs) ys n h =
    let d : ℕ = digit_value c in
    let m : ℕ = acc * base + d in
    let test : Bool = ltb d base && ltb m bound in
    elim (Bool-cases test) [
      | inl t ↦ rw t (scan-append base bound m xs ys n (rw (scan, t) at h))
      | inr f ↦ absurd (ground (arith, rw (scan, f) at h))
    ]

module _ (bound : ℕ) where
  pub scan-decimal : (w n : ℕ) → n < 10 ^ w → n < bound → scan 10 bound 0 (digits 10 w n) ≡ some n
  unfolding digits scan
  scan-decimal zero n small fits = ground (arith, small)
  scan-decimal (suc w) n small fits =
      let less : n < 10 ^ w * 10 = rw (← pow-suc 10 w) small in
      let d = digit-value (n % 10) (omega arith) in
      scan-append 10 bound 0 (digits 10 w (n / 10)) (digit_char (n % 10) ∷ []) (n / 10)
        (scan-decimal w (n / 10) (omega (arith, less)) (omega (arith, fits)))
      ∙ rw d (ground arith)

  pub scan-hex : (w n : ℕ) → n < 16 ^ w → n < bound → scan 16 bound 0 (digits 16 w n) ≡ some n
  unfolding digits scan
  scan-hex zero n small fits = ground (arith, small)
  scan-hex (suc w) n small fits =
      let less : n < 16 ^ w * 16 = rw (← pow-suc 16 w) small in
      let d = digit-value (n % 16) (omega arith) in
      scan-append 16 bound 0 (digits 16 w (n / 16)) (digit_char (n % 16) ∷ []) (n / 16)
        (scan-hex w (n / 16) (omega (arith, less)) (omega (arith, fits)))
      ∙ rw d (ground arith)

pub decimal-Solid : (w n : ℕ) → All Solid (digits 10 w n)
unfolding digits
decimal-Solid zero n = tt
decimal-Solid (suc w) n =
    All-snoc Solid (digits 10 w (n / 10)) (digit_char (n % 10)) (decimal-Solid w (n / 10))
      (digit-Solid (n % 10) (omega arith))

pub hex-Solid : (w n : ℕ) → All Solid (digits 16 w n)
unfolding digits
hex-Solid zero n = tt
hex-Solid (suc w) n =
    All-snoc Solid (digits 16 w (n / 16)) (digit_char (n % 16)) (hex-Solid w (n / 16))
      (digit-Solid (n % 16) (omega arith))

-- Without a sign in front, all characters are scanned.
from_str_radix-scan :
    (base bound : ℕ) (t : Text)
    → All Solid t
    → t ≢ []
    → from_str_radix base bound t ≡ scan base bound 0 t
unfolding from_str_radix scan
from_str_radix-scan base bound [] all h = absurd (h refl)
from_str_radix-scan base bound (c ∷ []) all h = refl
from_str_radix-scan base bound (c ∷ d ∷ t) ((lo, hi), all) h =
    let e : (c == 43) ≡ false = ground arith in rw e refl

pub snoc-ne-nil : (t : Text) (c : ℕ) → t ++ c ∷ [] ≢ []
snoc-ne-nil [] c e = ground (arith, e)
snoc-ne-nil (d ∷ t) c e = ground (arith, e)

pub read-hex8 : (n : ℕ) → n < 2 ^ 32 → from_str_radix 16 (2 ^ 32) (hex8 n) ≡ some n
unfolding digits
read-hex8 n h =
    from_str_radix-scan 16 (2 ^ 32) (hex8 n) (hex-Solid 8 n)
      (snoc-ne-nil (digits 16 7 (n / 16)) (digit_char (n % 16)))
    ∙ scan-hex (2 ^ 32) 8 n (omega (arith, h)) h

-- The digits that are counted are enough.
width-fits :
    (fuel w n : ℕ)
    → n < 10 ^ (fuel + w)
    → (n < 10 ^ width_from fuel w n) × (w ≤ width_from fuel w n)
unfolding width_from
width-fits zero w n h = let e : 0 + w ≡ w = omega arith in (rw (← e) h, omega arith)
width-fits (suc fuel) w n h =
    let e : suc fuel + w ≡ fuel + suc w = omega arith in
    let (fits, more) = width-fits fuel (suc w) n (rw e at h) in
    elim (Bool-cases (ltb n (10 ^ w))) [
      | inl t ↦ rw t (ground (arith, t), omega arith)
      | inr f ↦ rw f (fits, omega (arith, more))
    ]

digits-ne-nil : (w n : ℕ) → 1 ≤ w → digits 10 w n ≢ []
unfolding digits
digits-ne-nil zero n le = absurd (omega (arith, le))
digits-ne-nil (suc w) n le = snoc-ne-nil (digits 10 w (n / 10)) (digit_char (n % 10))

pub to_string-ne-nil : (n : ℕ) → n < 2 ^ 64 → to_string n ≢ []
unfolding to_string
to_string-ne-nil n h = digits-ne-nil (width_from 19 1 n) n (width-fits 19 1 n (omega (arith, h))).1

pub to_string-Solid : (n : ℕ) → All Solid (to_string n)
unfolding to_string
to_string-Solid n = decimal-Solid (width_from 19 1 n) n

-- A `u64` is read back from its decimal print.
pub read-to_string : (n : ℕ) → n < 2 ^ 64 → from_str_radix 10 (2 ^ 64) (to_string n) ≡ some n
unfolding to_string
read-to_string n h =
    from_str_radix-scan 10 (2 ^ 64) (to_string n) (to_string-Solid n) (to_string-ne-nil n h)
    ∙ scan-decimal (2 ^ 64) (width_from 19 1 n) n (width-fits 19 1 n (omega (arith, h))).0 h

digits-below : (w n : ℕ) → All (λ c. c < 58) (digits 10 w n)
unfolding digits
digits-below zero n = tt
digits-below (suc w) n =
    All-snoc (λ c. c < 58) (digits 10 w (n / 10)) (digit_char (n % 10)) (digits-below w (n / 10))
      (ground arith)

-- A decimal print has no letters.
pub to_string-below : (n : ℕ) → All (λ c. c < 58) (to_string n)
unfolding to_string
to_string-below n = digits-below (width_from 19 1 n) n
