-- ===== src/Storage/TrimLaws.antt =====
-- Trimming and splitting of text, as src/storage/file.rs uses them.
use raft_vibe.Prelude.{ℕ, ◌≡◌, ◌≢◌, refl, true, false, none, some, [], ◌∷◌, ◌++◌, All, arith, ◌==◌}
use raft_vibe.Storage.Text.{Text, blank, is_whitespace, trim_start, trim_end, trim, rsplit_blank}
use raft_vibe.Storage.TextLaws.{Solid, Solid-not_whitespace}

-- The first character is there and is no white space.
abbrev pub Starts : Text → Type 0
Starts [] = ⊥
Starts (c ∷ t) = is_whitespace c ≡ false

-- The last character is there and is no white space.
abbrev pub Ends : Text → Type 0
Ends [] = ⊥
Ends (c ∷ []) = is_whitespace c ≡ false
Ends (c ∷ d ∷ t) = Ends (d ∷ t)

trim_start-Starts : (t : Text) → Starts t → trim_start t ≡ t
unfolding trim_start
trim_start-Starts [] h = refl
trim_start-Starts (c ∷ t) h = rw h refl

trim_end-Ends : (t : Text) → Ends t → trim_end t ≡ t
unfolding trim_end
trim_end-Ends [] h = refl
trim_end-Ends (c ∷ []) h = rw h refl
trim_end-Ends (c ∷ d ∷ t) h = rw (trim_end-Ends (d ∷ t) h) refl

-- White space after the end is cut off.
trim_end-space : (t : Text) (w : ℕ) → is_whitespace w ≡ true → Ends t → trim_end (t ++ w ∷ []) ≡ t
unfolding trim_end
trim_end-space [] w space h = absurd h
trim_end-space (c ∷ []) w space h = rw (space, h) refl
trim_end-space (c ∷ d ∷ t) w space h = rw (trim_end-space (d ∷ t) w space h) refl

pub trim-same : (t : Text) → Starts t → Ends t → trim t ≡ t
unfolding trim
trim-same t a b = rw (trim_start-Starts t a) (trim_end-Ends t b)

pub Starts-append : (t u : Text) → Starts t → Starts (t ++ u)
Starts-append [] u h = absurd h
Starts-append (c ∷ t) u h = h

pub trim-space :
    (t : Text) (w : ℕ) → is_whitespace w ≡ true → Starts t → Ends t → trim (t ++ w ∷ []) ≡ t
unfolding trim
trim-space t w space a b =
    rw (trim_start-Starts (t ++ w ∷ []) (Starts-append t (w ∷ []) a)) (trim_end-space t w space b)

pub Solid-Starts : (t : Text) → All Solid t → t ≢ [] → Starts t
Solid-Starts [] all h = absurd (h refl)
Solid-Starts (c ∷ t) (p, all) h = Solid-not_whitespace c p

pub Solid-Ends : (t : Text) → All Solid t → t ≢ [] → Ends t
Solid-Ends [] all h = absurd (h refl)
Solid-Ends (c ∷ []) (p, all) h = Solid-not_whitespace c p
Solid-Ends (c ∷ d ∷ t) (p, all) h = Solid-Ends (d ∷ t) all (λ e. ground (arith, e))

pub Ends-append : (t : Text) (c : ℕ) (u : Text) → Ends (c ∷ u) → Ends (t ++ c ∷ u)
Ends-append [] c u h = h
Ends-append (d ∷ []) c u h = h
Ends-append (d ∷ e ∷ t) c u h = Ends-append (e ∷ t) c u h

pub rsplit-none : (t : Text) → All Solid t → rsplit_blank t ≡ none
unfolding rsplit_blank
rsplit-none [] all = refl
rsplit-none (c ∷ t) (p, all) =
    let e : (c == blank) ≡ false = ground (arith, p) in rw (rsplit-none t all, e) refl

-- The last blank is the one with no blank after it.
pub rsplit-some :
    (line after : Text)
    → All Solid after
    → rsplit_blank (line ++ blank ∷ after) ≡ some (line, after)
unfolding rsplit_blank
rsplit-some [] after all = rw (rsplit-none after all) refl
rsplit-some (c ∷ line) after all = rw (rsplit-some line after all) refl
