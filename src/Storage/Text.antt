-- ===== src/Storage/Text.antt =====
-- The text of the files of src/storage/file.rs: a `str` as its scalar values, its bytes, and what the
-- code uses of the standard library to print and to read it.
use Prim.Native.Nat.{bit_xor}
use raft_vibe.Prelude.{
  ℕ, zero, suc, ◌+◌, ◌-◌, ◌*◌, ◌/◌, ◌%◌, ◌^◌, Bool, true, false, ◌&&◌, Option, none, some, List, [],
  ◌∷◌, ◌++◌, leb, ltb, ◌==◌, if◌then◌else◌,
}

abbrev pub Text : Type 0
Text = List ℕ

abbrev pub blank : ℕ
blank = 32

abbrev pub newline : ℕ
newline = 10

-- `str::as_bytes`
abbrev pub bytes_of : ℕ → List ℕ
bytes_of c =
    if ltb c 128
    then c ∷ []
    else if ltb c 2048
    then (192 + c / 64) ∷ (128 + c % 64) ∷ []
    else if ltb c 65536
    then (224 + c / 4096) ∷ (128 + c / 64 % 64) ∷ (128 + c % 64) ∷ []
    else (240 + c / 262144) ∷ (128 + c / 4096 % 64) ∷ (128 + c / 64 % 64) ∷ (128 + c % 64) ∷ []

unfoldable pub as_bytes : Text → List ℕ
as_bytes [] = []
as_bytes (c ∷ t) = bytes_of c ++ as_bytes t

-- The body of the inner loop of `crc32`, and its rounds.
unfoldable pub crc_bit : ℕ → ℕ
crc_bit crc = if crc % 2 == 0 then crc / 2 else bit_xor (crc / 2) 0xEDB88320

unfoldable pub crc_bits : ℕ → ℕ → ℕ
crc_bits zero crc = crc
crc_bits (suc n) crc = crc_bits n (crc_bit crc)

unfoldable pub crc_bytes : ℕ → List ℕ → ℕ
crc_bytes crc [] = crc
crc_bytes crc (byte ∷ data_bytes) = crc_bytes (crc_bits 8 (bit_xor crc byte)) data_bytes

-- `!crc` on a `u32`
unfoldable pub crc32 : List ℕ → ℕ
crc32 data_bytes = 2 ^ 32 - 1 - crc_bytes 0xFFFFFFFF data_bytes

-- A digit below 36 as a character, and a character as a digit below the base.
abbrev pub digit_char : ℕ → ℕ
digit_char d = if ltb d 10 then 48 + d else 87 + d

abbrev pub digit_value : ℕ → ℕ
digit_value c =
    if leb 48 c && leb c 57
    then c - 48
    else if leb 97 c && leb c 122
    then c - 87
    else if leb 65 c && leb c 90
    then c - 55
    else 36

-- The lowest digits of a number, in order.
unfoldable pub digits : ℕ → ℕ → ℕ → Text
digits base zero n = []
digits base (suc width) n = digits base width (n / base) ++ digit_char (n % base) ∷ []

-- `{:08x}` of a `u32`
abbrev pub hex8 : ℕ → Text
hex8 n = digits 16 8 n

-- The number of decimal digits. A `u64` has at most 20.
unfoldable pub width_from : ℕ → ℕ → ℕ → ℕ
width_from zero w n = w
width_from (suc fuel) w n =
    let rest = width_from fuel (suc w) n in if ltb n (10 ^ w) then w else rest

-- `u64::to_string`
unfoldable pub to_string : ℕ → Text
to_string n = digits 10 (width_from 19 1 n) n

-- The digits of an unsigned number below the bound, after a number.
unfoldable pub scan : ℕ → ℕ → ℕ → Text → Option ℕ
scan base bound acc [] = some acc
scan base bound acc (c ∷ t) =
    let d : ℕ = digit_value c in
    let n : ℕ = acc * base + d in
    let rest = scan base bound n t in if ltb d base && ltb n bound then rest else none

-- `from_str_radix`, and `parse` with the base 10: an optional `+`, and at least one digit.
unfoldable pub from_str_radix : ℕ → ℕ → Text → Option ℕ
unfolding scan
from_str_radix base bound [] = none
from_str_radix base bound (c ∷ []) = scan base bound 0 (c ∷ [])
from_str_radix base bound (c ∷ d ∷ t) =
    if c == 43 then scan base bound 0 (d ∷ t) else scan base bound 0 (c ∷ d ∷ t)

abbrev pub is_whitespace : ℕ → Bool
is_whitespace c =
    if leb 9 c && leb c 13
    then true
    else if c == 32
    then true
    else if c == 133
    then true
    else if c == 160
    then true
    else if c == 5760
    then true
    else if leb 8192 c && leb c 8202
    then true
    else if c == 8232
    then true
    else if c == 8233
    then true
    else if c == 8239
    then true
    else if c == 8287
    then true
    else c == 12288

unfoldable pub trim_start : Text → Text
trim_start [] = []
trim_start (c ∷ t) = let rest = trim_start t in if is_whitespace c then rest else c ∷ t

-- A character before what is left at the end.
abbrev pub before_end : ℕ → Text → Text
before_end c [] = if is_whitespace c then [] else c ∷ []
before_end c (d ∷ t) = c ∷ d ∷ t

unfoldable pub trim_end : Text → Text
trim_end [] = []
trim_end (c ∷ t) = before_end c (trim_end t)

unfoldable pub trim : Text → Text
trim t = trim_end (trim_start t)

-- `rsplitn(2, ' ')`, where it gives two parts: what is before the last blank, and what is after it.
unfoldable pub rsplit_blank : Text → Option (Text × Text)
rsplit_blank [] = none
rsplit_blank (c ∷ t) = elim (rsplit_blank t) [
  | some (before, after) ↦ some (c ∷ before, after)
  | none ↦ if c == blank then some ([], t) else none
]

-- `BufRead::lines`: the lines without their ends `\n` or `\r\n`, the last one also without its end.
abbrev pub at_newline : Text → Bool
at_newline [] = false
at_newline (c ∷ t) = c == newline

abbrev pub into_line : ℕ → List Text → List Text
into_line c [] = (c ∷ []) ∷ []
into_line c (l ∷ ls) = (c ∷ l) ∷ ls

unfoldable pub lines : Text → List Text
lines [] = []
lines (c ∷ t) =
    let rest = lines t in
    if c == newline then [] ∷ rest else if c == 13 && at_newline t then rest else into_line c rest
