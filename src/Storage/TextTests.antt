-- ===== src/Storage/TextTests.antt =====
-- Runs of the text functions for src/storage/file.rs, as in its tests and in the documents of the
-- standard library.
use raft_vibe.Prelude.{◌≡◌, refl, [], ◌∷◌}
use raft_vibe.Storage.Text.{
  as_bytes, crc_bit, crc_bits, crc_bytes, crc32, digits, width_from, to_string, lines,
}

-- The check value of CRC-32: of "123456789".
check_value : crc32 (as_bytes (49 ∷ 50 ∷ 51 ∷ 52 ∷ 53 ∷ 54 ∷ 55 ∷ 56 ∷ 57 ∷ [])) ≡ 0xCBF43926
unfolding crc32 crc_bytes crc_bits crc_bit as_bytes
check_value = refl

prints_number : to_string 405 ≡ 52 ∷ 48 ∷ 53 ∷ []
unfolding to_string digits width_from
prints_number = refl

splits_lines : lines (97 ∷ 13 ∷ 10 ∷ 10 ∷ 98 ∷ []) ≡ (97 ∷ []) ∷ [] ∷ (98 ∷ []) ∷ []
unfolding lines
splits_lines = refl
