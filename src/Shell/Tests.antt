-- ===== src/Shell/Tests.antt =====
-- The commands at concrete words.
use internetworking_nat_box.Base.{◌-◌, ◌^◌, ◌≡◌, refl, some, [], ◌∷◌}
use internetworking_nat_box.Shell.{hex_digit, char_to_hex, atoi, atoi_signed, atoi_digits}

-- "fe80:01" and "-12".
char_to_hex_run :
    char_to_hex (102 ∷ 101 ∷ 56 ∷ 48 ∷ 58 ∷ 48 ∷ 49 ∷ []) ≡ some (0xFE ∷ 0x80 ∷ 1 ∷ [])
unfolding char_to_hex hex_digit
char_to_hex_run = refl

-- The letter Z counts as 35, whose bits overlap those of the first digit.
char_to_hex_letter : char_to_hex (49 ∷ 90 ∷ []) ≡ some (0x33 ∷ [])
unfolding char_to_hex hex_digit
char_to_hex_letter = refl

atoi_run : atoi (32 ∷ 45 ∷ 49 ∷ 50 ∷ []) ≡ 2 ^ 32 - 12
unfolding atoi atoi_signed atoi_digits
atoi_run = refl
