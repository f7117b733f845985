-- ===== src/Shell/Hex.antt =====
-- What `charToHex` reads back: bytes written as pairs of digits, with colons between them.
use internetworking_nat_box.Base.{
  ℕ, zero, suc, ◌+◌, ◌*◌, ◌/◌, ◌%◌, ◌<◌, ◌≡◌, refl, sym, ◌∙◌, inl, inr, Bool, true, false, ◌&&◌,
  some, List, [], ◌∷◌, ◌++◌, map, arith, ltb, ◌==◌, if◌then◌else◌, ==_iff, Bool-cases, replicate,
  All,
}
use Prim.Native.Nat.{bit_or}
use mathlib.Core.Path.{subst}
use internetworking_nat_box.Shell.{hex_digit, char_to_hex}

-- A digit in the small letters.
abbrev pub print_digit : ℕ → ℕ
print_digit v = if ltb v 10 then v + 48 else v + 87

-- The bytes, each with the number of colons in front of it.
abbrev pub print_hex : List (ℕ × ℕ) → List ℕ
print_hex [] = []
print_hex ((colons, b) ∷ bytes) =
    replicate colons 58 ++ (print_digit (b / 16) ∷ print_digit (b % 16) ∷ print_hex bytes)

hex_digit-print_digit : (v : ℕ) → v < 16 → hex_digit (print_digit v) ≡ some v
unfolding hex_digit
hex_digit-print_digit v h = ground arith

-- Two digits do not overlap: the check of all pairs below `n` and `m`.
pairs_apart : ℕ → ℕ → Bool
pairs_apart high zero = true
pairs_apart high (suc low) =
    (bit_or (high * 16 % 256) low == high * 16 + low) && pairs_apart high low

all_apart : ℕ → Bool
unfolding pairs_apart
all_apart zero = true
all_apart (suc high) = pairs_apart high 16 && all_apart high

split_and : (a b : Bool) → a && b ≡ true → (a ≡ true) × (b ≡ true)
split_and true true h = (refl, refl)
split_and true false h = cc
split_and false b h = cc

pairs_apart-lem :
    (high low bound : ℕ)
    → low < bound
    → pairs_apart high bound ≡ true
    → bit_or (high * 16 % 256) low ≡ high * 16 + low
unfolding pairs_apart
pairs_apart-lem high low zero h p = absurd (omega arith)
pairs_apart-lem high low (suc bound) h p = elim (Bool-cases (low == bound)) [
  | inl e ↦
      subst (λ l. bit_or (high * 16 % 256) l ≡ high * 16 + l) (sym ((==_iff low bound).0 e))
        ((==_iff (bit_or (high * 16 % 256) bound) (high * 16 + bound)).0 (split_and _ _ p).0)
  | inr ne ↦ pairs_apart-lem high low bound (ground arith) (split_and _ _ p).1
]

all_apart-lem :
    (high low bound : ℕ)
    → high < bound
    → low < 16
    → all_apart bound ≡ true
    → bit_or (high * 16 % 256) low ≡ high * 16 + low
unfolding all_apart
all_apart-lem high low zero h k p = absurd (omega arith)
all_apart-lem high low (suc bound) h k p = elim (Bool-cases (high == bound)) [
  | inl e ↦
      subst (λ l. bit_or (l * 16 % 256) low ≡ l * 16 + low) (sym ((==_iff high bound).0 e))
        (pairs_apart-lem bound low 16 k (split_and _ _ p).0)
  | inr ne ↦ all_apart-lem high low bound (ground arith) k (split_and _ _ p).1
]

bit_or-digits :
    (high low : ℕ) → high < 16 → low < 16 → bit_or (high * 16 % 256) low ≡ high * 16 + low
unfolding all_apart pairs_apart
bit_or-digits high low h k = all_apart-lem high low 16 h k refl

abbrev byte_of : ℕ × ℕ → ℕ
byte_of (colons, b) = b

print_digit-no_colon : (v : ℕ) → v < 16 → (print_digit v == 58) ≡ false
print_digit-no_colon v h = ground arith

skip_colon : (d : ℕ) (string : List ℕ) → char_to_hex (58 ∷ d ∷ string) ≡ char_to_hex (d ∷ string)
unfolding char_to_hex
skip_colon d string = refl

skip_colons :
    (n d : ℕ) (string : List ℕ)
    → char_to_hex (replicate n 58 ++ (d ∷ string)) ≡ char_to_hex (d ∷ string)
skip_colons zero d string = refl
skip_colons (suc zero) d string = skip_colon d string
skip_colons (suc (suc n)) d string =
    skip_colon 58 (replicate n 58 ++ (d ∷ string)) ∙ skip_colons (suc n) d string

read_pair :
    (b : ℕ) (string bytes : List ℕ)
    → b < 256
    → char_to_hex string ≡ some bytes
    → char_to_hex (print_digit (b / 16) ∷ print_digit (b % 16) ∷ string) ≡ some (b ∷ bytes)
unfolding char_to_hex
read_pair b string bytes h rest =
    let whole : b / 16 * 16 + b % 16 ≡ b = omega arith in
    rw
      (
        print_digit-no_colon (b / 16) (omega arith),
        hex_digit-print_digit (b / 16) (omega arith),
        hex_digit-print_digit (b % 16) (omega arith),
        rest,
        bit_or-digits (b / 16) (b % 16) (omega arith) (omega arith),
        whole,
      )
      refl

-- `charToHex` reads back the bytes that were written as pairs of small digits, however many colons
-- stand in front of each pair.
pub char_to_hex-print_hex :
    (bytes : List (ℕ × ℕ))
    → All (λ p. byte_of p < 256) bytes
    → char_to_hex (print_hex bytes) ≡ some (map byte_of bytes)
unfolding char_to_hex
char_to_hex-print_hex [] h = refl
char_to_hex-print_hex ((colons, b) ∷ bytes) h =
    skip_colons colons (print_digit (b / 16)) (print_digit (b % 16) ∷ print_hex bytes)
    ∙ read_pair b (print_hex bytes) (map byte_of bytes) h.0 (char_to_hex-print_hex bytes h.1)
