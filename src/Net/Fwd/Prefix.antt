-- ===== src/Net/Fwd/Prefix.antt =====
-- What a prefix of an address is, bit by bit, and when the whole-byte test of `getNextHop` decides it.
use internetworking_nat_box.Base.{
  ℕ, zero, suc, ◌+◌, ◌-◌, ◌*◌, ◌/◌, ◌%◌, ◌^◌, ◌≤◌, ◌<◌, ◌≡◌, refl, sym, ap, ◌∙◌, inl, inr, true,
  List, [], ◌∷◌, arith, ◌==◌, ==_iff, Bool-cases, length, get_or, All,
}
use internetworking_nat_box.Net.Bytes.{match}
use internetworking_nat_box.Net.Checksum.Sum.{IsByte}

-- Bit `i` of an address, counted from the highest bit of its first byte.
abbrev pub bit : List ℕ → ℕ → ℕ
bit addr i = get_or addr (i / 8) 0 / 2 ^ (7 - i % 8) % 2

-- The first `n` bits of two addresses are the same.
abbrev pub SamePrefix : ℕ → List ℕ → List ℕ → Type 0
SamePrefix n a b = (i : ℕ) → i < n → bit a i ≡ bit b i

bytes-match :
    (k : ℕ) (a b : List ℕ) (j : ℕ) → match a b k ≡ true → j < k → get_or a j 0 ≡ get_or b j 0
unfolding match
bytes-match zero a b j h l = absurd (omega arith)
bytes-match (suc k) [] b j h l = cc
bytes-match (suc k) (x ∷ a) [] j h l = cc
bytes-match (suc k) (x ∷ a) (y ∷ b) zero h l = ground arith
bytes-match (suc k) (x ∷ a) (y ∷ b) (suc j) h l = elim (Bool-cases (x == y)) [
  | inl same ↦ bytes-match k a b j (sym (rw same refl) ∙ h) (omega arith)
  | inr other ↦ cc
]

-- A match of whole bytes is one of their bits.
pub SamePrefix-match : (k : ℕ) (a b : List ℕ) → match a b k ≡ true → SamePrefix (k * 8) a b
SamePrefix-match k a b h i l =
    ap (λ x. x / 2 ^ (7 - i % 8) % 2) (bytes-match k a b (i / 8) h (omega arith))

-- A byte is known by its eight bits.
byte-bits :
    (x y : ℕ)
    → x < 256
    → y < 256
    → x / 128 % 2 ≡ y / 128 % 2
    → x / 64 % 2 ≡ y / 64 % 2
    → x / 32 % 2 ≡ y / 32 % 2
    → x / 16 % 2 ≡ y / 16 % 2
    → x / 8 % 2 ≡ y / 8 % 2
    → x / 4 % 2 ≡ y / 4 % 2
    → x / 2 % 2 ≡ y / 2 % 2
    → x % 2 ≡ y % 2
    → x ≡ y
byte-bits x y hx hy a b c d e f g h =
    let x7 : x / 64 ≡ y / 64 = omega arith in
    let x5 : x / 16 ≡ y / 16 = omega arith in let x3 : x / 4 ≡ y / 4 = omega arith in omega arith

bit-tail : (x : ℕ) (a : List ℕ) (i : ℕ) → bit (x ∷ a) (i + 8) ≡ bit a i
bit-tail x a i =
    let byte : (i + 8) / 8 ≡ suc (i / 8) = omega arith in
    let place : (i + 8) % 8 ≡ i % 8 = omega arith in rw (byte, place) refl

-- Bits that agree are whole bytes that match.
pub match-SamePrefix :
    (k : ℕ) (a b : List ℕ)
    → k ≤ length a
    → k ≤ length b
    → All IsByte a
    → All IsByte b
    → SamePrefix (k * 8) a b
    → match a b k ≡ true
unfolding match
match-SamePrefix zero a b la lb ba bb h = refl
match-SamePrefix (suc k) [] b la lb ba bb h = absurd (omega arith)
match-SamePrefix (suc k) (x ∷ a) [] la lb ba bb h = absurd (omega arith)
match-SamePrefix (suc k) (x ∷ a) (y ∷ b) la lb ba bb h =
    let same : x ≡ y =
      byte-bits x y ba.0 bb.0 (h 0 (omega arith)) (h 1 (omega arith)) (h 2 (omega arith))
        (h 3 (omega arith)) (h 4 (omega arith)) (h 5 (omega arith)) (h 6 (omega arith))
        (omega (arith, h 7 (omega arith))) in
    rw ((==_iff x y).1 same) (
      match-SamePrefix k a b (omega arith) (omega arith) ba.1 bb.1
        (λ i l. sym (bit-tail x a i) ∙ h (i + 8) (omega arith) ∙ bit-tail y b i))
