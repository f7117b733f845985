-- ===== src/Net/Bytes.antt =====
-- Comparing addresses: `match` of net/fwdipv6.c and `byteComp` of net/reassembly.c.
-- No array that the code passes is shorter than the length it passes; past the end of a list the
-- bytes count as different.
use internetworking_nat_box.Base.{
  ℕ, zero, suc, ◌+◌, ◌%◌, ◌≤◌, ◌<◌, ◌≡◌, refl, Bool, true, false, List, [], ◌∷◌, arith, ◌==◌,
  if◌then◌else◌, length,
}

-- `match(a, b, len)`.
unfoldable pub match : List ℕ → List ℕ → ℕ → Bool
match a b zero = true
match (x ∷ a) (y ∷ b) (suc len) = if x == y then match a b len else false
match a b (suc len) = false

-- `byteComp(first, second, len)`, which reports whether its loop reached `len`. The length and the
-- counter are `uint8`.
byte_comp_loop : List ℕ → List ℕ → ℕ → ℕ → ℕ
byte_comp_loop a b zero i = i
byte_comp_loop (x ∷ a) (y ∷ b) (suc left) i =
    if x == y then byte_comp_loop a b left ((i + 1) % 256) else i
byte_comp_loop a b (suc left) i = i

unfoldable pub byte_comp : List ℕ → List ℕ → ℕ → Bool
unfolding byte_comp_loop
byte_comp first second len = byte_comp_loop first second (len % 256) 0 == len % 256

-- A full-length match is equality.
pub match→eq : (n : ℕ) (a b : List ℕ) → length a ≡ n → length b ≡ n → match a b n ≡ true → a ≡ b
unfolding match
match→eq zero [] [] p q h = refl
match→eq zero [] (y ∷ b) p q h = absurd (omega arith)
match→eq zero (x ∷ a) b p q h = absurd (omega arith)
match→eq (suc n) [] b p q h = absurd (omega arith)
match→eq (suc n) (x ∷ a) [] p q h = absurd (omega arith)
match→eq (suc n) (x ∷ a) (y ∷ b) p q h = ground (arith, match→eq n a b)

pub match_refl : (n : ℕ) (a : List ℕ) → n ≤ length a → match a a n ≡ true
unfolding match
match_refl zero a h = refl
match_refl (suc n) [] h = absurd (omega arith)
match_refl (suc n) (x ∷ a) h = ground (arith, match_refl n a)

byte_comp_loop-le : (a b : List ℕ) (n i : ℕ) → i + n < 256 → byte_comp_loop a b n i ≤ i + n
unfolding byte_comp_loop
byte_comp_loop-le a b zero i h = omega arith
byte_comp_loop-le [] b (suc n) i h = omega arith
byte_comp_loop-le (x ∷ a) [] (suc n) i h = omega arith
byte_comp_loop-le (x ∷ a) (y ∷ b) (suc n) i h =
    let next : (i + 1) % 256 ≡ i + 1 = omega arith in
    rw next (ground (arith, byte_comp_loop-le a b n (i + 1)))

byte_comp_loop-match :
    (a b : List ℕ) (n i : ℕ) → i + n < 256 → (byte_comp_loop a b n i == i + n) ≡ match a b n
unfolding byte_comp_loop match
byte_comp_loop-match a b zero i h = ground arith
byte_comp_loop-match [] b (suc n) i h = ground arith
byte_comp_loop-match (x ∷ a) [] (suc n) i h = ground arith
byte_comp_loop-match (x ∷ a) (y ∷ b) (suc n) i h =
    let next : (i + 1) % 256 ≡ i + 1 = omega arith in
    rw next (ground (arith, byte_comp_loop-match a b n (i + 1), byte_comp_loop-le a b n (i + 1)))

-- For lengths below 256, `byteComp` and `match` are the same function.
pub byte_comp-eq-match : (a b : List ℕ) (n : ℕ) → n < 256 → byte_comp a b n ≡ match a b n
unfolding byte_comp
byte_comp-eq-match a b n small =
    let same : n % 256 ≡ n = omega arith in rw same (ground (arith, byte_comp_loop-match a b n 0))
