-- ===== src/Net/Checksum/Sum.antt =====
-- `checksumv6` as the complement of a sum, and for which lengths its loop ends.
use internetworking_nat_box.Base.{
  ap, ◌∙◌, ℕ, zero, suc, ◌+◌, ◌*◌, ◌/◌, ◌%◌, ◌^◌, ◌≤◌, ◌<◌, ◌≡◌, refl, none, some, List, [], ◌∷◌,
  arith, lt→ltb, All, All-set, set, drop, length, get_or,
}
use native.Mathlib.Nat.{add_assoc}
use internetworking_nat_box.Net.Checksum.{read16, write16, cksum_loop, fold_complement, checksumv6}

abbrev pub IsByte : ℕ → Type 0
IsByte b = b < 256

-- The sum of the first `k` big-endian words.
unfoldable pub sum_words : ℕ → List ℕ → ℕ
sum_words zero bs = 0
sum_words (suc k) bs = read16 bs 0 + sum_words k (drop 2 bs)

pub get_or-IsByte : (bs : List ℕ) (i : ℕ) → All IsByte bs → get_or bs i 0 < 256
get_or-IsByte [] i h = omega arith
get_or-IsByte (b ∷ bs) zero h = h.0
get_or-IsByte (b ∷ bs) (suc i) h = get_or-IsByte bs i h.1

pub read16-lt : (bs : List ℕ) (i : ℕ) → All IsByte bs → read16 bs i < 2 ^ 16
read16-lt bs i h = omega (arith, get_or-IsByte bs i h, get_or-IsByte bs (suc i) h)

drop_two-IsByte : (bs : List ℕ) → All IsByte bs → All IsByte (drop 2 bs)
drop_two-IsByte [] h = tt
drop_two-IsByte (a ∷ []) h = tt
drop_two-IsByte (a ∷ b ∷ bs) h = h.1.1

pub write16-IsByte : (bs : List ℕ) (i v : ℕ) → All IsByte bs → All IsByte (write16 bs i v)
write16-IsByte bs i v h =
    All-set IsByte (set bs i (v / 256 % 256)) (suc i) (v % 256)
      (All-set IsByte bs i (v / 256 % 256) h (omega arith)) (omega arith)

pub sum_words-le : (k : ℕ) (bs : List ℕ) → All IsByte bs → sum_words k bs ≤ k * 65535
unfolding sum_words
sum_words-le zero bs h = omega arith
sum_words-le (suc k) bs h =
    omega (arith, read16-lt bs 0 h, sum_words-le k (drop 2 bs) (drop_two-IsByte bs h))

-- `k` words are left: the loop adds them and stops.
cksum_loop-sum :
    (rounds k : ℕ) (pkt : List ℕ) (len i c : ℕ)
    → k < rounds
    → len ≤ i + k * 2
    → i + k * 2 < len + 2
    → len < 65535
    → c + sum_words k pkt < 2 ^ 32
    → cksum_loop rounds pkt len i c ≡ some (c + sum_words k pkt)
unfolding cksum_loop sum_words
cksum_loop-sum zero k pkt len i c h a b m s = absurd (omega arith)
cksum_loop-sum (suc rounds) zero pkt len i c h a b m s = ground arith
cksum_loop-sum (suc rounds) (suc k) pkt len i c h a b m s =
    let next : (i + 2) % 2 ^ 16 ≡ i + 2 = omega arith in
    let sum : (c + read16 pkt 0) % 2 ^ 32 ≡ c + read16 pkt 0 = omega arith in
    rw (lt→ltb i len (omega arith), next, sum)
      (cksum_loop-sum rounds k (drop 2 pkt) len (i + 2) (c + read16 pkt 0) (omega arith)
          (omega arith) (omega arith) m (omega arith)
        ∙ ap some (add_assoc c (read16 pkt 0) (sum_words k (drop 2 pkt))))

-- The loop ends and sums the words, the missing byte of a last one as 0.
pub checksumv6-sum_words :
    (k len : ℕ) (pkt : List ℕ)
    → len ≤ k * 2
    → k * 2 < len + 2
    → len < 65535
    → All IsByte pkt
    → checksumv6 pkt len ≡ some (fold_complement (sum_words k pkt))
unfolding checksumv6
checksumv6-sum_words k len pkt a b m h =
    let start : 0 + sum_words k pkt ≡ sum_words k pkt = omega arith in
    let bound : 0 + sum_words k pkt < 2 ^ 32 = omega (arith, sum_words-le k pkt h) in
    rw (cksum_loop-sum 32768 k pkt len 0 0 (omega arith) (omega arith) (omega arith) m bound, start)

-- For bytes and a length of at most 65534, `checksumv6` ends and complements the folded sum of the
-- words. All of them lie in the memory that is read: with an odd length, the byte behind the message
-- is summed as the low byte of the last word.
pub checksumv6_lem :
    (k len : ℕ) (pkt : List ℕ)
    → len ≤ k * 2
    → k * 2 < len + 2
    → len < 65535
    → k * 2 ≤ length pkt
    → All IsByte pkt
    → checksumv6 pkt len ≡ some (fold_complement (sum_words k pkt))
checksumv6_lem k len pkt a b m inside h = checksumv6-sum_words k len pkt a b m h

-- A message of 65535 bytes or more is summed for ever: the 16-bit counter never reaches its length.
pub checksumv6_diverges :
    (rounds : ℕ) (pkt : List ℕ) (len i c : ℕ)
    → 65535 ≤ len
    → i % 2 ≡ 0
    → i < 2 ^ 16
    → cksum_loop rounds pkt len i c ≡ none
unfolding cksum_loop
checksumv6_diverges zero pkt len i c big even small = refl
checksumv6_diverges (suc rounds) pkt len i c big even small = rw (lt→ltb i len (omega arith)) (
    checksumv6_diverges rounds (drop 2 pkt) len ((i + 2) % 2 ^ 16) ((c + read16 pkt 0) % 2 ^ 32) big
      (omega arith) (omega arith))

-- Storing a word over the `j`-th one changes the sum by the difference of the two.
pub sum_words-write16 :
    (k j : ℕ) (bs : List ℕ) (v : ℕ)
    → j < k
    → j * 2 + 1 < length bs
    → v < 2 ^ 16
    → sum_words k (write16 bs (j * 2) v) + read16 bs (j * 2) ≡ sum_words k bs + v
unfolding sum_words
sum_words-write16 zero j bs v h l s = absurd (omega arith)
sum_words-write16 (suc k) j [] v h l s = absurd (omega arith)
sum_words-write16 (suc k) j (a ∷ []) v h l s = absurd (omega arith)
sum_words-write16 (suc k) zero (a ∷ b ∷ bs) v h l s = omega arith
sum_words-write16 (suc k) (suc j) (a ∷ b ∷ bs) v h l s =
    let double : suc j * 2 ≡ suc (suc (j * 2)) = omega arith in
    rw double (omega (arith, sum_words-write16 k j bs v (omega arith) (omega arith) s))
