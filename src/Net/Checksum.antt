-- ===== src/Net/Checksum.antt =====
-- net/checksum6.c: the Internet checksum as the code computes it. The list is the memory from the
-- first byte on, so that the byte behind a message of odd length, which the code reads, is in it.
-- Where the list ends before the length, the model reads 0 and says nothing of the code.
pub mod Ends
pub mod Sum
pub mod Verify
use internetworking_nat_box.Base.{
  ℕ, zero, suc, ◌+◌, ◌-◌, ◌*◌, ◌/◌, ◌%◌, ◌^◌, Bool, Option, none, some, List, ltb, ◌==◌,
  if◌then◌else◌, ◌>>=◌, get_or, set, drop,
}

-- `ntohs(*(uint16 *)p)`, the two bytes at `p` as a number.
abbrev pub read16 : List ℕ → ℕ → ℕ
read16 bs i = get_or bs i 0 * 256 + get_or bs (suc i) 0

-- A `uint16` field at `p` set to `htons(v)`.
abbrev pub write16 : List ℕ → ℕ → ℕ → List ℕ
write16 bs i v = set (set bs i (v / 256 % 256)) (suc i) (v % 256)

-- The loop: `i` is a `uint16`, `cksum` a `uint32`. `none` means that the rounds ran out.
unfoldable pub cksum_loop : ℕ → List ℕ → ℕ → ℕ → ℕ → Option ℕ
cksum_loop zero pkt len i cksum = none
cksum_loop (suc rounds) pkt len i cksum =
    let rest =
      cksum_loop rounds (drop 2 pkt) len ((i + 2) % 2 ^ 16) ((cksum + read16 pkt 0) % 2 ^ 32) in
    if ltb i len then rest else some cksum

-- `cksum + (cksum >> 16)`, then `0xffff & ~cksum`.
abbrev pub fold_complement : ℕ → ℕ
fold_complement cksum = 65535 - ((cksum + cksum / 2 ^ 16) % 2 ^ 32) % 2 ^ 16

unfoldable pub checksumv6 : List ℕ → ℕ → Option ℕ
unfolding cksum_loop
checksumv6 pkt len = cksum_loop 32768 pkt len 0 0 >>= λ cksum. some (fold_complement cksum)

-- `!(0xffff & ~x)` for an `int` x that is at least 0.
abbrev pub all_ones : ℕ → Bool
all_ones x = 65535 - x % 2 ^ 16 == 0

unfoldable pub cksum_valid : List ℕ → List ℕ → ℕ → ℕ → Option Bool
cksum_valid phead pkt len pheadlen =
    checksumv6 pkt len >>= λ a. checksumv6 phead pheadlen >>= λ b. some (all_ones (a + b))

unfoldable pub cksum_valid_1buf : List ℕ → ℕ → Option Bool
cksum_valid_1buf pkt len = checksumv6 pkt len >>= λ a. some (all_ones a)
