-- ===== src/Net/Checksum/Verify.antt =====
-- What the code's own checks accept: `cksum_valid` and the single fold.
use internetworking_nat_box.Base.{
  ℕ, ◌+◌, ◌*◌, ◌/◌, ◌%◌, ◌^◌, ◌≤◌, ◌<◌, ◌≡◌, sym, ap, ◌∙◌, ◌↔◌, some, List, arith, eq_of_some,
  length, All,
}
use internetworking_nat_box.Net.Checksum.{
  read16, write16, fold_complement, all_ones, checksumv6, cksum_valid,
}
use internetworking_nat_box.Net.Checksum.Sum.{
  IsByte, sum_words, sum_words-le, checksumv6-sum_words, sum_words-write16, write16-IsByte,
}

-- The fold of `cksum + (cksum >> 16)` is done once, so a carry out of it is lost.
abbrev pub CarriesTwice : ℕ → Type 0
CarriesTwice t = 2 ^ 16 ≤ t % 2 ^ 16 + t / 2 ^ 16

-- Adding a sum's own complement folds to all ones, unless the fold carried twice.
pub fold_complement-verifies :
    (t : ℕ)
    → t < 2 ^ 31
    → (fold_complement (t + fold_complement t) ≡ 0) ↔ (t % 2 ^ 16 + t / 2 ^ 16 < 2 ^ 16)
fold_complement-verifies t h = (λ e. omega arith, λ e. omega arith)

module _ (k j : ℕ) (msg : List ℕ) (words : k ≤ 32767) (at : j < k) (fits : j * 2 + 1 < length msg)
    (bytes : All IsByte msg) (zeroed : read16 msg (j * 2) ≡ 0) where
  abbrev stored : List ℕ
  stored = write16 msg (j * 2) (fold_complement (sum_words k msg))

  sum_words-stored : sum_words k stored ≡ sum_words k msg + fold_complement (sum_words k msg)
  sum_words-stored =
      omega
        (arith, sum_words-write16 k j msg (fold_complement (sum_words k msg)) at fits (omega arith))

  checksumv6-stored :
      checksumv6 stored (k * 2)
      ≡ some (fold_complement (sum_words k msg + fold_complement (sum_words k msg)))
  checksumv6-stored =
      checksumv6-sum_words k (k * 2) stored (omega arith) (omega arith) (omega arith)
        (write16-IsByte msg (j * 2) _ bytes)
      ∙ ap (λ t. some (fold_complement t)) sum_words-stored

  -- Storing the checksum of a message into its zeroed checksum field makes `checksumv6` of the
  -- message 0 exactly when the fold of its sum carries at most once.
  pub checksumv6-store :
      (checksumv6 (write16 msg (j * 2) (fold_complement (sum_words k msg))) (k * 2) ≡ some 0)
      ↔ (¬ CarriesTwice (sum_words k msg))
  checksumv6-store = (
    λ e c. absurd (
        omega (
          arith,
          eq_of_some (sym checksumv6-stored ∙ e),
          (fold_complement-verifies (sum_words k msg) (omega (arith, sum_words-le k msg bytes))).0
              (eq_of_some (sym checksumv6-stored ∙ e)),
        )),
    λ c.
        checksumv6-stored
        ∙ ap some (
            (fold_complement-verifies (sum_words k msg) (omega (arith, sum_words-le k msg bytes))).1
              (omega arith)),
  )

-- `cksum_valid` accepts exactly where the two folded sums add up to all ones.
pub cksum_valid_lem :
    (k n : ℕ) (phead pkt : List ℕ)
    → k ≤ 32767
    → n ≤ 32767
    → All IsByte phead
    → All IsByte pkt
    → cksum_valid phead pkt (k * 2) (n * 2)
      ≡ some (all_ones (fold_complement (sum_words k pkt) + fold_complement (sum_words n phead)))
unfolding cksum_valid
cksum_valid_lem k n phead pkt hk hn hp hq = rw (
  checksumv6-sum_words k (k * 2) pkt (omega arith) (omega arith) (omega arith) hq,
  checksumv6-sum_words n (n * 2) phead (omega arith) (omega arith) (omega arith) hp,
)
