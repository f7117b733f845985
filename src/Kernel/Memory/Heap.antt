-- ===== src/Kernel/Memory/Heap.antt =====
-- The free list is sorted, its blocks neither overlap nor touch, and `memlist.mlength` counts them.
use internetworking_nat_box.Base.{ℕ, suc, ◌+◌, ◌-◌, ◌%◌, ◌^◌, ◌≤◌, ◌<◌, ◌≡◌, List, [], ◌∷◌, arith}
use internetworking_nat_box.Kernel.Memory.{Block, Memory, roundmb}

-- The blocks lie above `low`, with a gap before each, and end at most at `high`.
abbrev pub Chain : ℕ → ℕ → List Block → Type 0
Chain low high [] = low ≤ high
Chain low high (b ∷ bs) =
    (low < b.addr) × (0 < b.mlength) × (b.mlength % 8 ≡ 0) × Chain (b.addr + b.mlength) high bs

pub Chain-le : (low high : ℕ) (bs : List Block) → Chain low high bs → low ≤ high
Chain-le low high [] h = h
Chain-le low high (b ∷ bs) h = omega (arith, Chain-le (b.addr + b.mlength) high bs h.3)

pub Chain-lower :
    (low low' high : ℕ) (bs : List Block) → low' ≤ low → Chain low high bs → Chain low' high bs
Chain-lower low low' high [] h c = omega arith
Chain-lower low low' high (b ∷ bs) h c = (omega arith, c.1, c.2, c.3)

unfoldable pub sum_lengths : List Block → ℕ
sum_lengths [] = 0
sum_lengths (b ∷ bs) = b.mlength + sum_lengths bs

pub sum_lengths-le :
    (low high : ℕ) (bs : List Block) → Chain low high bs → low + sum_lengths bs ≤ high
unfolding sum_lengths
sum_lengths-le low high [] h = omega arith
sum_lengths-le low high (b ∷ bs) h = omega (arith, sum_lengths-le (b.addr + b.mlength) high bs h.3)

pub record IsHeap (m : Memory) : Type 0 where
  pub start : 0 < m.minheap
  pub end : m.maxheap < 2 ^ 32 - 1
  pub chain : Chain (m.minheap - 1) (suc m.maxheap) m.free
  pub counted : m.total ≡ sum_lengths m.free

pub roundmb_lem :
    (n : ℕ)
    → 0 < n
    → n ≤ 2 ^ 32 - 8
    → (n ≤ roundmb n) × (roundmb n < n + 8) × (roundmb n % 8 ≡ 0) × (0 < roundmb n)
roundmb_lem n pos small = omega arith
