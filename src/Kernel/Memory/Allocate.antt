-- ===== src/Kernel/Memory/Allocate.antt =====
-- What `getmem` takes off the free list.
use internetworking_nat_box.Base.{
  ℕ, suc, ◌+◌, ◌-◌, ◌%◌, ◌^◌, ◌≤◌, ◌<◌, ◌≡◌, refl, ◌⊎◌, inl, inr, false, Option, none, some, List,
  [], ◌∷◌, arith, ltb, ◌==◌, ltb→lt, Bool-cases, Option-cases, Ensures, Ensures-bind, Ensures-some,
  All, get_elem?,
}
use internetworking_nat_box.Kernel.Memory.{
  Block, block, Memory, roundmb, sub32, add32, first_fit, getmem,
}
use internetworking_nat_box.Kernel.Memory.Heap.{
  Chain, Chain-le, Chain-lower, sum_lengths, sum_lengths-le, IsHeap, roundmb_lem,
}

-- The `n` bytes at `a` belong to one block of the list.
abbrev pub IsWithin : List Block → ℕ → ℕ → Type 0
IsWithin bs n a =
    (k : ℕ) × (d : Block) × (get_elem? bs k ≡ some d) × (d.addr ≤ a) × (a + n ≤ d.addr + d.mlength)

-- No block of the list shares a byte with the `n` bytes at `a`.
abbrev pub IsApart : List Block → ℕ → ℕ → Type 0
IsApart bs n a = All (λ b. (b.addr + b.mlength ≤ a) ⊎ (a + n ≤ b.addr)) bs

pub Chain-IsApart :
    (low high n a : ℕ) (bs : List Block) → a + n ≤ low → Chain low high bs → IsApart bs n a
Chain-IsApart low high n a [] h c = tt
Chain-IsApart low high n a (b ∷ bs) h c =
    (inr (omega arith), Chain-IsApart (b.addr + b.mlength) high n a bs (omega arith) c.3)

pub IsWithin-cons :
    (b : Block) (bs : List Block) (n a : ℕ) → IsWithin bs n a → IsWithin (b ∷ bs) n a
IsWithin-cons b bs n a (k, d, got, low, high) = (suc k, d, got, low, high)

-- What `getmem` takes: a part of one block, which no block of the list has afterwards. The chain
-- stays, and the taken bytes leave the sum.
pub record Fits (low high n : ℕ) (bs : List Block) (r : ℕ × List Block) : Type 0 where
  pub above : low < r.0
  pub inside : r.0 + n ≤ high
  pub chain : Chain low high r.1
  pub sum : sum_lengths r.1 + n ≡ sum_lengths bs
  pub was_free : IsWithin bs n r.0
  pub apart : IsApart r.1 n r.0

pub first_fit-Fits :
    (low high n : ℕ) (bs : List Block)
    → high < 2 ^ 32
    → 0 < n
    → n % 8 ≡ 0
    → Chain low high bs
    → Ensures (Fits low high n bs) (first_fit bs n)
unfolding first_fit sum_lengths
first_fit-Fits low high n [] small pos eight c = tt
first_fit-Fits low high n (b ∷ bs) small pos eight c = elim (Bool-cases (b.mlength == n)) [
  | inl exact ↦ rw exact (fits_exact (ground arith))
  | inr other ↦ elim (Bool-cases (ltb n b.mlength)) [
    | inl longer ↦ rw (other, longer) (fits_split (ltb→lt _ _ longer))
    | inr short ↦
        rw (other, short)
          (Ensures-bind (Fits low high n (b ∷ bs)) (first_fit bs n) _ (λ (a, bs') e.
            fits_later a bs' (
              Ensures-some (Fits (b.addr + b.mlength) high n bs)
                (first_fit-Fits (b.addr + b.mlength) high n bs small pos eight c.3) e)))
  ]
]
  where
    fits_exact : b.mlength ≡ n → Fits low high n (b ∷ bs) (b.addr, bs)
    fits_exact e = record {
      above = c.0;
      inside = omega (arith, Chain-le (b.addr + b.mlength) high bs c.3);
      chain = Chain-lower (b.addr + b.mlength) low high bs (omega arith) c.3;
      sum = omega arith;
      was_free = (0, b, refl, omega arith, omega arith);
      apart = Chain-IsApart (b.addr + b.mlength) high n b.addr bs (omega arith) c.3;
    }

    fits_split :
        n < b.mlength
        → Fits low high n (b ∷ bs) (b.addr, block (add32 b.addr n) (b.mlength - n) ∷ bs)
    fits_split l =
        let le = Chain-le (b.addr + b.mlength) high bs c.3 in
        let at : add32 b.addr n ≡ b.addr + n = omega arith in
        let top : add32 b.addr n + (b.mlength - n) ≡ b.addr + b.mlength = omega arith in
        record {
          above = c.0;
          inside = omega arith;
          chain = (omega arith, omega arith, omega arith, rw top c.3);
          sum = omega arith;
          was_free = (0, b, refl, omega arith, omega arith);
          apart = (
            inr (omega arith),
            Chain-IsApart (b.addr + b.mlength) high n b.addr bs (omega arith) c.3,
          );
        }

    fits_later :
        (a : ℕ) (bs' : List Block)
        → Fits (b.addr + b.mlength) high n bs (a, bs')
        → Fits low high n (b ∷ bs) (a, b ∷ bs')
    fits_later a bs' f = record {
      above = omega (arith, f.above);
      inside = f.inside;
      chain = (c.0, c.1, c.2, f.chain);
      sum = omega (arith, f.sum);
      was_free = IsWithin-cons b bs n a f.was_free;
      apart = (inl (omega (arith, f.above)), f.apart);
    }

pub first_fit-none : (bs : List Block) (n : ℕ) → first_fit bs n ≡ none → All (λ b. b.mlength < n) bs
unfolding first_fit
first_fit-none [] n h = tt
first_fit-none (b ∷ bs) n h = elim (Option-cases (first_fit bs n)) [
  | inl nothing ↦ (ground arith, first_fit-none bs n nothing)
  | inr (r, found) ↦ absurd (ground arith)
]

-- The outcomes of `getmem`: no block is long enough and nothing changes, or the block at `a` was part
-- of a free block and is apart from the free list that is left, and the heap stays well formed, with
-- the block's length gone from `memlist.mlength`.
abbrev pub Allocated : Memory → ℕ → Option ℕ × Memory → Type 0
Allocated m n (none, m') = (m' ≡ m) × All (λ b. b.mlength < n) m.free
Allocated m n (some a, m') =
    IsHeap m'
    × (m.minheap ≤ a)
    × (a + n ≤ suc m.maxheap)
    × (m'.total + n ≡ m.total)
    × IsWithin m.free n a
    × IsApart m'.free n a

-- `getmem` of a positive number of bytes that can be rounded up fails only where no free block is
-- long enough, and changes nothing then. Otherwise it keeps the heap well formed, returns a block of
-- the rounded length inside the heap, and counts the length off `memlist.mlength`. The block was part
-- of one free block, and shares no byte with any block that is free afterwards.
pub getmem-Allocated :
    (nbytes : ℕ) (m : Memory)
    → 0 < nbytes
    → nbytes ≤ 2 ^ 32 - 8
    → IsHeap m
    → Allocated m (roundmb nbytes) (getmem nbytes m)
unfolding getmem
getmem-Allocated nbytes m pos small v =
    let (_, _, eight, some_bytes) = roundmb_lem nbytes pos small in
    let nonzero : (nbytes == 0) ≡ false = ground arith in
    elim (Option-cases (first_fit m.free (roundmb nbytes))) [
      | inl nothing ↦
          rw (nonzero, nothing, getmem) (refl, first_fit-none m.free (roundmb nbytes) nothing)
      | inr ((a, bs), found) ↦
          let f =
            Ensures-some (Fits (m.minheap - 1) (suc m.maxheap) (roundmb nbytes) m.free)
              (first_fit-Fits (m.minheap - 1) (suc m.maxheap) (roundmb nbytes) m.free
                (omega (arith, v.end)) some_bytes eight v.chain)
              found in
          let bound = sum_lengths-le (m.minheap - 1) (suc m.maxheap) m.free v.chain in
          let left : sub32 m.total (roundmb nbytes) + roundmb nbytes ≡ m.total =
            omega (arith, f.sum, v.counted, v.end) in
          rw (nonzero, found, getmem)
            (
              record {
                start = v.start;
                end = v.end;
                chain = f.chain;
                counted = omega (arith, left, f.sum, v.counted);
              },
              omega (arith, f.above, v.start),
              f.inside,
              left,
              f.was_free,
              f.apart,
            )
    ]
