-- ===== src/Kernel/Memory/Stack.antt =====
-- What `getstk` takes off the end of the free list.
use internetworking_nat_box.Base.{
  ℕ, suc, ◌+◌, ◌-◌, ◌%◌, ◌^◌, ◌≤◌, ◌<◌, ◌≡◌, refl, inl, inr, false, Option, none, some, List, [],
  ◌∷◌, arith, leb, ◌==◌, ==_iff, Bool-cases, All,
}
use internetworking_nat_box.Kernel.Memory.{
  Block, block, Memory, roundmb, sub32, add32, last_fit, getstk,
}
use internetworking_nat_box.Kernel.Memory.Heap.{
  Chain, Chain-le, Chain-lower, sum_lengths, sum_lengths-le, IsHeap, roundmb_lem,
}
use internetworking_nat_box.Kernel.Memory.Allocate.{
  Fits, IsWithin, IsApart, IsWithin-cons, Chain-IsApart,
}

-- Nothing fits, or the chain stays and the taken bytes leave the sum.
abbrev StackFits : ℕ → ℕ → ℕ → List Block → Option (ℕ × List Block) → Type 0
StackFits low high n bs none = All (λ b. b.mlength < n) bs
StackFits low high n bs (some r) = Fits low high n bs r

Fits-cons :
    (low high n : ℕ) (b : Block) (bs : List Block) {a : ℕ} {bs' : List Block}
    → Chain low high (b ∷ bs)
    → Fits (b.addr + b.mlength) high n bs (a, bs')
    → Fits low high n (b ∷ bs) (a, b ∷ bs')
unfolding sum_lengths
Fits-cons low high n b bs {a} c f = record {
  above = omega (arith, f.above);
  inside = f.inside;
  chain = (c.0, c.1, c.2, f.chain);
  sum = omega (arith, f.sum);
  was_free = IsWithin-cons b bs n a f.was_free;
  apart = (inl (omega (arith, f.above)), f.apart);
}

-- The block itself is taken, whole or from its top.
Fits-whole :
    (low high n : ℕ) (b : Block) (bs : List Block)
    → Chain low high (b ∷ bs)
    → n ≡ b.mlength
    → Fits low high n (b ∷ bs) (b.addr, bs)
unfolding sum_lengths
Fits-whole low high n b bs c e = record {
  above = c.0;
  inside = omega (arith, Chain-le (b.addr + b.mlength) high bs c.3);
  chain = Chain-lower (b.addr + b.mlength) low high bs (omega arith) c.3;
  sum = omega arith;
  was_free = (0, b, refl, omega arith, omega arith);
  apart = Chain-IsApart (b.addr + b.mlength) high n b.addr bs (omega arith) c.3;
}

Fits-top :
    (low high n : ℕ) (b : Block) (bs : List Block)
    → high < 2 ^ 32
    → n % 8 ≡ 0
    → Chain low high (b ∷ bs)
    → n < b.mlength
    → Fits low high n (b ∷ bs) (add32 b.addr (b.mlength - n), block b.addr (b.mlength - n) ∷ bs)
unfolding sum_lengths
Fits-top low high n b bs small eight c l =
    let le = Chain-le (b.addr + b.mlength) high bs c.3 in
    let at : add32 b.addr (b.mlength - n) ≡ b.addr + (b.mlength - n) = omega arith in
    record {
      above = omega arith;
      inside = omega arith;
      chain = (
        c.0,
        omega arith,
        omega arith,
        Chain-lower (b.addr + b.mlength) (b.addr + (b.mlength - n)) high bs (omega arith) c.3,
      );
      sum = omega arith;
      was_free = (0, b, refl, omega arith, omega arith);
      apart = (
        inl (omega arith),
        Chain-IsApart (b.addr + b.mlength) high n (add32 b.addr (b.mlength - n)) bs (omega arith)
            c.3,
      );
    }

last_fit-StackFits :
    (low high n : ℕ) (bs : List Block)
    → high < 2 ^ 32
    → n % 8 ≡ 0
    → Chain low high bs
    → StackFits low high n bs (last_fit bs n)
unfolding last_fit
last_fit-StackFits low high n [] small eight c = tt
last_fit-StackFits low high n (b ∷ bs) small eight c =
    go (last_fit bs n) refl (last_fit-StackFits (b.addr + b.mlength) high n bs small eight c.3)
  where
    go :
        (r : Option (ℕ × List Block))
        → last_fit bs n ≡ r
        → StackFits (b.addr + b.mlength) high n bs r
        → StackFits low high n (b ∷ bs) (last_fit (b ∷ bs) n)
    go (some (a, bs')) e f = rw (e, last_fit) (Fits-cons low high n b bs c f)
    go none e f = elim (Bool-cases (leb n b.mlength)) [
      | inl fits ↦ elim (Bool-cases (n == b.mlength)) [
        | inl same ↦
            rw (e, last_fit, fits, same) (Fits-whole low high n b bs c ((==_iff _ _).0 same))
        | inr more ↦
            rw (e, last_fit, fits, more) (Fits-top low high n b bs small eight c (ground arith))
      ]
      | inr short ↦ rw (e, last_fit, short) (ground arith, f)
    ]

-- The outcomes of `getstk`: no block is long enough and nothing changes, or the stack from `base` to
-- the returned word, which is its highest, was part of a free block and is apart from the free list
-- that is left, and the heap stays well formed.
abbrev pub StackAllocated : Memory → ℕ → Option ℕ × Memory → Type 0
StackAllocated m n (none, m') = (m' ≡ m) × All (λ b. b.mlength < n) m.free
StackAllocated m n (some top, m') =
    (base : ℕ) × (top + 4 ≡ base + n)
    × IsHeap m'
    × (m.minheap ≤ base)
    × (top + 4 ≤ suc m.maxheap)
    × (m'.total + n ≡ m.total)
    × IsWithin m.free n base
    × IsApart m'.free n base

-- `getstk` of a positive number of bytes that can be rounded up fails only where no free block is
-- long enough, and changes nothing then. Otherwise it keeps the heap well formed, returns the highest
-- word of a stack of the rounded length inside the heap, and counts the length off `memlist.mlength`.
-- The stack was part of one free block, and shares no byte with any block that is free afterwards.
pub getstk-StackAllocated :
    (nbytes : ℕ) (m : Memory)
    → 0 < nbytes
    → nbytes ≤ 2 ^ 32 - 8
    → IsHeap m
    → StackAllocated m (roundmb nbytes) (getstk nbytes m)
unfolding getstk
getstk-StackAllocated nbytes m pos small v =
    let (_, _, eight, some_bytes) = roundmb_lem nbytes pos small in
    let nonzero : (nbytes == 0) ≡ false = ground arith in
    go nonzero eight some_bytes (last_fit m.free (roundmb nbytes)) refl (
      last_fit-StackFits (m.minheap - 1) (suc m.maxheap) (roundmb nbytes) m.free
        (omega (arith, v.end)) eight v.chain)
  where
    go :
        (nbytes == 0) ≡ false
        → roundmb nbytes % 8 ≡ 0
        → 0 < roundmb nbytes
        → (r : Option (ℕ × List Block)) → last_fit m.free (roundmb nbytes) ≡ r
        → StackFits (m.minheap - 1) (suc m.maxheap) (roundmb nbytes) m.free r
        → StackAllocated m (roundmb nbytes) (getstk nbytes m)
    go nonzero eight some_bytes none e f = rw (nonzero, e, getstk) (refl, f)
    go nonzero eight some_bytes (some (a, bs)) e f =
        let bound = sum_lengths-le (m.minheap - 1) (suc m.maxheap) m.free v.chain in
        let left : sub32 m.total (roundmb nbytes) + roundmb nbytes ≡ m.total =
          omega (arith, f.sum, v.counted, v.end) in
        let top : (a + roundmb nbytes + 2 ^ 32 - 4) % 2 ^ 32 + 4 ≡ a + roundmb nbytes =
          omega (arith, f.inside, v.end) in
        rw (nonzero, e, getstk)
          (
            a,
            top,
            record {
              start = v.start;
              end = v.end;
              chain = f.chain;
              counted = omega (arith, left, f.sum, v.counted);
            },
            omega (arith, f.above, v.start),
            omega (arith, top, f.inside),
            left,
            f.was_free,
            f.apart,
          )
