-- ===== src/Kernel/Memory/Roundtrip.antt =====
-- Returning what `getmem` gave restores the free list.
use internetworking_nat_box.Base.{
  ℕ, suc, ◌-◌, ◌^◌, ◌≤◌, ◌<◌, ◌≡◌, sym, ap, ◌∙◌, inl, inr, true, false, ◌||◌, none, some, List,
  arith, ltb, ◌==◌, Option-cases, eq_of_some, Ensures-some,
}
use mathlib.Core.Path.{subst₂}
use internetworking_nat_box.Kernel.Memory.{
  Block, Memory, roundmb, sub32, add32, first_fit, getmem, release, freemem,
}
use internetworking_nat_box.Kernel.Memory.Heap.{sum_lengths-le, IsHeap, roundmb_lem}
use internetworking_nat_box.Kernel.Memory.Allocate.{Fits, first_fit-Fits}
use internetworking_nat_box.Kernel.Memory.Rejoin.{release-first_fit}

-- The heap after `getmem` has taken its bytes.
abbrev taken : ℕ → Memory → List Block → Memory
taken nbytes m bs = record m { free = bs; total = sub32 m.total (roundmb nbytes) }

getmem-none :
    (nbytes : ℕ) (m : Memory)
    → 0 < nbytes
    → first_fit m.free (roundmb nbytes) ≡ none
    → getmem nbytes m ≡ (none, m)
unfolding getmem
getmem-none nbytes m pos e =
    let nonzero : (nbytes == 0) ≡ false = ground arith in rw (nonzero, e, getmem)

getmem-some :
    (nbytes : ℕ) (m : Memory) {a : ℕ} {bs : List Block}
    → 0 < nbytes
    → first_fit m.free (roundmb nbytes) ≡ some (a, bs)
    → getmem nbytes m ≡ (some a, taken nbytes m bs)
unfolding getmem
getmem-some nbytes m pos e =
    let nonzero : (nbytes == 0) ≡ false = ground arith in rw (nonzero, e, getmem)

freemem-some :
    (a nbytes : ℕ) (m : Memory) {bs : List Block}
    → 0 < nbytes
    → m.minheap ≤ a
    → a ≤ m.maxheap
    → release m.free a (roundmb nbytes) ≡ some bs
    → freemem a nbytes m ≡ (true, record m { free = bs; total = add32 m.total (roundmb nbytes) })
unfolding freemem
freemem-some a nbytes m pos low high e =
    let checked : ((nbytes == 0) || (ltb a m.minheap || ltb m.maxheap a)) ≡ false = ground arith in
    rw (checked, e, freemem)

-- On a well-formed heap, freeing a block that `getmem` has just returned, by the length that was
-- asked for, succeeds and restores the heap as it was before the call.
pub freemem-getmem :
    (nbytes : ℕ) (m : Memory) {a : ℕ} {m' : Memory}
    → 0 < nbytes
    → nbytes ≤ 2 ^ 32 - 8
    → IsHeap m
    → getmem nbytes m ≡ (some a, m')
    → freemem a nbytes m' ≡ (true, m)
freemem-getmem nbytes m {a} {m'} pos small v got =
    elim (Option-cases (first_fit m.free (roundmb nbytes))) [
      | inl nothing ↦ cc (getmem-none nbytes m pos nothing)
      | inr ((b, bs), found) ↦
          let (_, _, eight, some_bytes) = roundmb_lem nbytes pos small in
          let same = sym (getmem-some nbytes m pos found) ∙ got in
          let f =
            Ensures-some (Fits (m.minheap - 1) (suc m.maxheap) (roundmb nbytes) m.free)
              (first_fit-Fits (m.minheap - 1) (suc m.maxheap) (roundmb nbytes) m.free
                (omega (arith, v.end)) some_bytes eight v.chain)
              found in
          let bound = sum_lengths-le (m.minheap - 1) (suc m.maxheap) m.free v.chain in
          let total : add32 (sub32 m.total (roundmb nbytes)) (roundmb nbytes) ≡ m.total =
            omega (arith, f.sum, v.counted, v.end) in
          let back =
            freemem-some b nbytes (taken nbytes m bs) pos (omega (arith, f.above, v.start))
              (omega (arith, f.inside))
              (release-first_fit (suc m.maxheap) (roundmb nbytes) (omega (arith, v.end)) some_bytes
                eight (m.minheap - 1) m.free v.chain found) in
          subst₂ (λ x h. freemem x nbytes h ≡ (true, m)) (eq_of_some (ap (λ p. p.0) same))
            (ap (λ p. p.1) same) (back ∙ ap (λ t. (true, record m { total = t })) total)
    ]
