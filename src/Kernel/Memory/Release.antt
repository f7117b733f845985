-- ===== src/Kernel/Memory/Release.antt =====
-- What `freemem` puts back into the free list.
use internetworking_nat_box.Base.{
  ℕ, suc, ◌+◌, ◌-◌, ◌%◌, ◌^◌, ◌≤◌, ◌<◌, ◌≡◌, refl, sym, ◌∙◌, ◌≢◌, inl, inr, Bool, true, false, ◌||◌,
  some, List, [], ◌∷◌, arith, ltb, ◌==◌, if◌then◌else◌, ==_iff, Bool-cases, Option-cases, Ensures,
  Ensures-bind, Ensures-some,
}
use internetworking_nat_box.Kernel.Memory.{
  Block, block, Memory, roundmb, add32, join_next, below_next, release_after, release, freemem,
}
use internetworking_nat_box.Kernel.Memory.Heap.{
  Chain, Chain-le, sum_lengths, sum_lengths-le, IsHeap, roundmb_lem,
}

-- The block ends at most where the next one begins.
abbrev NotAbove : ℕ → List Block → Type 0
NotAbove top [] = Unit
NotAbove top (next ∷ bs) = top ≤ next.addr

join_next-Chain :
    (low high x : ℕ) (b : Block) (bs : List Block)
    → high < 2 ^ 32
    → low < b.addr
    → 0 < b.mlength
    → b.mlength % 8 ≡ 0
    → b.addr + b.mlength ≤ high
    → Chain x high bs
    → NotAbove (b.addr + b.mlength) bs
    → Chain low high (join_next b bs) × (sum_lengths (join_next b bs) ≡ b.mlength + sum_lengths bs)
unfolding join_next sum_lengths
join_next-Chain low high x b [] small l p e h c t = ((l, p, e, h), refl)
join_next-Chain low high x b (next ∷ bs) small l p e h c t =
    let le = Chain-le (next.addr + next.mlength) high bs c.3 in
    let top : add32 b.addr b.mlength ≡ b.addr + b.mlength = omega arith in
    elim (Bool-cases (add32 b.addr b.mlength == next.addr)) [
      | inl touch ↦
          let same : b.addr + b.mlength ≡ next.addr = sym top ∙ (==_iff _ _).0 touch in
          let sum : add32 b.mlength next.mlength ≡ b.mlength + next.mlength = omega arith in
          let end : b.addr + (b.mlength + next.mlength) ≡ next.addr + next.mlength = omega arith in
          rw (touch, sum) ((l, omega arith, omega arith, rw end c.3), omega arith)
      | inr gap ↦
          let apart : b.addr + b.mlength ≢ next.addr =
            λ same. cc (sym gap ∙ (==_iff _ _).1 (top ∙ same)) in
          rw gap ((l, p, e, (omega arith, c.1, c.2, c.3)), refl)
    ]

-- What `freemem` leaves: a chain that holds the freed bytes too.
record Released (low high n : ℕ) (bs : List Block) (bs' : List Block) : Type 0 where
  chain : Chain low high bs'
  sum : sum_lengths bs' ≡ sum_lengths bs + n

module _ (high n a : ℕ) (small : high < 2 ^ 32) (pos : 0 < n) (eight : n % 8 ≡ 0)
    (inside : a + n ≤ high) where
  -- The walk stops behind `prev`, with no overlap.
  settle :
      (low : ℕ) (prev : Block) (bs : List Block)
      → Chain low high (prev ∷ bs)
      → prev.addr + prev.mlength ≤ a
      → NotAbove (a + n) bs
      → Ensures (Released low high n (prev ∷ bs)) (
          if add32 prev.addr prev.mlength == a
          then some (join_next (block prev.addr (add32 prev.mlength n)) bs)
          else some (prev ∷ join_next (block a n) bs))
  unfolding sum_lengths
  settle low prev bs c after before =
      let top : add32 prev.addr prev.mlength ≡ prev.addr + prev.mlength = omega arith in
      elim (Bool-cases (add32 prev.addr prev.mlength == a)) [
        | inl touch ↦
            let same : prev.addr + prev.mlength ≡ a = sym top ∙ (==_iff _ _).0 touch in
            let sum : add32 prev.mlength n ≡ prev.mlength + n = omega arith in
            let end : prev.addr + (prev.mlength + n) ≡ a + n = omega arith in
            let (chain, total) =
              join_next-Chain low high (prev.addr + prev.mlength)
                (block prev.addr (prev.mlength + n)) bs small c.0 (omega arith) (omega arith)
                (omega arith) c.3 (rw end before) in
            rw (touch, sum) (record { chain = chain; sum = omega (arith, total) })
        | inr gap ↦
            let apart : prev.addr + prev.mlength ≢ a =
              λ same. cc (sym gap ∙ (==_iff _ _).1 (top ∙ same)) in
            let (chain, total) =
              join_next-Chain (prev.addr + prev.mlength) high (prev.addr + prev.mlength) (block a n)
                bs small (omega arith) pos eight inside c.3 before in
            rw gap (record { chain = (c.0, c.1, c.2, chain); sum = omega (arith, total) })
      ]

  NotAbove-of_below_next : (bs : List Block) → below_next a n bs ≡ true → NotAbove (a + n) bs
  NotAbove-of_below_next [] h = tt
  NotAbove-of_below_next (next ∷ bs) h = let sum : add32 a n ≡ a + n = omega arith in ground arith

  release_after-Released :
      (low : ℕ) (prev : Block) (bs : List Block)
      → Chain low high (prev ∷ bs)
      → Ensures (Released low high n (prev ∷ bs)) (release_after prev bs a n)
  unfolding release_after sum_lengths
  release_after-Released low prev [] c =
      let top : add32 prev.addr prev.mlength ≡ prev.addr + prev.mlength = omega arith in
      elim (Bool-cases (ltb a (add32 prev.addr prev.mlength))) [
        | inl overlap ↦ rw overlap tt
        | inr clear ↦ rw clear (settle low prev [] c (ground arith) tt)
      ]
  release_after-Released low prev (next ∷ bs) c =
      let le = Chain-le (next.addr + next.mlength) high bs c.3.3 in
      let top : add32 prev.addr prev.mlength ≡ prev.addr + prev.mlength = omega arith in
      elim (Bool-cases (ltb next.addr a)) [
        | inl further ↦ rw further (
            Ensures-bind (Released low high n (prev ∷ next ∷ bs)) (release_after next bs a n) _
              (λ bs' e. later bs' (
                Ensures-some (Released (prev.addr + prev.mlength) high n (next ∷ bs))
                  (release_after-Released (prev.addr + prev.mlength) next bs c.3) e)))
        | inr stop ↦ elim (Bool-cases (ltb a (add32 prev.addr prev.mlength))) [
          | inl overlap ↦ rw (stop, overlap) tt
          | inr clear ↦ elim (Bool-cases (below_next a n (next ∷ bs))) [
            | inl room ↦
                rw (stop, clear, room)
                  (settle low prev (next ∷ bs) c (ground arith)
                    (NotAbove-of_below_next (next ∷ bs) room))
            | inr overlap ↦ rw (stop, clear, overlap) tt
          ]
        ]
      ]
    where
      later :
          (bs' : List Block)
          → Released (prev.addr + prev.mlength) high n (next ∷ bs) bs'
          → Released low high n (prev ∷ next ∷ bs) (prev ∷ bs')
      later bs' r = record { chain = (c.0, c.1, c.2, r.chain); sum = omega (arith, r.sum) }

  release-Released :
      (low : ℕ) (bs : List Block)
      → low < a
      → Chain low high bs
      → Ensures (Released low high n bs) (release bs a n)
  unfolding release sum_lengths
  release-Released low [] l c =
      let (chain, total) =
        join_next-Chain low high high (block a n) [] small l pos eight inside (omega arith) tt in
      record { chain = chain; sum = omega (arith, total) }
  release-Released low (next ∷ bs) l c = elim (Bool-cases (ltb next.addr a)) [
    | inl further ↦ rw further (release_after-Released low next bs c)
    | inr stop ↦ elim (Bool-cases (below_next a n (next ∷ bs))) [
      | inl room ↦
          let (chain, total) =
            join_next-Chain low high low (block a n) (next ∷ bs) small l pos eight inside c
              (NotAbove-of_below_next (next ∷ bs) room) in
          rw (stop, room) (record { chain = chain; sum = omega (arith, total) })
      | inr overlap ↦ rw (stop, overlap) tt
    ]
  ]

-- The outcomes of `freemem`: it refuses and changes nothing, or the heap is well formed and
-- `memlist.mlength` has grown by the rounded length.
abbrev pub Freed : Memory → ℕ → Bool × Memory → Type 0
Freed m n (false, m') = m' ≡ m
Freed m n (true, m') = IsHeap m' × (m'.total ≡ m.total + n)

-- `freemem` of a block that ends inside the heap keeps the heap well formed, and either refuses it,
-- changing nothing, or adds its rounded length to the free bytes.
pub freemem-Freed :
    (blkaddr nbytes : ℕ) (m : Memory)
    → blkaddr + roundmb nbytes ≤ suc m.maxheap
    → nbytes ≤ 2 ^ 32 - 8
    → IsHeap m
    → Freed m (roundmb nbytes) (freemem blkaddr nbytes m)
unfolding freemem
freemem-Freed blkaddr nbytes m inside small v =
    elim (Bool-cases ((nbytes == 0) || (ltb blkaddr m.minheap || ltb m.maxheap blkaddr))) [
      | inl refused ↦ rw (refused, freemem) refl
      | inr checked ↦
          let pos : 0 < nbytes = ground arith in
          let low : m.minheap - 1 < blkaddr = ground (arith, v.start) in
          let (_, _, eight, some_bytes) = roundmb_lem nbytes pos small in
          elim (Option-cases (release m.free blkaddr (roundmb nbytes))) [
            | inl overlap ↦ rw (checked, overlap, freemem) refl
            | inr (bs, done) ↦
                let r =
                  Ensures-some (Released (m.minheap - 1) (suc m.maxheap) (roundmb nbytes) m.free)
                    (release-Released (suc m.maxheap) (roundmb nbytes) blkaddr
                      (omega (arith, v.end)) some_bytes eight inside (m.minheap - 1) m.free low
                      v.chain)
                    done in
                let bound = sum_lengths-le (m.minheap - 1) (suc m.maxheap) bs r.chain in
                let total : add32 m.total (roundmb nbytes) ≡ m.total + roundmb nbytes =
                  omega (arith, r.sum, v.counted, v.end) in
                rw (checked, done, freemem)
                  (
                    record {
                      start = v.start;
                      end = v.end;
                      chain = r.chain;
                      counted = omega (arith, total, r.sum, v.counted);
                    },
                    total,
                  )
          ]
    ]
