-- ===== src/Kernel/Memory/Rejoin.antt =====
-- The walk of `freemem` undoes the search of `getmem`.
use internetworking_nat_box.Base.{
  ℕ, ◌+◌, ◌-◌, ◌%◌, ◌^◌, ◌≤◌, ◌<◌, ◌≡◌, refl, ap, ◌∙◌, inl, inr, true, false, some, List, [], ◌∷◌,
  arith, ltb, ◌==◌, ltb→lt, lt→ltb, le→ltb, ==_iff, Bool-cases, ◌>>=◌, Ensures, Ensures-bind,
  Ensures-some,
}
use internetworking_nat_box.Kernel.Memory.{
  Block, block, add32, first_fit, join_next, below_next, release_after, release,
}
use internetworking_nat_box.Kernel.Memory.Heap.{Chain, Chain-le}
use internetworking_nat_box.Kernel.Memory.Allocate.{Fits, first_fit-Fits}

module _ (high n : ℕ) (small : high < 2 ^ 32) (pos : 0 < n) (eight : n % 8 ≡ 0) where
  -- A gap separates the block from the next one.
  join_next-apart :
      (b : Block) (bs : List Block)
      → b.addr + b.mlength < 2 ^ 32
      → Chain (b.addr + b.mlength) high bs
      → join_next b bs ≡ b ∷ bs
  unfolding join_next
  join_next-apart b [] h c = refl
  join_next-apart b (next ∷ bs) h c =
      let top : add32 b.addr b.mlength ≡ b.addr + b.mlength = omega arith in
      let apart : (add32 b.addr b.mlength == next.addr) ≡ false = ground arith in rw apart

  -- The two parts of a split block are one again.
  join_next-split :
      (b : Block) (bs : List Block)
      → n < b.mlength
      → b.addr + b.mlength < 2 ^ 32
      → join_next (block b.addr n) (block (add32 b.addr n) (b.mlength - n) ∷ bs) ≡ b ∷ bs
  unfolding join_next
  join_next-split b bs l h =
      let touch : (add32 b.addr n == add32 b.addr n) ≡ true = ground arith in
      let whole : add32 n (b.mlength - n) ≡ b.mlength = omega arith in rw (touch, whole)

  below_next_of_Chain :
      (a : ℕ) (bs : List Block) → a + n < 2 ^ 32 → Chain (a + n) high bs → below_next a n bs ≡ true
  below_next_of_Chain a [] h c = refl
  below_next_of_Chain a (next ∷ bs) h c = let sum : add32 a n ≡ a + n = omega arith in ground arith

  -- Nothing of the list lies below `a`.
  abbrev From : ℕ → List Block → Type 0
  From a [] = Unit
  From a (next ∷ bs) = a ≤ next.addr

  release_after-gap :
      (a : ℕ) (prev : Block) (bs : List Block)
      → prev.addr + prev.mlength < a
      → a < 2 ^ 32
      → From a bs
      → below_next a n bs ≡ true
      → release_after prev bs a n ≡ some (prev ∷ join_next (block a n) bs)
  unfolding release_after
  release_after-gap a prev [] l s f b =
      let top : add32 prev.addr prev.mlength ≡ prev.addr + prev.mlength = omega arith in
      let clear : ltb a (add32 prev.addr prev.mlength) ≡ false = ground arith in
      let apart : (add32 prev.addr prev.mlength == a) ≡ false = ground arith in rw (clear, apart)
  release_after-gap a prev (next ∷ bs) l s f b =
      let top : add32 prev.addr prev.mlength ≡ prev.addr + prev.mlength = omega arith in
      let stop : ltb next.addr a ≡ false = ground arith in
      let clear : ltb a (add32 prev.addr prev.mlength) ≡ false = ground arith in
      let apart : (add32 prev.addr prev.mlength == a) ≡ false = ground arith in
      rw (stop, clear, b, apart)

  -- How the first block that fits comes apart and is joined again.
  data Taken (b : Block) (bs : List Block) : ℕ → List Block → Type 0 where
    exact : b.mlength ≡ n → Taken b bs b.addr bs
    split : n < b.mlength → Taken b bs b.addr (block (add32 b.addr n) (b.mlength - n) ∷ bs)
    later : (a : ℕ) (bs' : List Block) → first_fit bs n ≡ some (a, bs') → Taken b bs a (b ∷ bs')

  first_fit-Taken :
      (b : Block) (bs : List Block) → Ensures (λ r. Taken b bs r.0 r.1) (first_fit (b ∷ bs) n)
  unfolding first_fit
  first_fit-Taken b bs = elim (Bool-cases (b.mlength == n)) [
    | inl same ↦ rw same (exact ((==_iff _ _).0 same))
    | inr other ↦ elim (Bool-cases (ltb n b.mlength)) [
      | inl longer ↦ rw (other, longer) (split (ltb→lt _ _ longer))
      | inr short ↦
          rw (other, short)
            (Ensures-bind (λ r. Taken b bs r.0 r.1) (first_fit bs n) _
              (λ (a, bs') e. later a bs' e))
    ]
  ]

  From-Chain : (a low : ℕ) (bs : List Block) → a ≤ low → Chain low high bs → From a bs
  From-Chain a low [] h c = tt
  From-Chain a low (next ∷ bs) h c = omega arith

  release_after-further :
      (prev b : Block) (bs : List Block) (a : ℕ)
      → b.addr < a
      → release_after prev (b ∷ bs) a n ≡ (release_after b bs a n >>= λ bs'. some (prev ∷ bs'))
  unfolding release_after
  release_after-further prev b bs a l = rw (lt→ltb b.addr a l)

  -- The first block comes back behind `prev`, given that a later one comes back behind it.
  rejoin_after :
      (prev b : Block) (bs : List Block) {a : ℕ} {bs' : List Block}
      → Chain (prev.addr + prev.mlength) high (b ∷ bs)
      → ((a : ℕ) (bs' : List Block)
          → first_fit bs n ≡ some (a, bs')
          → release_after b bs' a n ≡ some (b ∷ bs))
      → Taken b bs a bs'
      → release_after prev bs' a n ≡ some (prev ∷ b ∷ bs)
  rejoin_after prev b bs c ih (exact e) =
      let le = Chain-le (b.addr + b.mlength) high bs c.3 in
      let rest : Chain (b.addr + n) high bs = rw (← e) c.3 in
      release_after-gap b.addr prev bs c.0 (omega arith)
        (From-Chain b.addr (b.addr + b.mlength) bs (omega arith) c.3)
        (below_next_of_Chain b.addr bs (omega arith) rest)
      ∙ ap (λ l. some (prev ∷ l)) (rw (← e) (join_next-apart b bs (omega arith) c.3))
  rejoin_after prev b bs c ih (split l) =
      let le = Chain-le (b.addr + b.mlength) high bs c.3 in
      let sum : add32 b.addr n ≡ b.addr + n = omega arith in
      let room : below_next b.addr n (block (add32 b.addr n) (b.mlength - n) ∷ bs) ≡ true =
        ground arith in
      release_after-gap b.addr prev (block (add32 b.addr n) (b.mlength - n) ∷ bs) c.0 (omega arith)
        (omega arith) room
      ∙ ap (λ l. some (prev ∷ l)) (join_next-split b bs l (omega arith))
  rejoin_after prev b bs c ih (later a bs' e) =
      let f =
        Ensures-some (Fits (b.addr + b.mlength) high n bs)
          (first_fit-Fits (b.addr + b.mlength) high n bs small pos eight c.3) e in
      rw (release_after-further prev b bs' a (omega (arith, f.above)), ih a bs' e)

  release_after-first_fit :
      (prev : Block) (bs : List Block) (a : ℕ) (bs' : List Block)
      → Chain (prev.addr + prev.mlength) high bs
      → first_fit bs n ≡ some (a, bs')
      → release_after prev bs' a n ≡ some (prev ∷ bs)
  unfolding first_fit
  release_after-first_fit prev [] a bs' c e = cc
  release_after-first_fit prev (b ∷ bs) a bs' c e =
      rejoin_after prev b bs c (λ a bs' e. release_after-first_fit b bs a bs' c.3 e)
        (Ensures-some (λ r. Taken b bs r.0 r.1) (first_fit-Taken b bs) e)

  release-gap :
      (a : ℕ) (bs : List Block)
      → From a bs
      → below_next a n bs ≡ true
      → release bs a n ≡ some (join_next (block a n) bs)
  unfolding release
  release-gap a [] f b = refl
  release-gap a (next ∷ bs) f b = rw (le→ltb next.addr a f, b)

  release-further :
      (b : Block) (bs : List Block) (a : ℕ)
      → b.addr < a
      → release (b ∷ bs) a n ≡ release_after b bs a n
  unfolding release
  release-further b bs a l = rw (lt→ltb b.addr a l)

  rejoin :
      (low : ℕ) (b : Block) (bs : List Block) {a : ℕ} {bs' : List Block}
      → Chain low high (b ∷ bs)
      → Taken b bs a bs'
      → release bs' a n ≡ some (b ∷ bs)
  rejoin low b bs c (exact e) =
      let le = Chain-le (b.addr + b.mlength) high bs c.3 in
      let rest : Chain (b.addr + n) high bs = rw (← e) c.3 in
      release-gap b.addr bs (From-Chain b.addr (b.addr + b.mlength) bs (omega arith) c.3)
        (below_next_of_Chain b.addr bs (omega arith) rest)
      ∙ ap some (rw (← e) (join_next-apart b bs (omega arith) c.3))
  rejoin low b bs c (split l) =
      let le = Chain-le (b.addr + b.mlength) high bs c.3 in
      let sum : add32 b.addr n ≡ b.addr + n = omega arith in
      let room : below_next b.addr n (block (add32 b.addr n) (b.mlength - n) ∷ bs) ≡ true =
        ground arith in
      release-gap b.addr (block (add32 b.addr n) (b.mlength - n) ∷ bs) (omega arith) room
      ∙ ap some (join_next-split b bs l (omega arith))
  rejoin low b bs c (later a bs' e) =
      let f =
        Ensures-some (Fits (b.addr + b.mlength) high n bs)
          (first_fit-Fits (b.addr + b.mlength) high n bs small pos eight c.3) e in
      release-further b bs' a (omega (arith, f.above)) ∙ release_after-first_fit b bs a bs' c.3 e

  pub release-first_fit :
      (low : ℕ) (bs : List Block) {a : ℕ} {bs' : List Block}
      → Chain low high bs
      → first_fit bs n ≡ some (a, bs')
      → release bs' a n ≡ some bs
  unfolding first_fit
  release-first_fit low [] c e = cc
  release-first_fit low (b ∷ bs) c e =
      rejoin low b bs c (Ensures-some (λ r. Taken b bs r.0 r.1) (first_fit-Taken b bs) e)
