-- ===== src/Kernel/Memory.antt =====
-- The heap of system/getmem.c, getstk.c and freemem.c. The free list is the list of its blocks in
-- order: the `mnext` fields of the blocks, from `memlist.mnext` to NULL. Addresses and lengths are
-- `uint32`. The heap does not begin at address 0, so `top == block` fails for the head of the list.
pub mod Allocate
pub mod Heap
pub mod Rejoin
pub mod Release
pub mod Roundtrip
pub mod Stack
mod Tests
use internetworking_nat_box.Base.{
  ℕ, zero, suc, ◌+◌, ◌-◌, ◌*◌, ◌/◌, ◌%◌, ◌^◌, ◌≤◌, ◌<◌, min, max, ◌≡◌, refl, sym, ap, ap₂, ◌∙◌, ◌≢◌,
  ◌↔◌, ◌⊎◌, inl, inr, Bool, true, false, not, ◌&&◌, ◌||◌, Option, none, some, List, [], ◌∷◌, ◌++◌,
  map, arith, ltb, leb, ◌==◌, if◌then◌else◌, ltb→lt, lt→ltb, le→ltb, ==_iff, Bool-cases,
  Option-cases, eq_of_some, ◌>>=◌, Ensures, Ensures-bind, Ensures-some, length, get_elem?, get_or,
  set, take, drop, replicate, All, length-append, length-set, length-replicate, get_elem?-set_self,
  get_elem?-set_ne, All-append, All-set, All-get, set-append_right, get_or-append_right, take-set,
  length-take, All-take, get_or-set_self, get_or-set_ne, All-mem, get_elem?-mem,
}

pub record Block : Type 0 where
  pub addr : ℕ
  pub mlength : ℕ

abbrev pub block : ℕ → ℕ → Block
block a n = record { addr = a; mlength = n }

-- `memlist.mlength`, the list behind it, and the bounds of the heap.
pub record Memory : Type 0 where
  pub free : List Block
  pub total : ℕ
  pub minheap : ℕ
  pub maxheap : ℕ

-- `roundmb(x)`, as a `uint32`.
abbrev pub roundmb : ℕ → ℕ
roundmb x = (7 + x) % 2 ^ 32 / 8 * 8

-- `memlist.mlength -= nbytes`.
abbrev pub sub32 : ℕ → ℕ → ℕ
sub32 a b = (a + 2 ^ 32 - b % 2 ^ 32) % 2 ^ 32

abbrev pub add32 : ℕ → ℕ → ℕ
add32 a b = (a + b) % 2 ^ 32

-- The search of `getmem`: the address of the first block that is long enough, and the list without
-- the part that is taken.
unfoldable pub first_fit : List Block → ℕ → Option (ℕ × List Block)
first_fit [] n = none
first_fit (b ∷ bs) n =
    let rest = first_fit bs n in
    if b.mlength == n
    then some (b.addr, bs)
    else if ltb n b.mlength
    then some (b.addr, block (add32 b.addr n) (b.mlength - n) ∷ bs)
    else rest >>= λ (a, bs'). some (a, b ∷ bs')

-- The address is `none` for SYSERR.
unfoldable pub getmem : ℕ → Memory → Option ℕ × Memory
getmem nbytes m = if nbytes == 0 then (none, m) else elim (first_fit m.free (roundmb nbytes)) [
  | none ↦ (none, m)
  | some (a, bs) ↦ (some a, record m { free = bs; total = sub32 m.total (roundmb nbytes) })
]

-- The search of `getstk` for the last block that is long enough, from whose top it takes `n` bytes.
unfoldable pub last_fit : List Block → ℕ → Option (ℕ × List Block)
last_fit [] n = none
last_fit (b ∷ bs) n = elim (last_fit bs n) [
  | some (a, bs') ↦ some (a, b ∷ bs')
  | none ↦
      if leb n b.mlength
      then (if n == b.mlength
          then some (b.addr, bs)
          else some (add32 b.addr (b.mlength - n), block b.addr (b.mlength - n) ∷ bs))
      else none
]

-- The result is the address of the highest word of the stack.
unfoldable pub getstk : ℕ → Memory → Option ℕ × Memory
getstk nbytes m = if nbytes == 0 then (none, m) else elim (last_fit m.free (roundmb nbytes)) [
  | none ↦ (none, m)
  | some (a, bs) ↦ (
    some ((a + roundmb nbytes + 2 ^ 32 - 4) % 2 ^ 32),
    record m { free = bs; total = sub32 m.total (roundmb nbytes) },
  )
]

-- `block` in front of `next`, joined with it if they touch.
unfoldable pub join_next : Block → List Block → List Block
join_next b [] = b ∷ []
join_next b (next ∷ bs) =
    if add32 b.addr b.mlength == next.addr
    then block b.addr (add32 b.mlength next.mlength) ∷ bs
    else b ∷ next ∷ bs

-- The new block does not reach into the next one.
abbrev pub below_next : ℕ → ℕ → List Block → Bool
below_next a n [] = true
below_next a n (next ∷ _) = not (ltb next.addr (add32 a n))

-- The walk of `freemem` behind the block `prev`, and what it does where the walk stops. `none` is an
-- overlap.
unfoldable pub release_after : Block → List Block → ℕ → ℕ → Option (List Block)
unfolding join_next
release_after prev [] a n =
    if ltb a (add32 prev.addr prev.mlength)
    then none
    else if add32 prev.addr prev.mlength == a
    then some (join_next (block prev.addr (add32 prev.mlength n)) [])
    else some (prev ∷ join_next (block a n) [])
release_after prev (next ∷ bs) a n =
    let further = release_after next bs a n in
    if ltb next.addr a
    then (further >>= λ bs'. some (prev ∷ bs'))
    else if ltb a (add32 prev.addr prev.mlength) || not (below_next a n (next ∷ bs))
    then none
    else if add32 prev.addr prev.mlength == a
    then some (join_next (block prev.addr (add32 prev.mlength n)) (next ∷ bs))
    else some (prev ∷ join_next (block a n) (next ∷ bs))

-- The walk from `memlist` on.
unfoldable pub release : List Block → ℕ → ℕ → Option (List Block)
release [] a n = some (join_next (block a n) [])
release (next ∷ bs) a n =
    if ltb next.addr a
    then release_after next bs a n
    else if not (below_next a n (next ∷ bs))
    then none
    else some (join_next (block a n) (next ∷ bs))

-- The flag is `true` for OK.
unfoldable pub freemem : ℕ → ℕ → Memory → Bool × Memory
freemem blkaddr nbytes m =
    if (nbytes == 0) || (ltb blkaddr m.minheap || ltb m.maxheap blkaddr)
    then (false, m)
    else elim (release m.free blkaddr (roundmb nbytes)) [
      | none ↦ (false, m)
      | some bs ↦ (true, record m { free = bs; total = add32 m.total (roundmb nbytes) })
    ]
