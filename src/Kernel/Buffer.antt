-- ===== src/Kernel/Buffer.antt =====
-- Buffer pools: system/mkbufpool.c, getbuf.c, freebuf.c, bufinit.c. A free buffer's first word is
-- the address of the next free one, and a used buffer's the number of its pool; `word` gives that
-- word by the address. Addresses do not pass 2 ^ 32.
pub mod Free
use internetworking_nat_box.Base.{
  ℕ, zero, suc, ◌+◌, ◌-◌, ◌*◌, ◌/◌, ◌%◌, ◌^◌, ◌≤◌, ◌<◌, min, max, ◌≡◌, refl, sym, ap, ap₂, ◌∙◌, ◌≢◌,
  ◌↔◌, ◌⊎◌, inl, inr, Bool, true, false, not, ◌&&◌, ◌||◌, Option, none, some, List, [], ◌∷◌, ◌++◌,
  map, arith, ltb, leb, ◌==◌, if◌then◌else◌, ltb→lt, lt→ltb, le→ltb, ==_iff, Bool-cases,
  Option-cases, eq_of_some, ◌>>=◌, Ensures, Ensures-bind, Ensures-some, length, get_elem?, get_or,
  set, take, drop, replicate, All, length-append, length-set, length-replicate, get_elem?-set_self,
  get_elem?-set_ne, All-append, All-set, All-get, set-append_right, get_or-append_right, take-set,
  length-take, All-take, get_or-set_self, get_or-set_ne, All-mem, get_elem?-mem, bind-inv,
  take_append, drop_append, set-append_left, Ensures, Ensures-bind, Ensures-some, Succeeds,
  Succeeds-bind, take_all, take-take, take_all, drop_all, length-take_le, take-append_take-drop,
}
use internetworking_nat_box.Kernel.Memory.{Memory, getmem, freemem}
use internetworking_nat_box.Kernel.Queue.{upd}
use internetworking_nat_box.Kernel.Process.{System, Called}
use internetworking_nat_box.Kernel.Semaphore.{wait, signal, semcreate}

abbrev pub nbpools_max : ℕ
nbpools_max = 20

abbrev pub bp_maxb : ℕ
bp_maxb = 8192

abbrev pub bp_minb : ℕ
bp_minb = 8

abbrev pub bp_maxn : ℕ
bp_maxn = 2048

-- `buftab` in three arrays, `nbpools`, and what the calls change besides.
pub record Pools : Type 0 where
  pub bpnext : ℕ → ℕ
  pub bpsem : ℕ → ℕ
  pub bpsize : ℕ → ℕ
  pub nbpools : ℕ
  pub word : ℕ → ℕ
  pub memory : Memory
  pub system : System

unfoldable pub bufinit : Pools → Pools
bufinit p = record p { nbpools = 0 }

-- `left` more buffers follow the one at `buf`.
unfoldable pub link_buffers : (ℕ → ℕ) → ℕ → ℕ → ℕ → ℕ → ℕ
link_buffers word buf size zero = upd word buf 0
link_buffers word buf size (suc left) =
    link_buffers (upd word buf (buf + size)) (buf + size) size left

-- A size rounded up to whole words.
abbrev pub round_word : ℕ → ℕ
round_word bufsiz = (bufsiz + 3) / 4 * 4

-- The pool with the memory at `buf`, once the semaphore is there. `none` is SYSERR.
unfoldable pub fill_pool : ℕ → ℕ → ℕ → Pools → Option ℕ × Pools
unfolding link_buffers
fill_pool buf size numbufs p =
    let id = p.nbpools in
    let sized = record p { bpnext = upd p.bpnext id buf; bpsize = upd p.bpsize id size } in
    elim (semcreate numbufs p.system).0 [
      | none ↦ (
        none,
        record sized {
          system = (semcreate numbufs p.system).1;
          memory = (freemem buf (numbufs * (size + 4)) p.memory).1;
        },
      )
      | some sem ↦ (
        some id,
        record sized {
          system = (semcreate numbufs p.system).1;
          bpsem = upd p.bpsem id sem;
          nbpools = suc id;
          word = link_buffers p.word buf (size + 4) (numbufs - 1);
        },
      )
    ]

-- A negative number is above the bounds as a 32-bit pattern.
unfoldable pub mkbufpool : ℕ → ℕ → Pools → Option ℕ × Pools
unfolding fill_pool
mkbufpool bufsiz numbufs p =
    let size = round_word bufsiz in
    let bad_size = ltb bufsiz bp_minb || ltb bp_maxb bufsiz in
    let bad_number = ltb numbufs 1 || ltb bp_maxn numbufs in
    if bad_size || (bad_number || leb nbpools_max p.nbpools)
    then (none, p)
    else elim (getmem (numbufs * (size + 4)) p.memory).0 [
      | none ↦ (none, p)
      | some buf ↦
          fill_pool buf size numbufs
            (record p { memory = (getmem (numbufs * (size + 4)) p.memory).1 })
    ]

-- `getbuf` up to the context switch of its `wait`, if it blocks; `none` is SYSERR.
unfoldable pub getbuf_wait : ℕ → Pools → Option (Option Pools)
getbuf_wait poolid p =
    if leb p.nbpools poolid
    then some none
    else (wait (p.bpsem poolid) p.system >>= λ (_, after).
        some (some (record p { system = after })))

-- The rest of it: the address behind the buffer's first word.
unfoldable pub getbuf_take : ℕ → Pools → ℕ × Pools
getbuf_take poolid p =
    let buf = p.bpnext poolid in
    (buf + 4, record p { bpnext = upd p.bpnext poolid (p.word buf); word = upd p.word buf poolid })

-- The free list of the buffer's pool with the buffer in front.
unfoldable pub put_back : ℕ → ℕ → Pools → Pools
put_back poolid buf p = record p {
  word = upd p.word buf (p.bpnext poolid);
  bpnext = upd p.bpnext poolid buf;
}

-- The status, and the pools. As a whole, `none` is a call of the scheduler that does not end.
unfoldable pub freebuf : ℕ → Pools → Option (Bool × Pools)
unfolding put_back
freebuf bufaddr p =
    let buf = bufaddr - 4 in
    let poolid = p.word buf in
    if leb p.nbpools poolid
    then some (false, p)
    else (signal (p.bpsem poolid) p.system >>= λ (_, after).
        some (true, record (put_back poolid buf p) { system = after }))
