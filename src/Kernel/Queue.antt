-- ===== src/Kernel/Queue.antt =====
-- The table of process queues: system/queue.c, getitem.c, insert.c, insertd.c, newqueue.c and
-- include/queue.h. The fields of `queuetab` are functions of the index. An index is the 16-bit
-- pattern of a `qid16` and a key the 32-bit pattern of an `int32`.
pub mod Bound
pub mod Chain
pub mod Splice
pub mod New
pub mod Represents
pub mod Run
pub mod Steps
mod Tests
pub mod Fifo
pub mod Priority
use internetworking_nat_box.Base.{
  ℕ, zero, suc, ◌+◌, ◌-◌, ◌*◌, ◌/◌, ◌%◌, ◌^◌, ◌≤◌, ◌<◌, min, max, ◌≡◌, refl, sym, ap, ap₂, ◌∙◌, ◌≢◌,
  ◌↔◌, ◌⊎◌, inl, inr, Bool, true, false, not, ◌&&◌, ◌||◌, Option, none, some, List, [], ◌∷◌, ◌++◌,
  map, arith, ltb, leb, ◌==◌, if◌then◌else◌, ltb→lt, lt→ltb, le→ltb, ==_iff, Bool-cases,
  Option-cases, eq_of_some, ◌>>=◌, Ensures, Ensures-bind, Ensures-some, length, get_elem?, get_or,
  set, take, drop, replicate, All, length-append, length-set, length-replicate, get_elem?-set_self,
  get_elem?-set_ne, All-append, All-set, All-get, set-append_right, get_or-append_right, take-set,
  length-take, All-take, get_or-set_self, get_or-set_ne, All-mem, get_elem?-mem, bind-inv,
  take_append, drop_append, set-append_left, Ensures, Ensures-bind, Ensures-some, Succeeds,
  Succeeds-bind, take_all, take-take, take_all, drop_all, length-take_le, take-append_take-drop,
}

abbrev pub nproc : ℕ
nproc = 100

abbrev pub nqent : ℕ
nqent = 304

-- -1 as a `qid16`.
abbrev pub empty : ℕ
empty = 0xFFFF

abbrev pub maxkey : ℕ
maxkey = 0x7FFFFFFF

abbrev pub minkey : ℕ
minkey = 0x80000000

pub record QueueTab : Type 0 where
  pub qkey : ℕ → ℕ
  pub qnext : ℕ → ℕ
  pub qprev : ℕ → ℕ

-- An assignment to one place of an array.
abbrev pub upd : (ℕ → ℕ) → ℕ → ℕ → ℕ → ℕ
upd f i v j = if i == j then v else f j

abbrev pub queuetail : ℕ → ℕ
queuetail q = suc q

abbrev pub firstid : QueueTab → ℕ → ℕ
firstid tab q = tab.qnext q

-- `firstid(q) >= NPROC` of signed numbers.
abbrev pub isempty : QueueTab → ℕ → Bool
isempty tab q = leb nproc (firstid tab q) && ltb (firstid tab q) (2 ^ 15)

abbrev pub isbadqid : ℕ → Bool
isbadqid q = ltb q nproc || leb (nqent - 1) q

-- `a <= b` of two `int32`.
abbrev pub sle : ℕ → ℕ → Bool
sle a b = leb ((a + 2 ^ 31) % 2 ^ 32) ((b + 2 ^ 31) % 2 ^ 32)

unfoldable pub getitem : QueueTab → ℕ → QueueTab
getitem tab pid = record tab {
  qnext = upd tab.qnext (tab.qprev pid) (tab.qnext pid);
  qprev = upd tab.qprev (tab.qnext pid) (tab.qprev pid);
}

-- The process that is removed, or `none` for EMPTY.
unfoldable pub getfirst : QueueTab → ℕ → Option ℕ × QueueTab
unfolding getitem
getfirst tab q =
    if isempty tab q then (none, tab) else (some (firstid tab q), getitem tab (firstid tab q))

unfoldable pub getlast : QueueTab → ℕ → Option ℕ × QueueTab
unfolding getitem
getlast tab q =
    if isempty tab q
    then (none, tab)
    else (some (tab.qprev (queuetail q)), getitem tab (tab.qprev (queuetail q)))

-- The four assignments with which `enqueue`, `insert` and `insertd` put a process between two nodes.
unfoldable pub link_in : QueueTab → ℕ → ℕ → ℕ → QueueTab
link_in tab prev pid next = record tab {
  qnext = upd (upd tab.qnext pid next) prev pid;
  qprev = upd (upd tab.qprev pid prev) next pid;
}

-- `none` is SYSERR; `bad` is `isbadpid`, which reads the process table.
unfoldable pub enqueue : (ℕ → Bool) → ℕ → ℕ → QueueTab → Option QueueTab
unfolding link_in
enqueue bad pid q tab =
    if isbadqid q || bad pid
    then none
    else some (link_in tab (tab.qprev (queuetail q)) pid (queuetail q))

-- The process's links are cleared.
abbrev pub clear_links : QueueTab → Option ℕ → QueueTab
clear_links tab none = tab
clear_links tab (some pid) = record tab {
  qnext = upd tab.qnext pid empty;
  qprev = upd tab.qprev pid empty;
}

-- `none` is SYSERR, and within a result EMPTY.
unfoldable pub dequeue : ℕ → QueueTab → Option (Option ℕ × QueueTab)
unfolding getfirst
dequeue q tab =
    let (first, rest) = getfirst tab q in
    if isbadqid q then none else some (first, clear_links rest first)

-- The first node whose key is below `key`. `none` is a run through all nodes of the table.
unfoldable pub find_below : ℕ → QueueTab → ℕ → ℕ → Option ℕ
find_below zero tab key curr = none
find_below (suc rounds) tab key curr =
    let rest = find_below rounds tab key (tab.qnext curr) in
    if sle key (tab.qkey curr) then rest else some curr

abbrev pub set_key : QueueTab → ℕ → ℕ → QueueTab
set_key tab pid key = record tab { qkey = upd tab.qkey pid key }

-- The outer `none` is a search that does not end, the inner one SYSERR.
unfoldable pub insert : (ℕ → Bool) → ℕ → ℕ → ℕ → QueueTab → Option (Option QueueTab)
unfolding find_below link_in
insert bad pid q key tab =
    if isbadqid q || bad pid
    then some none
    else (find_below nqent tab key (firstid tab q) >>= λ curr.
        some (some (set_key (link_in tab (tab.qprev curr) pid curr) pid key)))

-- The node of a delta list in front of which a process with this delay belongs, as the second
-- component, the node before that, and the delay after the delays before it.
unfoldable pub find_delay : ℕ → QueueTab → ℕ → ℕ → ℕ → ℕ → Option (ℕ × ℕ × ℕ)
find_delay zero tab tail key prev next = none
find_delay (suc rounds) tab tail key prev next =
    let rest =
      find_delay rounds tab tail ((key + (2 ^ 32 - tab.qkey next)) % 2 ^ 32) next
        (tab.qnext next) in
    if not (next == tail) && sle (tab.qkey next) key then rest else some (prev, next, key)

-- The delay of the node behind the new one falls by the new delay; a tail keeps its key.
abbrev pub shorten : QueueTab → ℕ → ℕ → ℕ → QueueTab
shorten tab tail next key =
    if next == tail then tab else set_key tab next ((tab.qkey next + (2 ^ 32 - key)) % 2 ^ 32)

unfoldable pub insertd : (ℕ → Bool) → ℕ → ℕ → ℕ → QueueTab → Option (Option QueueTab)
unfolding find_delay link_in
insertd bad pid q key tab =
    if isbadqid q || bad pid
    then some none
    else (find_delay nqent tab (queuetail q) key q (firstid tab q) >>= λ (prev, next, left).
        some
          (some (shorten (set_key (link_in tab prev pid next) pid left) (queuetail q) next left)))

-- The new queue and the table; `nextqid` counts up by 2. `none` is SYSERR.
unfoldable pub newqueue : ℕ → QueueTab → Option (ℕ × ℕ × QueueTab)
newqueue nextqid tab =
    if leb nqent nextqid
    then none
    else some (
      nextqid,
      nextqid + 2,
      record {
        qnext = upd (upd tab.qnext nextqid (queuetail nextqid)) (queuetail nextqid) empty;
        qprev = upd (upd tab.qprev nextqid empty) (queuetail nextqid) nextqid;
        qkey = upd (upd tab.qkey nextqid maxkey) (queuetail nextqid) minkey;
      },
    )
