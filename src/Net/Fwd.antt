-- ===== src/Net/Fwd.antt =====
-- The forwarding table of net/fwdipv6.c. `fwdTabPTR` is the list of the entries that its pointers
-- lead to, in order: after `fwdipv6_init` the program reaches `fwdTab` through them alone, and
-- swaps pointers where the model swaps entries. `ttl` is an `int16` that is only compared with 0.
pub mod Insert
pub mod Lookup
pub mod Prefix
pub mod Sort
use internetworking_nat_box.Base.{
  ℕ, zero, suc, ◌+◌, ◌-◌, ◌*◌, ◌/◌, ◌%◌, ◌^◌, ◌≤◌, ◌<◌, min, max, ◌≡◌, refl, sym, ap, ap₂, ◌∙◌, ◌≢◌,
  ◌↔◌, ◌⊎◌, inl, inr, Bool, true, false, not, ◌&&◌, ◌||◌, Option, none, some, List, [], ◌∷◌, ◌++◌,
  map, arith, ltb, leb, ◌==◌, if◌then◌else◌, ltb→lt, lt→ltb, le→ltb, ==_iff, Bool-cases,
  Option-cases, eq_of_some, ◌>>=◌, length, get_elem?, get_or, set, take, drop, replicate, All,
  length-append, length-set, length-replicate, get_elem?-set_self, get_elem?-set_ne, All-append,
  All-set, All-get,
}
use internetworking_nat_box.Net.Bytes.{match}

pub record FwdEntry : Type 0 where
  pub ttl : ℕ
  pub iface : ℕ
  pub prefix_len : ℕ
  pub ip_addr : List ℕ
  pub next_hop : List ℕ

abbrev pub FwdTab : Type 0
FwdTab = List FwdEntry

abbrev pub max_fwd_tab_entries : ℕ
max_fwd_tab_entries = 30

abbrev pub fwd_max_ttl : ℕ
fwd_max_ttl = 900

-- `none` is the result -1.
unfoldable pub get_next_hop_from : FwdTab → List ℕ → ℕ → Option ℕ
get_next_hop_from [] ipdest i = none
get_next_hop_from (e ∷ tab) ipdest i =
    let rest = get_next_hop_from tab ipdest (i + 1) in
    if e.prefix_len == 0
    then none
    else if match ipdest e.ip_addr (e.prefix_len / 8)
    then some i
    else rest

unfoldable pub get_next_hop : FwdTab → List ℕ → Option ℕ
unfolding get_next_hop_from
get_next_hop tab ipdest = get_next_hop_from tab ipdest 0

get_avail_from : FwdTab → ℕ → Option ℕ
get_avail_from [] i = none
get_avail_from (e ∷ tab) i =
    let rest = get_avail_from tab (i + 1) in if e.ttl == 0 then some i else rest

unfoldable pub get_next_avail_fwd_index : FwdTab → Option ℕ
unfolding get_avail_from
get_next_avail_fwd_index tab = get_avail_from tab 0

-- The inner loop of `sortFwdTab`: `n` comparisons of neighbours from the front on.
bubble : ℕ → FwdTab → FwdTab
bubble zero tab = tab
bubble (suc n) [] = []
bubble (suc n) (a ∷ []) = a ∷ []
bubble (suc n) (a ∷ b ∷ tab) =
    let swap = ltb a.prefix_len b.prefix_len in
    (if swap then b else a) ∷ bubble n ((if swap then a else b) ∷ tab)

-- The outer loop: passes of `n`, `n - 1`, ... comparisons.
bubble_passes : ℕ → FwdTab → FwdTab
bubble_passes zero tab = tab
bubble_passes (suc n) tab = bubble_passes n (bubble (suc n) tab)

unfoldable pub sort_fwd_tab : FwdTab → FwdTab
unfolding bubble bubble_passes
sort_fwd_tab tab = bubble_passes (max_fwd_tab_entries - 1) tab

-- The result is whether an entry was added (1, or -1 for a full table).
unfoldable pub insert_new_fwd_tab_entry : List ℕ → ℕ → List ℕ → ℕ → FwdTab → Bool × FwdTab
insert_new_fwd_tab_entry addr prefix next interface tab = elim (get_next_avail_fwd_index tab) [
  | none ↦ (false, tab)
  | some index ↦ (
    true,
    sort_fwd_tab (
        set tab index (record {
          ttl = fwd_max_ttl;
          iface = interface;
          prefix_len = prefix;
          ip_addr = addr;
          next_hop = next;
        })),
  )
]

-- `fwdTab` is zero when the program starts.
unfoldable pub fwdipv6_init : FwdTab
fwdipv6_init = replicate max_fwd_tab_entries (record {
  ttl = 0;
  iface = 0;
  prefix_len = 0;
  ip_addr = replicate 16 0;
  next_hop = replicate 16 0;
})
