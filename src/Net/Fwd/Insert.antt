-- ===== src/Net/Fwd/Insert.antt =====
-- `insertNewFwdTabEntry` keeps the table sorted and makes its destination reachable.
use internetworking_nat_box.Base.{
  ℕ, zero, suc, ◌+◌, ◌≤◌, ◌<◌, ◌≡◌, refl, sym, ap, ◌∙◌, ◌≢◌, inl, inr, true, false, none, some,
  List, [], ◌∷◌, arith, Option-cases, length, get_elem?, set, replicate, length-set,
  get_elem?-set_self, get_elem?-mem, All, All-set,
}
use mathlib.Core.List.Perm
use mathlib.Core.Path.{subst}
use internetworking_nat_box.Net.Packet.Rewrite.{IsAddr}
use internetworking_nat_box.Net.Fwd.Prefix.{SamePrefix}
use internetworking_nat_box.Net.Fwd.{
  fwdipv6_init, FwdEntry, FwdTab, get_avail_from, get_next_avail_fwd_index,
  insert_new_fwd_tab_entry, sort_fwd_tab, get_next_hop, fwdipv6_init,
}
use internetworking_nat_box.Net.Fwd.Sort.{
  NoLonger, IsSorted, sort_fwd_tab-IsSorted, length-sort_fwd_tab, All-sort_fwd_tab,
}
use internetworking_nat_box.Net.Fwd.Lookup.{Covers, IsWhole, get_next_hop-some}

-- The table as every operation leaves it.
pub record IsFwdTab (tab : FwdTab) : Type 0 where
  pub size : length tab ≡ 30
  pub sorted : IsSorted tab

get_avail_from-lt :
    (tab : FwdTab) (i : ℕ) {j : ℕ} → get_avail_from tab i ≡ some j → (i ≤ j) × (j < i + length tab)
unfolding get_avail_from
get_avail_from-lt [] i h = cc
get_avail_from-lt (e ∷ tab) i {j} h = ground (arith, get_avail_from-lt tab (i + 1) {j = j})

-- The index is inside the table.
pub get_next_avail_fwd_index-lt :
    (tab : FwdTab) {j : ℕ} → get_next_avail_fwd_index tab ≡ some j → j < length tab
unfolding get_next_avail_fwd_index
get_next_avail_fwd_index-lt tab h = omega (arith, get_avail_from-lt tab 0 h)

abbrev pub new_entry : List ℕ → ℕ → List ℕ → ℕ → FwdEntry
new_entry addr prefix next interface = record {
  ttl = 900;
  iface = interface;
  prefix_len = prefix;
  ip_addr = addr;
  next_hop = next;
}

-- Both outcomes of an insertion: a full table stays as it is, and otherwise the first free entry
-- is overwritten and the table sorted.
pub insert_new_fwd_tab_entry_full :
    (addr : List ℕ) (prefix : ℕ) (next : List ℕ) (interface : ℕ) (tab : FwdTab)
    → get_next_avail_fwd_index tab ≡ none
    → insert_new_fwd_tab_entry addr prefix next interface tab ≡ (false, tab)
unfolding insert_new_fwd_tab_entry
insert_new_fwd_tab_entry_full addr prefix next interface tab h = rw (h, insert_new_fwd_tab_entry)

pub insert_new_fwd_tab_entry_free :
    (addr : List ℕ) (prefix : ℕ) (next : List ℕ) (interface : ℕ) (tab : FwdTab) {j : ℕ}
    → get_next_avail_fwd_index tab ≡ some j
    → insert_new_fwd_tab_entry addr prefix next interface tab
      ≡ (true, sort_fwd_tab (set tab j (new_entry addr prefix next interface)))
unfolding insert_new_fwd_tab_entry
insert_new_fwd_tab_entry_free addr prefix next interface tab h = rw (h, insert_new_fwd_tab_entry)

-- `insertNewFwdTabEntry` keeps the table sorted and of its size.
pub insert_new_fwd_tab_entry-IsFwdTab :
    (addr : List ℕ) (prefix : ℕ) (next : List ℕ) (interface : ℕ) (tab : FwdTab)
    → IsFwdTab tab
    → IsFwdTab (insert_new_fwd_tab_entry addr prefix next interface tab).1
insert_new_fwd_tab_entry-IsFwdTab addr prefix next interface tab v =
    elim (Option-cases (get_next_avail_fwd_index tab)) [
      | inl full ↦ rw (insert_new_fwd_tab_entry_full addr prefix next interface tab full) v
      | inr (j, free) ↦ rw (insert_new_fwd_tab_entry_free addr prefix next interface tab free) (
          let new = set tab j (new_entry addr prefix next interface) in
          let size : length new ≡ 30 =
            length-set tab j (new_entry addr prefix next interface) ∙ v.size in
          record {
            size = length-sort_fwd_tab new ∙ size;
            sorted = (sort_fwd_tab-IsSorted new size).0;
          })
    ]

-- After a successful insertion into a table of prefixes of whole bytes of one more, `getNextHop`
-- finds for each destination with that prefix an entry whose prefix is the destination's, bit by bit,
-- and at least as long.
pub insert-get_next_hop :
    (ipdest addr : List ℕ) (prefix : ℕ) (next : List ℕ) (interface : ℕ) (tab : FwdTab)
    {tab' : FwdTab}
    → IsFwdTab tab
    → All IsWhole tab
    → IsWhole (new_entry addr prefix next interface)
    → IsAddr ipdest
    → insert_new_fwd_tab_entry addr prefix next interface tab ≡ (true, tab')
    → prefix ≢ 0
    → SamePrefix prefix ipdest addr
    → (i : ℕ) × (e : FwdEntry) × (get_next_hop tab' ipdest ≡ some i)
      × (get_elem? tab' i ≡ some e)
      × Covers ipdest e
      × (prefix ≤ e.prefix_len)
insert-get_next_hop ipdest addr prefix next interface tab {tab'} v ws w dest done ne hit =
    elim (Option-cases (get_next_avail_fwd_index tab)) [
      | inl full ↦ cc (insert_new_fwd_tab_entry_full addr prefix next interface tab full)
      | inr (j, free) ↦
          let new = set tab j (new_entry addr prefix next interface) in
          let size : length new ≡ 30 =
            length-set tab j (new_entry addr prefix next interface) ∙ v.size in
          let sorted = sort_fwd_tab-IsSorted new size in
          let same : sort_fwd_tab new ≡ tab' =
            ap (λ p. p.1)
              (sym (insert_new_fwd_tab_entry_free addr prefix next interface tab free) ∙ done) in
          let stored : get_elem? new j ≡ some (new_entry addr prefix next interface) =
            get_elem?-set_self tab j _ (get_next_avail_fwd_index-lt tab free) in
          subst
            (λ t.
              (i : ℕ) × (e : FwdEntry) × (get_next_hop t ipdest ≡ some i)
              × (get_elem? t i ≡ some e)
              × Covers ipdest e
              × (prefix ≤ e.prefix_len))
            same
            (get_next_hop-some (sort_fwd_tab new) dest
              (All-sort_fwd_tab IsWhole new
                (All-set IsWhole tab j (new_entry addr prefix next interface) ws w))
              sorted.0 ((Perm.mem_iff sorted.1).1 (get_elem?-mem new j stored)) (ne, hit))
    ]

NoLonger-replicate : (n m : ℕ) (e : FwdEntry) → e.prefix_len ≤ m → NoLonger m (replicate n e)
NoLonger-replicate zero m e h = tt
NoLonger-replicate (suc n) m e h = (h, NoLonger-replicate n m e h)

IsSorted-replicate : (n : ℕ) (e : FwdEntry) → IsSorted (replicate n e)
IsSorted-replicate zero e = tt
IsSorted-replicate (suc n) e =
    (NoLonger-replicate n e.prefix_len e (omega arith), IsSorted-replicate n e)

abbrev unused : FwdEntry
unused = record {
  ttl = 0;
  iface = 0;
  prefix_len = 0;
  ip_addr = replicate 16 0;
  next_hop = replicate 16 0;
}

-- The table that `fwdipv6_init` leaves is well formed.
pub fwdipv6_init-IsFwdTab : IsFwdTab fwdipv6_init
unfolding fwdipv6_init
fwdipv6_init-IsFwdTab = record { size = refl; sorted = IsSorted-replicate 30 unused }
