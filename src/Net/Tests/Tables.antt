-- ===== src/Net/Tests/Tables.antt =====
-- The forwarding table and the neighbour cache at concrete entries.
use internetworking_nat_box.Base.{
  ℕ, suc, ◌≤◌, ◌≡◌, refl, ◌⊎◌, none, some, [], ◌∷◌, arith, get_elem?, set, replicate, All,
}
use internetworking_nat_box.Net.Bytes.{match}
use internetworking_nat_box.Net.Packet.{Packet, fill_ethernet}
use internetworking_nat_box.Net.Fwd.{
  FwdEntry, get_next_hop_from, sort_fwd_tab, get_next_hop, insert_new_fwd_tab_entry,
  get_next_avail_fwd_index, fwdipv6_init,
}
use internetworking_nat_box.Net.Fwd.Sort.{IsSorted, sort_fwd_tab-IsSorted}
use internetworking_nat_box.Net.Fwd.Lookup.{Covers, IsLongest, get_next_hop-IsLongest}
use internetworking_nat_box.Net.Fwd.Insert.{
  IsFwdTab, insert_new_fwd_tab_entry-IsFwdTab, insert-get_next_hop, fwdipv6_init-IsFwdTab,
  insert_new_fwd_tab_entry_free, new_entry,
}
use internetworking_nat_box.Net.NdCache.{
  NdEntry, NdCache, lookup_nd_entry, get_avail_nd_entry, nd_cache_init, nd_no_entry, nd_processing,
}
use internetworking_nat_box.Net.NdCache.Laws.{
  IsFirst, free_count, lookup_nd_entry-IsFirst, get_avail_nd_entry-cases,
}
use internetworking_nat_box.Net.Forward.{choose_hop, fwd_ip_datagram}
use internetworking_nat_box.Net.Forward.Delivery.{
  Forwarded, choose_hop-IsLongest, fwd_ip_datagram-Forwarded,
}
use mathlib.Core.List.{Perm}
use internetworking_nat_box.Net.Tests.{
  fwdipv6_init-IsWhole, addr, inside_host, outside_host, ping, box, route, routes, routes-IsSorted,
  routes-IsWhole, inside_host-IsAddr, outside_host-IsAddr,
}

get_next_hop-IsLongest_example :
    ((i : ℕ) × (e : FwdEntry) × (get_next_hop routes outside_host ≡ some i)
      × (get_elem? routes i ≡ some e)
      × IsLongest routes outside_host e)
    ⊎ ((get_next_hop routes outside_host ≡ none) × All (λ e. ¬ Covers outside_host e) routes)
get_next_hop-IsLongest_example =
    get_next_hop-IsLongest routes outside_host-IsAddr routes-IsWhole routes-IsSorted

choose_hop-IsLongest_example :
    ((e : FwdEntry) × IsLongest routes outside_host e
      × (choose_hop box routes outside_host ≡ (e.next_hop, e.iface)))
    ⊎ (All (λ d. ¬ Covers outside_host d) routes
        × (choose_hop box routes outside_host ≡ (addr 8, 0)))
choose_hop-IsLongest_example =
    choose_hop-IsLongest box routes outside_host-IsAddr routes-IsWhole routes-IsSorted

sort_fwd_tab-IsSorted_example :
    IsSorted (sort_fwd_tab (route 2 24 ∷ route 1 64 ∷ replicate 28 (route 0 0)))
    × Perm
        (sort_fwd_tab (route 2 24 ∷ route 1 64 ∷ replicate 28 (route 0 0)))
        (route 2 24 ∷ route 1 64 ∷ replicate 28 (route 0 0))
sort_fwd_tab-IsSorted_example =
    sort_fwd_tab-IsSorted (route 2 24 ∷ route 1 64 ∷ replicate 28 (route 0 0)) refl

insert_new_fwd_tab_entry-IsFwdTab_example :
    IsFwdTab (insert_new_fwd_tab_entry (addr 1) 64 (addr 2) 1 fwdipv6_init).1
insert_new_fwd_tab_entry-IsFwdTab_example =
    insert_new_fwd_tab_entry-IsFwdTab (addr 1) 64 (addr 2) 1 fwdipv6_init fwdipv6_init-IsFwdTab

first_free : get_next_avail_fwd_index fwdipv6_init ≡ some 0
unfolding get_next_avail_fwd_index fwdipv6_init
first_free = refl

insert-get_next_hop_example :
    let tab = sort_fwd_tab (set fwdipv6_init 0 (new_entry (addr 1) 64 (addr 2) 1)) in
    (i : ℕ) × (e : FwdEntry) × (get_next_hop tab inside_host ≡ some i)
    × (get_elem? tab i ≡ some e)
    × Covers inside_host e
    × (64 ≤ e.prefix_len)
insert-get_next_hop_example =
    insert-get_next_hop inside_host (addr 1) 64 (addr 2) 1 fwdipv6_init fwdipv6_init-IsFwdTab
      fwdipv6_init-IsWhole (record { eight = refl; most = omega arith; addr = inside_host-IsAddr })
      inside_host-IsAddr
      (insert_new_fwd_tab_entry_free (addr 1) 64 (addr 2) 1 fwdipv6_init first_free) (omega arith)
      (λ i l. refl)

lookup_nd_entry-IsFirst_example :
    IsFirst
      (λ e. match outside_host e.ip_addr 16)
      nd_cache_init
      0
      (lookup_nd_entry nd_cache_init outside_host)
lookup_nd_entry-IsFirst_example = lookup_nd_entry-IsFirst nd_cache_init outside_host

get_avail_nd_entry-cases_example :
    ((get_avail_nd_entry nd_cache_init ≡ (none, nd_cache_init)) × (free_count nd_cache_init ≡ 0))
    ⊎ ((i : ℕ) × (e : NdEntry) × (get_elem? nd_cache_init i ≡ some e)
        × (e.state ≡ nd_no_entry)
        × (get_avail_nd_entry nd_cache_init
            ≡ (some i, set nd_cache_init i (record e { state = nd_processing })))
        × (suc (free_count (get_avail_nd_entry nd_cache_init).1) ≡ free_count nd_cache_init))
get_avail_nd_entry-cases_example = get_avail_nd_entry-cases nd_cache_init

-- A packet to the inside host, whose MAC is known, goes out on interface 1.
abbrev back : Packet
back = record ping { dest = inside_host }

abbrev neighbors : NdCache
neighbors =
    record { ip_addr = inside_host; mac_addr = 2 ∷ replicate 5 0; ttl = 900; state = 2 } ∷ []

sent_back :
    fwd_ip_datagram box routes neighbors back
    ≡ some (record back { net_dst = 2 ∷ replicate 5 0; net_src = 3 ∷ replicate 5 0 })
unfolding fwd_ip_datagram choose_hop get_next_hop get_next_hop_from match lookup_nd_entry
    fill_ethernet
sent_back = refl

fwd_ip_datagram-Forwarded_example :
    Forwarded box neighbors back
      (choose_hop box routes inside_host).0
      (choose_hop box routes inside_host).1
      (fwd_ip_datagram box routes neighbors back)
fwd_ip_datagram-Forwarded_example = fwd_ip_datagram-Forwarded box routes neighbors back
