-- ===== src/Net/Tests.antt =====
-- Concrete addresses, packets and tables, at which the children apply the results of the packet path.
mod Sessions
mod Tables
mod Checksums
mod Fragments
mod Routers
use internetworking_nat_box.Base.{
  ◌+◌, ℕ, zero, suc, ◌%◌, ◌≤◌, ◌<◌, ◌≡◌, refl, sym, ◌↔◌, ◌⊎◌, Bool, true, false, none, some, List,
  [], ◌∷◌, arith, ltb, ◌==◌, if◌then◌else◌, Ensures, get_elem?, set, map, replicate, All,
  length-replicate,
}
use internetworking_nat_box.Net.Checksum.{write16, checksumv6, cksum_loop, fold_complement}
use internetworking_nat_box.Net.Checksum.Sum.{
  IsByte, sum_words, checksumv6_lem, checksumv6_diverges,
}
use internetworking_nat_box.Net.Checksum.Verify.{CarriesTwice, checksumv6-store}
use internetworking_nat_box.Net.Bytes.{match, byte_comp, byte_comp-eq-match}
use internetworking_nat_box.Net.Packet.{
  Packet, identifier, seq_number, make_pseudo_hdr, recompute_checksum,
}
use internetworking_nat_box.Net.Packet.Rewrite.{
  IsAddr, checked, summed, recompute_checksum-verifies,
}
use internetworking_nat_box.Net.Fwd.{
  FwdEntry, FwdTab, sort_fwd_tab, get_next_hop, insert_new_fwd_tab_entry, get_next_avail_fwd_index,
  fwdipv6_init,
}
use internetworking_nat_box.Net.Fwd.Sort.{IsSorted, sort_fwd_tab-IsSorted}
use internetworking_nat_box.Net.Fwd.Lookup.{Covers, IsWhole, IsLongest, get_next_hop-IsLongest}
use internetworking_nat_box.Net.Fwd.Insert.{
  IsFwdTab, insert_new_fwd_tab_entry-IsFwdTab, insert-get_next_hop, fwdipv6_init-IsFwdTab,
  insert_new_fwd_tab_entry_free, new_entry,
}
use internetworking_nat_box.Net.NdCache.{
  NdEntry, lookup_nd_entry, get_avail_nd_entry, nd_cache_init, nd_no_entry, nd_processing,
}
use internetworking_nat_box.Net.NdCache.Laws.{
  IsFirst, free_count, lookup_nd_entry-IsFirst, get_avail_nd_entry-cases,
}
use internetworking_nat_box.Net.Nat.{NatEntry, NatState, inc_pkt_rw, out_pkt_rw}
use internetworking_nat_box.Net.Nat.Invariant.{
  IsEcho, IsNat, translated, sent, out_pkt_rw-free, out_pkt_rw-overrun,
}
use internetworking_nat_box.Net.Nat.Roundtrip.{stop, inc_pkt_rw-out_pkt_rw, identifier-checked}
use internetworking_nat_box.Net.Nat.Safe
use internetworking_nat_box.Net.Forward.{Globals, choose_hop, fwd_ip_datagram}
use internetworking_nat_box.Net.Forward.Delivery.{
  Forwarded, choose_hop-IsLongest, fwd_ip_datagram-Forwarded,
}
use internetworking_nat_box.Net.Icmp.{NetState, icmpv6_in}
use internetworking_nat_box.Net.Icmp.Handlers.{IsSafe, Handled, icmpv6_in-Handled}
use internetworking_nat_box.Net.Input.{ipv6_in}
use internetworking_nat_box.Net.Input.Paths.{Finished, ipv6_in-Finished}
use mathlib.Core.List.{Perm}
use internetworking_nat_box.Net.Fragment.{Datagram, Cut, fragment_packet, fragment_datagram}
use internetworking_nat_box.Net.Fragment.Cuts.{Consecutive, fragment_datagram-Consecutive}
use internetworking_nat_box.Net.Reassembly.{ReassemblyEntry, ReassemblyState}
use internetworking_nat_box.Net.Reassembly.Session.{reassemble_all}
use internetworking_nat_box.Net.Reassembly.Roundtrip.{idle_state, reassemble_all-fragment_datagram}

abbrev pub below : List ℕ → Bool
below [] = true
below (b ∷ bs) = if ltb b 256 then below bs else false

pub IsByte-of_below : (bs : List ℕ) → below bs ≡ true → All IsByte bs
IsByte-of_below [] h = tt
IsByte-of_below (b ∷ bs) h = ground (arith, IsByte-of_below bs)

abbrev pub addr : ℕ → List ℕ
addr n = 32 ∷ 1 ∷ n ∷ replicate 13 0

abbrev pub inside_host : List ℕ
inside_host = addr 1

abbrev pub outside_host : List ℕ
outside_host = addr 2

abbrev pub box_addr : List ℕ
box_addr = addr 3

pub inside_host-IsAddr : IsAddr inside_host
inside_host-IsAddr = record { size = refl; bytes = IsByte-of_below inside_host refl }

pub outside_host-IsAddr : IsAddr outside_host
outside_host-IsAddr = record { size = refl; bytes = IsByte-of_below outside_host refl }

pub box_addr-IsAddr : IsAddr box_addr
box_addr-IsAddr = record { size = refl; bytes = IsByte-of_below box_addr refl }

abbrev pub echo_packet : List ℕ → List ℕ → List ℕ → ℕ → Packet
echo_packet src dest payload iface = record {
  net_dst = replicate 6 0;
  net_src = 2 ∷ replicate 5 0;
  net_type = 0x86DD;
  info = replicate 4 0;
  payload_len = 8;
  next_header = 0x3A;
  hop_limit = 255;
  src = src;
  dest = dest;
  payload = payload;
  net_iface = iface;
}

-- An echo request with the identifier 7, and the answer to its translation.
abbrev pub ping : Packet
ping = echo_packet inside_host outside_host (128 ∷ 0 ∷ 0 ∷ 0 ∷ 0 ∷ 7 ∷ 0 ∷ 1 ∷ []) 1

abbrev pub pong : Packet
pong = echo_packet outside_host box_addr (129 ∷ 0 ∷ 0 ∷ 0 ∷ 0 ∷ 0 ∷ 0 ∷ 1 ∷ []) 0

pub ping-IsEcho : IsEcho ping
ping-IsEcho = record {
  src = inside_host-IsAddr;
  dest = outside_host-IsAddr;
  bytes = IsByte-of_below ping.payload refl;
  header = omega arith;
}

pub pong-IsEcho : IsEcho pong
pong-IsEcho = record {
  src = outside_host-IsAddr;
  dest = box_addr-IsAddr;
  bytes = IsByte-of_below pong.payload refl;
  header = omega arith;
}

abbrev pub no_session : NatEntry
no_session = record {
  src = replicate 16 0;
  dest = replicate 16 0;
  iface = 0;
  src_id = 0;
  trans_id = 0;
}

abbrev pub fresh : NatState
fresh = record { nat_tab = replicate 30 no_session; nat_id_counter = 0; fwd_tab = fwdipv6_init }

abbrev pub counted_up : ℕ → NatState
counted_up n = record fresh { nat_id_counter = n }

pub fresh-IsNat : IsNat fresh
fresh-IsNat = record {
  size = length-replicate 30 no_session;
  counter = omega arith;
  numbered = tt;
  fwd = fwdipv6_init-IsFwdTab;
}

pub fresh-IsSafe : Safe.IsSafe fresh
fresh-IsSafe = record {
  size = length-replicate 30 no_session;
  counter = omega arith;
  numbered = tt;
  fwd = fwdipv6_init-IsFwdTab;
}

abbrev pub box : Globals
box = record {
  ipv6_addr = box_addr;
  link_local = addr 4;
  snm_addr = addr 5;
  allr_ip_multi = addr 6;
  alln_ip_multi = addr 7;
  router_ip_addr = addr 8;
  if_macucast = (1 ∷ replicate 5 0) ∷ (3 ∷ replicate 5 0) ∷ [];
  ifprime = 0;
  host = false;
  has_ipv6_addr = true;
}

abbrev pub start : NetState
start = record { nat = fresh; nd_cache = nd_cache_init }

pub start-IsSafe : IsSafe start
unfolding nd_cache_init
start-IsSafe = record { nat = fresh-IsSafe; cache = refl }

abbrev pub route : ℕ → ℕ → FwdEntry
route n prefix = record {
  ttl = 900;
  iface = n;
  prefix_len = prefix;
  ip_addr = addr n;
  next_hop = addr n;
}

abbrev pub routes : FwdTab
routes = route 2 24 ∷ route 1 16 ∷ route 0 0 ∷ []

route-IsWhole : (n prefix : ℕ) → n < 256 → prefix % 8 ≡ 0 → prefix ≤ 128 → IsWhole (route n prefix)
route-IsWhole n prefix small eight most = record {
  eight = eight;
  most = most;
  addr = record {
    size = refl;
    bytes = (omega arith, (omega arith, (small, IsByte-of_below (replicate 13 0) refl)));
  };
}

pub routes-IsWhole : All IsWhole routes
routes-IsWhole = (
  route-IsWhole 2 24 (omega arith) refl (omega arith),
  (
    route-IsWhole 1 16 (omega arith) refl (omega arith),
    (route-IsWhole 0 0 (omega arith) refl (omega arith), tt),
  ),
)

pub routes-IsSorted : IsSorted routes
routes-IsSorted = omega arith

pub fwdipv6_init-IsWhole : All IsWhole fwdipv6_init
unfolding fwdipv6_init
fwdipv6_init-IsWhole = IsWhole-replicate 30 (record {
  eight = refl;
  most = omega arith;
  addr = record { size = refl; bytes = IsByte-of_below (replicate 16 0) refl };
})
  where
    IsWhole-replicate : (n : ℕ) {e : FwdEntry} → IsWhole e → All IsWhole (replicate n e)
    IsWhole-replicate zero w = tt
    IsWhole-replicate (suc n) w = (w, IsWhole-replicate n w)
