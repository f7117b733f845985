-- ===== src/Net/Forward.antt =====
-- `fwdIPDatagram` of net/fwdipv6.c and the globals of a configured box that the packet path reads.
pub mod Delivery
use internetworking_nat_box.Base.{
  ℕ, zero, suc, ◌+◌, ◌-◌, ◌*◌, ◌/◌, ◌%◌, ◌^◌, ◌≤◌, ◌<◌, min, max, ◌≡◌, refl, sym, ap, ap₂, ◌∙◌, ◌≢◌,
  ◌↔◌, ◌⊎◌, inl, inr, Bool, true, false, not, ◌&&◌, ◌||◌, Option, none, some, List, [], ◌∷◌, ◌++◌,
  map, arith, ltb, leb, ◌==◌, if◌then◌else◌, ltb→lt, lt→ltb, le→ltb, ==_iff, Bool-cases,
  Option-cases, eq_of_some, ◌>>=◌, length, get_elem?, get_or, set, take, drop, replicate, All,
  length-append, length-set, length-replicate, get_elem?-set_self, get_elem?-set_ne, All-append,
  All-set, All-get, set-append_right, get_or-append_right, take-set, length-take, All-take,
  get_or-set_self, get_or-set_ne, All-mem, get_elem?-mem,
}
use internetworking_nat_box.Net.Bytes.{match}
use internetworking_nat_box.Net.Packet.{Packet, fill_ethernet}
use internetworking_nat_box.Net.Fwd.{FwdEntry, FwdTab, get_next_hop}
use internetworking_nat_box.Net.NdCache.{NdEntry, NdCache, lookup_nd_entry}

-- The addresses that `ipv6_init` and the router advertisement set, and the interface table's MACs.
pub record Globals : Type 0 where
  pub ipv6_addr : List ℕ
  pub link_local : List ℕ
  pub snm_addr : List ℕ
  pub allr_ip_multi : List ℕ
  pub alln_ip_multi : List ℕ
  pub router_ip_addr : List ℕ
  pub if_macucast : List (List ℕ)
  pub ifprime : ℕ
  pub host : Bool
  pub has_ipv6_addr : Bool

abbrev pub macucast : Globals → ℕ → List ℕ
macucast g iface = get_or g.if_macucast iface []

-- Where a packet goes next: the address and the interface.
unfoldable pub choose_hop : Globals → FwdTab → List ℕ → List ℕ × ℕ
choose_hop g tab ipdest = elim (get_next_hop tab ipdest) [
  | none ↦ (g.router_ip_addr, g.ifprime)
  | some index ↦ elim (get_elem? tab index) [
    | none ↦ (g.router_ip_addr, g.ifprime)
    | some e ↦ (e.next_hop, e.iface)
  ]
]

-- The frame that is written to the device. `none` is a run that C does not define: the code prints
-- the MAC of the neighbour's entry before it tests the entry for NULL, and the interface indexes
-- `if_tab` without a test.
unfoldable pub fwd_ip_datagram : Globals → FwdTab → NdCache → Packet → Option Packet
fwd_ip_datagram g tab cache pkt =
    let (next_hop_ip, iface) = choose_hop g tab pkt.dest in
    elim (lookup_nd_entry cache next_hop_ip) [
      | none ↦ none
      | some k ↦ elim (get_elem? cache k) [
        | none ↦ none
        | some e ↦ get_elem? g.if_macucast iface >>= λ mac. some (fill_ethernet e.mac_addr mac pkt)
      ]
    ]
