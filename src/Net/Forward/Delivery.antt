-- ===== src/Net/Forward/Delivery.antt =====
-- Where `fwdIPDatagram` sends a packet.
use internetworking_nat_box.Base.{
  ℕ, ◌≡◌, refl, ap, ◌∙◌, ◌⊎◌, inl, inr, true, false, Option, none, some, List, get_elem?, take, All,
  Option-cases,
}
use native.Mathlib.Nat.{zero-add}
use internetworking_nat_box.Net.Bytes.{match}
use internetworking_nat_box.Net.Packet.{Packet, fill_ethernet}
use internetworking_nat_box.Net.Fwd.{FwdEntry, FwdTab}
use internetworking_nat_box.Net.Packet.Rewrite.{IsAddr}
use internetworking_nat_box.Net.Fwd.Sort.{IsSorted}
use internetworking_nat_box.Net.Fwd.Lookup.{Covers, IsWhole, IsLongest, get_next_hop-IsLongest}
use internetworking_nat_box.Net.NdCache.{NdEntry, NdCache, lookup_nd_entry}
use internetworking_nat_box.Net.NdCache.Laws.{IsFirst, lookup_nd_entry-IsFirst}
use internetworking_nat_box.Net.Forward.{Globals, choose_hop, fwd_ip_datagram}

-- On a sorted table whose prefixes are of whole bytes, the next hop and the interface are those of
-- the longest prefix that the destination has, bit by bit, and the default router's where it has
-- none of them.
pub choose_hop-IsLongest :
    (g : Globals) (tab : FwdTab) {ipdest : List ℕ}
    → IsAddr ipdest
    → All IsWhole tab
    → IsSorted tab
    → ((e : FwdEntry) × IsLongest tab ipdest e × (choose_hop g tab ipdest ≡ (e.next_hop, e.iface)))
      ⊎ (All (λ d. ¬ Covers ipdest d) tab
          × (choose_hop g tab ipdest ≡ (g.router_ip_addr, g.ifprime)))
unfolding choose_hop
choose_hop-IsLongest g tab dest ws s = elim (get_next_hop-IsLongest tab dest ws s) [
  | inl (i, e, got, at, l) ↦ inl (e, l, rw (got, choose_hop) (rw (at, choose_hop) refl))
  | inr (nothing, out) ↦ inr (out, rw (nothing, choose_hop) refl)
]

-- The run is not defined, and the cache has no entry for the address `hop` or the interface is not in
-- `if_tab`; or the packet goes out with the MAC of the first such entry as its destination and that
-- of `iface` as its source.
abbrev pub Forwarded : Globals → NdCache → Packet → List ℕ → ℕ → Option Packet → Type 0
Forwarded g cache pkt hop iface none =
    All (λ e. match hop e.ip_addr 16 ≡ false) cache ⊎ (get_elem? g.if_macucast iface ≡ none)
Forwarded g cache pkt hop iface (some frame) =
    (k : ℕ) × (e : NdEntry) × (mac : List ℕ) × (get_elem? cache k ≡ some e)
    × (get_elem? g.if_macucast iface ≡ some mac)
    × (match hop e.ip_addr 16 ≡ true)
    × All (λ d. match hop d.ip_addr 16 ≡ false) (take k cache)
    × (frame ≡ record pkt { net_dst = e.mac_addr; net_src = mac; net_type = 0x86DD })

-- The run of `fwdIPDatagram` is not defined exactly where the neighbour cache has no entry for the
-- next hop, whose NULL it reads, or the outgoing interface is not in `if_tab`. Otherwise it sends the
-- packet with the MAC of the first entry for the next hop as its destination and that of the outgoing
-- interface as its source, and changes nothing behind the Ethernet header.
pub fwd_ip_datagram-Forwarded :
    (g : Globals) (tab : FwdTab) (cache : NdCache) (pkt : Packet)
    → Forwarded g cache pkt
        (choose_hop g tab pkt.dest).0
        (choose_hop g tab pkt.dest).1
        (fwd_ip_datagram g tab cache pkt)
unfolding fwd_ip_datagram fill_ethernet
fwd_ip_datagram-Forwarded g tab cache pkt =
    go (lookup_nd_entry cache hop) refl (lookup_nd_entry-IsFirst cache hop)
  where
    hop : List ℕ
    hop = (choose_hop g tab pkt.dest).0

    go :
        (r : Option ℕ)
        → lookup_nd_entry cache hop ≡ r
        → IsFirst (λ e. match hop e.ip_addr 16) cache 0 r
        → Forwarded g cache pkt hop (choose_hop g tab pkt.dest).1 (fwd_ip_datagram g tab cache pkt)
    go none eq f = rw (eq, fwd_ip_datagram) (inl f)
    go (some j) eq (k, e, at, got, hit, before) =
        let found : lookup_nd_entry cache hop ≡ some k = eq ∙ ap some (at ∙ zero-add k) in
        elim (Option-cases (get_elem? g.if_macucast (choose_hop g tab pkt.dest).1)) [
          | inl outside ↦
              rw (found, fwd_ip_datagram) (rw (got, fwd_ip_datagram) (rw outside (inr outside)))
          | inr (mac, inside) ↦
              rw (found, fwd_ip_datagram)
                (rw (got, fwd_ip_datagram) (rw inside (k, e, mac, got, inside, hit, before, refl)))
        ]
