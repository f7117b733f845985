-- ===== src/Net/Input.antt =====
-- `ipv6_in` and `isItMine` of net/ipv6.c: what happens to each received packet.
pub mod Paths
use internetworking_nat_box.Base.{
  ℕ, zero, suc, ◌+◌, ◌-◌, ◌*◌, ◌/◌, ◌%◌, ◌^◌, ◌≤◌, ◌<◌, min, max, ◌≡◌, refl, sym, ap, ap₂, ◌∙◌, ◌≢◌,
  ◌↔◌, ◌⊎◌, inl, inr, Bool, true, false, not, ◌&&◌, ◌||◌, Option, none, some, List, [], ◌∷◌, ◌++◌,
  map, arith, ltb, leb, ◌==◌, if◌then◌else◌, ltb→lt, lt→ltb, le→ltb, ==_iff, Bool-cases,
  Option-cases, eq_of_some, ◌>>=◌, length, get_elem?, get_or, set, take, drop, replicate, All,
  length-append, length-set, length-replicate, get_elem?-set_self, get_elem?-set_ne, All-append,
  All-set, All-get, set-append_right, get_or-append_right, take-set, length-take, All-take,
  get_or-set_self, get_or-set_ne, All-mem, get_elem?-mem,
}
use internetworking_nat_box.Net.Bytes.{match}
use internetworking_nat_box.Net.Packet.{Packet, ipv6_icmp, ipv6_frag}
use internetworking_nat_box.Net.Nat.{NatState, inc_pkt_rw, out_pkt_rw}
use internetworking_nat_box.Net.Forward.{Globals, macucast, fwd_ip_datagram}
use internetworking_nat_box.Net.Icmp.{NetState, Event, wrote, fragment, freed, Outcome, icmpv6_in}

unfoldable pub is_it_mine : Globals → List ℕ → Bool
is_it_mine g dest =
    match dest g.ipv6_addr 16
    || (match dest g.link_local 16
        || (match dest g.snm_addr 16
            || (match dest g.allr_ip_multi 16 || match dest g.alln_ip_multi 16)))

unfoldable pub from_own_mac : Globals → Packet → Bool
from_own_mac g pkt = match pkt.net_src (macucast g g.ifprime) 6

-- `fwdIPDatagram`, then `freebuf`.
unfoldable pub forward : Globals → NetState → Packet → Option Outcome
forward g st pkt = fwd_ip_datagram g st.nat.fwd_tab st.nd_cache pkt >>= λ frame.
    some (st, wrote frame ∷ freed ∷ [])

-- A packet for another node, on a NAT box: translate, then forward.
unfoldable pub nat_and_forward : Globals → Packet → NetState → Option Outcome
nat_and_forward g pkt st =
    if pkt.net_iface == g.ifprime
    then (inc_pkt_rw st.nat.nat_tab pkt >>= λ (iface, back). elim iface [
      | none ↦ some (st, freed ∷ [])
      | some _ ↦ forward g st back
    ])
    else (out_pkt_rw g.ipv6_addr (pkt.net_iface % 256) pkt st.nat >>= λ (done, nat, out).
        let st' = record st { nat = nat } in
        if done then forward g st' out else some (st', freed ∷ []))

-- A packet for this node, by its next header, then `freebuf`.
unfoldable pub process : Globals → Packet → NetState → Option Outcome
process g pkt st =
    if pkt.next_header == ipv6_icmp
    then (icmpv6_in g pkt st >>= λ (st', events). some (st', events ++ (freed ∷ [])))
    else if pkt.next_header == ipv6_frag
    then some (st, fragment pkt ∷ freed ∷ [])
    else some (st, freed ∷ [])

-- A packet for this node: on a NAT box it may still belong to a translated session.
unfoldable pub local_in : Globals → Packet → NetState → Option Outcome
local_in g pkt st =
    if g.host
    then process g pkt st
    else inc_pkt_rw st.nat.nat_tab pkt >>= λ (iface, back). elim iface [
      | none ↦ process g pkt st
      | some _ ↦ forward g st back
    ]

unfoldable pub ipv6_in : Globals → Packet → NetState → Option Outcome
ipv6_in g pkt st =
    if from_own_mac g pkt
    then some (st, freed ∷ [])
    else if g.has_ipv6_addr && not (is_it_mine g pkt.dest)
    then (if g.host then forward g st pkt else nat_and_forward g pkt st)
    else local_in g pkt st
