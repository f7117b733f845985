-- ===== src/Net/Icmp.antt =====
-- ICMPv6 input: net/icmpv6.c and the handlers of net/nsolicit.c and net/nadvert.c. A handler
-- returns the tables after it and the events that it causes, in order. Router messages are events
-- too, whose handlers are in Net/Router/Receive. As a whole, `none` stands for a checksum loop that
-- does not end.
pub mod Answer
pub mod Echo
pub mod Handlers
pub mod Learn
use internetworking_nat_box.Base.{
  ℕ, zero, suc, ◌+◌, ◌-◌, ◌*◌, ◌/◌, ◌%◌, ◌^◌, ◌≤◌, ◌<◌, min, max, ◌≡◌, refl, sym, ap, ap₂, ◌∙◌, ◌≢◌,
  ◌↔◌, ◌⊎◌, inl, inr, Bool, true, false, not, ◌&&◌, ◌||◌, Option, none, some, List, [], ◌∷◌, ◌++◌,
  map, arith, ltb, leb, ◌==◌, if◌then◌else◌, ltb→lt, lt→ltb, le→ltb, ==_iff, Bool-cases,
  Option-cases, eq_of_some, ◌>>=◌, length, get_elem?, get_or, set, take, drop, replicate, All,
  length-append, length-set, length-replicate, get_elem?-set_self, get_elem?-set_ne, All-append,
  All-set, All-get, set-append_right, get_or-append_right, take-set, length-take, All-take,
  get_or-set_self, get_or-set_ne, All-mem, get_elem?-mem,
}
use internetworking_nat_box.Net.Packet.{
  Packet, icmp_type, identifier, seq_number, ipv6_icmp, fill_ethernet, fill_ip_datagram,
  recompute_checksum,
}
use internetworking_nat_box.Net.NdCache.{
  NdEntry, NdCache, lookup_nd_entry, get_avail_nd_entry, max_nd_ttl, nd_reachable,
}
use internetworking_nat_box.Net.Fwd.{insert_new_fwd_tab_entry}
use internetworking_nat_box.Net.Nat.{NatState}
use internetworking_nat_box.Net.Forward.{Globals, macucast}
use internetworking_nat_box.Net.Neighbor.{
  nsolicit_valid, nadvert_valid, getmac, target, zero_packet, send_nad, send_nsol, neighbs, neighba,
}

-- The tables that packets change.
pub record NetState : Type 0 where
  pub nat : NatState
  pub nd_cache : NdCache

-- `wrote` is a frame given to the device, `slept` a pause in seconds, `freed` the return of the
-- packet's buffer.
pub data Event : Type 0 where
  wrote : Packet → Event
  slept : ℕ → Event
  router_advert : Packet → Event
  router_solicit : Packet → Event
  fragment : Packet → Event
  freed : Event

abbrev pub Outcome : Type 0
Outcome = NetState × List Event

abbrev pub echoreq : ℕ
echoreq = 0x80

abbrev pub echoresp : ℕ
echoresp = 0x81

-- The reply of `sendEchoResp` before its checksum.
abbrev pub echo_response : ℕ → ℕ → List ℕ
echo_response identifier seq_number =
    echoresp
    ∷ 0
    ∷ 0
    ∷ 0
    ∷ (identifier / 256)
    ∷ (identifier % 256)
    ∷ (seq_number / 256)
    ∷ (seq_number % 256)
    ∷ []

unfoldable pub send_echo_resp : Globals → List ℕ → List ℕ → List ℕ → ℕ → ℕ → Option Packet
send_echo_resp g ip_src mac_dest ip_dest identifier seq_number =
    recompute_checksum ip_src ip_dest 8 (echo_response identifier seq_number) >>= λ msg.
    some
      (record (fill_ip_datagram ip_src ip_dest 8 ipv6_icmp
        (fill_ethernet mac_dest (macucast g g.ifprime) zero_packet)) { payload = msg })

-- `entry->ttl = MAXNDTTL`, `entry->state = NDREACHABLE`, and the MAC where the option gives one.
unfoldable pub refresh : Option (List ℕ) → NdEntry → NdEntry
refresh none e = record e { ttl = max_nd_ttl; state = nd_reachable }
refresh (some mac) e = record e { ttl = max_nd_ttl; state = nd_reachable; mac_addr = mac }

unfoldable pub update : NdCache → ℕ → (NdEntry → NdEntry) → NdCache
update [] i f = []
update (e ∷ cache) zero f = f e ∷ cache
update (e ∷ cache) (suc i) f = e ∷ update cache i f

unfoldable pub nadvert_handler : Packet → NdCache → NdCache
unfolding refresh update
nadvert_handler pkt cache = elim (lookup_nd_entry cache pkt.src) [
  | none ↦ cache
  | some k ↦ update cache k (refresh (getmac pkt.payload))
]

-- The entry for the sender: the one that exists, or a free one given its address. `none` is a full
-- cache; the flag is `exists`.
unfoldable pub claim_entry : Packet → NdCache → Option (ℕ × Bool × NdCache)
unfolding update
claim_entry pkt cache = elim (lookup_nd_entry cache pkt.src) [
  | some k ↦ some (k, true, cache)
  | none ↦ elim (get_avail_nd_entry cache).0 [
    | none ↦ none
    | some k ↦
        some (k, false, update (get_avail_nd_entry cache).1 k (λ e. record e { ip_addr = pkt.src }))
  ]
]

-- `entry->ipAddr`.
abbrev pub entry_addr : NdCache → ℕ → List ℕ
entry_addr cache k = elim (get_elem? cache k) [ none ↦ [] | some e ↦ e.ip_addr ]

-- The messages that answer a solicitation.
unfoldable pub answer : Globals → Packet → Bool → Option (List Event)
answer g pkt exists =
    send_nad g (target pkt.payload) pkt.net_src pkt.src (target pkt.payload) (pkt.net_iface % 256)
    >>= λ advert.
        if exists
        then some (wrote advert ∷ [])
        else send_nsol g pkt.dest pkt.net_src pkt.src pkt.src (pkt.net_iface % 256) >>= λ solicit.
            some (wrote advert ∷ slept 3 ∷ wrote solicit ∷ [])

unfoldable pub nsolicit_handler : Globals → Packet → NetState → Option Outcome
unfolding refresh update answer
nsolicit_handler g pkt st = elim (claim_entry pkt st.nd_cache) [
  | none ↦ some (st, [])
  | some (k, exists, cache) ↦
      let mac = getmac pkt.payload in
      let cached = update cache k (refresh mac) in
      elim mac [
        | none ↦ some (record st { nd_cache = cached }, [])
        | some _ ↦ answer g pkt exists >>= λ events. some (
          record st {
            nd_cache = cached;
            nat = record (st.nat) {
              fwd_tab =
                  (insert_new_fwd_tab_entry (entry_addr cached k) 128 (entry_addr cached k)
                    (pkt.net_iface % 256) st.nat.fwd_tab).1;
            };
          },
          events,
        )
      ]
]

-- The cases of `icmpv6_in` after the router messages.
unfoldable pub neighbor_in : Globals → Packet → NetState → Option Outcome
neighbor_in g pkt st =
    let type = icmp_type pkt.payload in
    if type == neighbs
    then (nsolicit_valid g.snm_addr pkt >>= λ valid.
        if valid then nsolicit_handler g pkt st else some (st, []))
    else if type == neighba
    then (nadvert_valid g.snm_addr pkt >>= λ valid.
        some (if valid then record st { nd_cache = nadvert_handler pkt st.nd_cache } else st, []))
    else if type == echoreq
    then (send_echo_resp g pkt.dest pkt.net_src pkt.src (identifier pkt.payload)
          (seq_number pkt.payload)
        >>= λ response. some (st, wrote response ∷ []))
    else some (st, [])

unfoldable pub icmpv6_in : Globals → Packet → NetState → Option Outcome
unfolding neighbor_in
icmpv6_in g pkt st =
    let type = icmp_type pkt.payload in
    if type == 0x86
    then some (st, router_advert pkt ∷ [])
    else if type == 0x85
    then some (st, if g.host then [] else router_solicit pkt ∷ [])
    else neighbor_in g pkt st
