-- ===== src/Net/Fragment/Send.antt =====
-- Sending a datagram: `sendto`, `fragmentDatagram` and the end of `sendFragment` of net/sendto.c.
-- `past_if_tab` is what the code finds as the MAC of the interface 14, behind the interface table,
-- and `identif` the number that `getIdentif` draws. The buffer of a fragment is not returned.
use internetworking_nat_box.Base.{
  ℕ, suc, ◌+◌, Bool, Option, none, some, List, [], ◌∷◌, ◌++◌, ltb, if◌then◌else◌, ◌>>=◌, length,
  get_elem?, take,
}
use internetworking_nat_box.Net.Packet.{fill_ethernet, fill_ip_datagram}
use internetworking_nat_box.Net.NdCache.{NdEntry, NdCache, lookup_nd_entry}
use internetworking_nat_box.Net.Neighbor.{zero_packet}
use internetworking_nat_box.Net.Icmp.{Event, wrote, slept}
use internetworking_nat_box.Net.Fragment.{Datagram, Cut, cut_loop, max_length, fill_fragment}

-- The entry for the destination, or else for the source. (The call of the command `sendnsolicit`
-- between the two passes an address as the number of words, so the command prints its usage.)
unfoldable pub fragment_entry : NdCache → Datagram → Option NdEntry
fragment_entry cache datagram = elim (lookup_nd_entry cache datagram.headers.dest) [
  | some k ↦ get_elem? cache k
  | none ↦ lookup_nd_entry cache datagram.headers.src >>= λ k. get_elem? cache k
]

unfoldable pub send_fragment : List ℕ → NdCache → Datagram → ℕ → Cut → Option (List Event)
unfolding fragment_entry
send_fragment past_if_tab cache datagram identif c = fill_fragment datagram identif c >>= λ pkt.
    some (elim (fragment_entry cache datagram) [
      | none ↦ []
      | some e ↦ wrote (fill_ethernet e.mac_addr past_if_tab pkt) ∷ []
    ])

-- `cache i` is the cache at the `i`-th fragment: with the flag, a sleep follows each, in which other
-- threads run.
unfoldable pub send_cuts :
    List ℕ → (ℕ → NdCache) → ℕ → Datagram → ℕ → Bool → List Cut → Option (List Event)
unfolding send_fragment
send_cuts past_if_tab cache i datagram identif timeout_flag [] = some []
send_cuts past_if_tab cache i datagram identif timeout_flag (c ∷ cuts) =
    let rest = send_cuts past_if_tab cache (suc i) datagram identif timeout_flag cuts in
    send_fragment past_if_tab (cache i) datagram identif c >>= λ events.
    rest >>= λ later. some (events ++ ((if timeout_flag then slept 40 ∷ [] else []) ++ later))

unfoldable pub send_datagram :
    List ℕ → (ℕ → NdCache) → ℕ → ℕ → Datagram → Bool → Option (List Event)
unfolding send_cuts
send_datagram past_if_tab cache mtu identif datagram timeout_flag =
    if ltb mtu (40 + length datagram.payload)
    then (cut_loop 65537 (max_length mtu) (length datagram.payload) 0
        >>= send_cuts past_if_tab cache 0 datagram identif timeout_flag)
    else some []

-- `buf_len` is below 65536.
unfoldable pub sendto :
    List ℕ → (ℕ → NdCache) → ℕ → ℕ → List ℕ → List ℕ → ℕ → List ℕ → ℕ → Bool → Option (List Event)
unfolding send_datagram
sendto past_if_tab cache mtu identif link_local dest next_header buffer buf_len timeout_flag =
    let headers = fill_ip_datagram link_local dest buf_len next_header zero_packet in
    send_datagram past_if_tab cache mtu identif
      (record { headers = headers; payload = take buf_len buffer }) timeout_flag
