-- ===== src/Net/Neighbor.antt =====
-- Neighbour discovery: net/nsolicit.c and net/nadvert.c, with the option and header code that they
-- use. A message in the model is the list of its bytes behind the IPv6 header.
use internetworking_nat_box.Base.{
  ℕ, zero, suc, ◌+◌, ◌-◌, ◌*◌, ◌/◌, ◌%◌, ◌^◌, Bool, true, false, not, ◌&&◌, ◌||◌, Option, none,
  some, List, [], ◌∷◌, ◌++◌, ltb, leb, ◌==◌, if◌then◌else◌, ◌>>=◌, get_or, take, drop, replicate,
}
use internetworking_nat_box.Net.Bytes.{match}
use internetworking_nat_box.Net.Checksum.{cksum_valid_1buf}
use internetworking_nat_box.Net.Packet.{
  Packet, icmp_code, ipv6_icmp, make_pseudo_hdr, fill_ethernet, fill_ip_datagram,
  recompute_checksum,
}
use internetworking_nat_box.Net.Forward.{Globals, macucast}

abbrev pub neighbs : ℕ
neighbs = 0x87

abbrev pub neighba : ℕ
neighba = 0x88

-- `sizeof(struct nsolicit)` and `sizeof(struct nadvert)`.
abbrev pub nsolsize : ℕ
nsolsize = 24

-- A field in network order that is compared without `ntohs`, on a little-endian machine.
abbrev pub unswapped : ℕ → ℕ
unswapped v = v % 256 * 256 + v / 256

-- `opt_len` as an `int16`; a negative length ends the option loop as 0 does.
abbrev pub option_bytes : ℕ → ℕ → ℕ
option_bytes payload_len size = if ltb (payload_len - size) (2 ^ 15) then payload_len - size else 0

-- The option loop, which reads the same first option in every round. `none` is `return FALSE`, and
-- otherwise the result is `src_link_layer_opt`.
unfoldable pub option_loop : ℕ → List ℕ → ℕ → Bool → Option Bool
option_loop zero opt left src_link = some src_link
option_loop (suc rounds) opt left src_link =
    let rest =
      option_loop rounds opt (left - get_or opt 1 0 * 8)
        (if get_or opt 0 0 == 1 then true else src_link) in
    if left == 0 then some src_link else if get_or opt 1 0 == 0 then none else rest

-- The tests of both validators that do not look at the options.
abbrev header_valid : Packet → Bool
header_valid pkt =
    (pkt.hop_limit == 255) && ((icmp_code pkt.payload == 0) && leb 24 (unswapped pkt.payload_len))

-- The message is refused if `cksum_valid_1buf` holds.
abbrev checksum_passes : Packet → Option Bool
checksum_passes pkt =
    cksum_valid_1buf (make_pseudo_hdr pkt.src pkt.dest pkt.payload pkt.payload_len)
      (40 + pkt.payload_len)
    >>= λ valid. some (not valid)

unfoldable pub unspecified : List ℕ → Bool
unspecified src = match src (replicate 16 0) 16

-- As a whole, `none` stands for a checksum loop that does not end.
unfoldable pub nsolicit_valid : List ℕ → Packet → Option Bool
unfolding option_loop unspecified
nsolicit_valid snm_addr pkt =
    let left = option_bytes pkt.payload_len nsolsize in
    if not (header_valid pkt)
    then some false
    else elim (option_loop left (drop nsolsize pkt.payload) left false) [
      | none ↦ some false
      | some src_link ↦
          if unspecified pkt.src && (src_link || not (match pkt.dest snm_addr 16))
          then some false
          else checksum_passes pkt
    ]

unfoldable pub nadvert_valid : List ℕ → Packet → Option Bool
unfolding unspecified
nadvert_valid snm_addr pkt =
    if not (header_valid pkt)
    then some false
    else if unspecified pkt.src && not (match pkt.dest snm_addr 16)
    then some false
    else checksum_passes pkt

-- `getmac_sol` and `getmac_ad`: the address in the option behind the target.
unfoldable pub getmac : List ℕ → Option (List ℕ)
getmac msg = if get_or msg nsolsize 0 == 1 then some (take 6 (drop (nsolsize + 2) msg)) else none

abbrev pub target : List ℕ → List ℕ
target msg = take 16 (drop 8 msg)

-- The message of `sendNAD` and `sendNSOL` before its checksum: type, flags, target and the option
-- with the MAC of the primary interface.
unfoldable pub neighbor_message : ℕ → ℕ → List ℕ → List ℕ → List ℕ
neighbor_message type flags target mac =
    type ∷ 0 ∷ 0 ∷ 0 ∷ flags ∷ 0 ∷ 0 ∷ 0 ∷ target ++ (1 ∷ 1 ∷ mac)

-- A zeroed buffer.
abbrev pub zero_packet : Packet
zero_packet = record {
  net_dst = replicate 6 0;
  net_src = replicate 6 0;
  net_type = 0;
  info = replicate 4 0;
  payload_len = 0;
  next_header = 0;
  hop_limit = 0;
  src = replicate 16 0;
  dest = replicate 16 0;
  payload = [];
  net_iface = 0;
}

unfoldable pub send_neighbor :
    Globals → ℕ → ℕ → List ℕ → List ℕ → List ℕ → List ℕ → ℕ → Option Packet
send_neighbor g type flags ip_src mac_dest ip_dest target iface =
    recompute_checksum ip_src ip_dest 32 (neighbor_message type flags target (macucast g g.ifprime))
    >>= λ msg.
        some
          (record (fill_ip_datagram ip_src ip_dest 32 ipv6_icmp
            (fill_ethernet mac_dest (macucast g iface) zero_packet)) { payload = msg })

unfoldable pub send_nad : Globals → List ℕ → List ℕ → List ℕ → List ℕ → ℕ → Option Packet
unfolding send_neighbor
send_nad g ip_src mac_dest ip_dest target iface =
    send_neighbor g neighba 96 ip_src mac_dest ip_dest target iface

unfoldable pub send_nsol : Globals → List ℕ → List ℕ → List ℕ → List ℕ → ℕ → Option Packet
unfolding send_neighbor
send_nsol g ip_src mac_dest ip_dest target iface =
    send_neighbor g neighbs 0 ip_src mac_dest ip_dest target iface
