-- ===== src/Net/Router/Send.antt =====
-- `sendipv6pkt` and `fillICMP` of net/sendipv6pkt.c, with the validators of net/radvert.c and
-- net/rsolicit.c that the router messages pass before they are sent. As a whole, `none` stands for a
-- checksum loop that does not end and for a type that the switch does not know; within a result,
-- `none` is a message that was refused, and not sent.
use internetworking_nat_box.Base.{
  ℕ, ◌+◌, ◌/◌, ◌%◌, Bool, true, false, not, ◌&&◌, Option, none, some, List, [], ◌∷◌, ◌++◌, leb,
  ◌==◌, if◌then◌else◌, ◌>>=◌, length, take, drop, replicate,
}
use internetworking_nat_box.Net.Checksum.{cksum_valid}
use internetworking_nat_box.Net.Packet.{
  Packet, icmp_code, ipv6_icmp, fill_ethernet, fill_ip_datagram, recompute_checksum,
}
use internetworking_nat_box.Net.Fragment.{packlen}
use internetworking_nat_box.Net.Forward.{Globals, macucast}
use internetworking_nat_box.Net.Neighbor.{
  neighbs, neighba, unswapped, option_bytes, option_loop, unspecified, nsolicit_valid,
  nadvert_valid, neighbor_message, zero_packet,
}
use internetworking_nat_box.Net.Icmp.{echoreq}
use internetworking_nat_box.Net.Router.{Router, Config}

abbrev pub routers : ℕ
routers = 0x85

abbrev pub routera : ℕ
routera = 0x86

-- `fill_option_one` and `fill_option_MTU`. The prefix option is the one that was heard.
abbrev pub fill_option_one : List ℕ → List ℕ
fill_option_one mac = 1 ∷ 1 ∷ mac

abbrev pub fill_option_mtu : ℕ → List ℕ
fill_option_mtu mtu = 5 ∷ 1 ∷ 0 ∷ 0 ∷ 0 ∷ 0 ∷ (mtu / 256 % 256) ∷ (mtu % 256) ∷ []

-- The option that a type stands for.
unfoldable pub fill_option : Router → List ℕ → ℕ → Option (List ℕ)
fill_option r mac type =
    if type == 1
    then some (fill_option_one mac)
    else if type == 5
    then some (fill_option_mtu r.mtu)
    else if type == 3
    then some r.option_prefix_default
    else none

-- `fillOptions` into a zeroed buffer: a type that it does not know moves on by the length of the
-- option before.
unfoldable pub fill_options : Router → List ℕ → List ℕ → ℕ → List ℕ
unfolding fill_option
fill_options r mac [] before = []
fill_options r mac (type ∷ types) before = elim (fill_option r mac type) [
  | none ↦ replicate before 0 ++ fill_options r mac types before
  | some option ↦ option ++ fill_options r mac types (length option)
]

-- Whether the options that are written from the offset `at` of a packet on end inside its buffer.
unfoldable pub options_fit : Router → List ℕ → List ℕ → ℕ → ℕ → Bool
unfolding fill_option
options_fit r mac [] before at = true
options_fit r mac (type ∷ types) before at = elim (fill_option r mac type) [
  | none ↦ options_fit r mac types before (at + before)
  | some option ↦
      leb (at + length option) packlen
      && options_fit r mac types (length option) (at + length option)
]

-- The pseudo header of both validators: 40 bytes, the payload length in two of them.
unfoldable pub short_pseudo_hdr : Packet → List ℕ
short_pseudo_hdr pkt =
    pkt.src
    ++ (pkt.dest
        ++ (0
            ∷ 0
            ∷ (pkt.payload_len / 256)
            ∷ (pkt.payload_len % 256)
            ∷ 0
            ∷ 0
            ∷ 0
            ∷ pkt.next_header
            ∷ []))

-- The validators write that header `start` bytes behind the message's first byte, over the message
-- where it reaches so far. Where it begins behind the message, the message stays; for what is hit
-- there, see `Layout` of Net/Router/Receive.
unfoldable pub write_header : ℕ → List ℕ → List ℕ → List ℕ
write_header start header msg =
    if leb start (length msg) then take start msg ++ (header ++ drop (start + 40) msg) else msg

-- The verdict, and the message as the validator leaves it. The start is `payload_len` without
-- `ntohs`.
unfoldable pub radvert_valid : Packet → Option (Bool × List ℕ)
unfolding short_pseudo_hdr write_header
radvert_valid pkt =
    let header = short_pseudo_hdr pkt in
    let msg = write_header (unswapped pkt.payload_len) header pkt.payload in
    cksum_valid header msg pkt.payload_len 40 >>= λ valid. some (valid, msg)

-- `sizeof(struct rsolicit)`.
abbrev pub rsolsize : ℕ
rsolsize = 8

-- `sizeof(msg)` is the size of a pointer, so the header is written over the message.
unfoldable pub rsolicit_checked : Packet → Option (Bool × List ℕ)
unfolding short_pseudo_hdr write_header
rsolicit_checked pkt =
    let header = short_pseudo_hdr pkt in
    let msg = write_header 4 header pkt.payload in
    cksum_valid header msg pkt.payload_len 40 >>= λ valid. some (valid, msg)

unfoldable pub rsolicit_valid : Packet → Option (Bool × List ℕ)
unfolding rsolicit_checked
rsolicit_valid pkt =
    let left = option_bytes pkt.payload_len rsolsize in
    let refused = some (false, pkt.payload) in
    if not (
      (pkt.hop_limit == 255) && ((icmp_code pkt.payload == 0) && leb 8 (unswapped pkt.payload_len)))
    then refused
    else elim (option_loop left (drop rsolsize pkt.payload) left false) [
      | none ↦ refused
      | some src_link ↦ if unspecified pkt.src && src_link then refused else rsolicit_checked pkt
    ]

-- A packet of `sendipv6pkt` whose message `fillICMP` gives its checksum.
unfoldable pub fill_icmp : Globals → List ℕ → List ℕ → List ℕ → ℕ → List ℕ → ℕ → Option Packet
fill_icmp g link_dest src_ip dest_ip size msg iface =
    recompute_checksum src_ip dest_ip size msg >>= λ sent.
    some
      (record (fill_ip_datagram src_ip dest_ip size ipv6_icmp
        (fill_ethernet link_dest (macucast g iface) zero_packet)) { payload = sent })

-- The packet goes out as the validator leaves it.
unfoldable pub send_checked : Packet → Option (Bool × List ℕ) → Option (Option Packet)
send_checked pkt verdict = verdict >>= λ (valid, msg).
    some (if valid then some (record pkt { payload = take pkt.payload_len msg }) else none)

unfoldable pub send_router_solicit : Config → List ℕ → ℕ → Option (Option Packet)
unfolding fill_icmp send_checked
send_router_solicit cfg link_dest iface =
    fill_icmp cfg.globals link_dest (replicate 16 0) cfg.globals.allr_ip_multi rsolsize
      (routers ∷ replicate 7 0) iface
    >>= λ pkt. send_checked pkt (rsolicit_valid pkt)

-- The options of an advertisement. `fillOptions` is given the 48 bytes of the options as the number
-- of their types, and reads `stack`, the bytes behind the array of three types.
abbrev pub types_read : List ℕ → List ℕ
types_read stack = 1 ∷ 5 ∷ 3 ∷ take 45 stack

unfoldable pub advert_options : Config → List ℕ → ℕ → List ℕ
advert_options cfg stack iface =
    take 48 (fill_options cfg.router (macucast cfg.globals iface) (types_read stack) 0)

-- They begin behind the headers of 14 and 40 bytes and the 16 of the message.
unfoldable pub advert_fits : Config → List ℕ → ℕ → Bool
unfolding options_fit
advert_fits cfg stack iface =
    options_fit cfg.router (macucast cfg.globals iface) (types_read stack) 0 (14 + 40 + 16)

unfoldable pub advert_message : Config → List ℕ → ℕ → List ℕ
unfolding advert_options
advert_message cfg stack iface = cfg.router.radvert_from_router ++ advert_options cfg stack iface

-- `none` where an option is written behind the packet's buffer, too.
unfoldable pub checked_advert : Config → List ℕ → List ℕ → ℕ → Option (Option Packet)
unfolding advert_message advert_fits fill_icmp send_checked
checked_advert cfg stack link_dest iface =
    if advert_fits cfg stack iface
    then (fill_icmp cfg.globals link_dest cfg.globals.link_local cfg.globals.alln_ip_multi 64
          (advert_message cfg stack iface) iface
        >>= λ pkt. send_checked pkt (radvert_valid pkt))
    else none

unfoldable pub send_router_advert : Config → List ℕ → List ℕ → ℕ → Option (Option Packet)
unfolding checked_advert
send_router_advert cfg stack link_dest iface =
    if cfg.globals.host then some none else checked_advert cfg stack link_dest iface

-- A verdict of a validator that does not write.
abbrev unchanged : Packet → Option Bool → Option (Bool × List ℕ)
unchanged pkt verdict = verdict >>= λ valid. some (valid, pkt.payload)

-- The cases of `sendipv6pkt`. A neighbour solicitation asks for the router and carries the primary
-- interface's MAC; an advertisement's message stays zero, since no code fills it; an echo request
-- goes to the router, with 15 as identifier and sequence number.
unfoldable pub sendipv6pkt : Config → List ℕ → ℕ → List ℕ → List ℕ → ℕ → Option (Option Packet)
unfolding send_router_solicit send_router_advert
sendipv6pkt cfg stack type link_dest ip_dest iface =
    let g = cfg.globals in
    if type == routers
    then send_router_solicit cfg link_dest iface
    else if type == routera
    then send_router_advert cfg stack link_dest iface
    else if type == neighbs
    then (fill_icmp g link_dest g.ipv6_addr ip_dest 32
          (neighbor_message neighbs 0 cfg.router.router_link_local (macucast g g.ifprime)) iface
        >>= λ pkt. send_checked pkt (unchanged pkt (nsolicit_valid g.snm_addr pkt)))
    else if type == neighba
    then (let pkt =
          record (fill_ip_datagram g.ipv6_addr ip_dest 24 ipv6_icmp
            (fill_ethernet link_dest (macucast g iface) zero_packet)) {
              payload = replicate 24 0;
            } in
        send_checked pkt (unchanged pkt (nadvert_valid g.snm_addr pkt)))
    else if type == echoreq
    then (fill_icmp g cfg.router.router_mac_addr g.ipv6_addr ip_dest 8
          (echoreq ∷ 0 ∷ 0 ∷ 0 ∷ 0 ∷ 15 ∷ 0 ∷ 15 ∷ []) iface
        >>= λ pkt. some (some pkt))
    else none
