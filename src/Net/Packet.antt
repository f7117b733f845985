-- ===== src/Net/Packet.antt =====
-- A packet in its buffer (include/net.h, ipv6.h, icmpv6.h) and the code that fills one
-- (net/sendipv6pkt.c). An array is the list of its bytes. A 16-bit field in network order is kept
-- as the number that `ntohs` gives; the bytes behind the IPv6 header are kept raw, and the ICMPv6
-- structs laid over them are reads and writes at the offsets of their fields.
pub mod Rewrite
use internetworking_nat_box.Base.{
  ℕ, zero, suc, ◌+◌, ◌-◌, ◌*◌, ◌/◌, ◌%◌, ◌^◌, ◌≤◌, ◌<◌, min, max, ◌≡◌, refl, sym, ap, ap₂, ◌∙◌, ◌≢◌,
  ◌↔◌, ◌⊎◌, inl, inr, Bool, true, false, not, ◌&&◌, ◌||◌, Option, none, some, List, [], ◌∷◌, ◌++◌,
  map, arith, ltb, leb, ◌==◌, if◌then◌else◌, ltb→lt, lt→ltb, le→ltb, ==_iff, Bool-cases,
  Option-cases, eq_of_some, ◌>>=◌, length, get_elem?, get_or, set, take, drop, replicate, All,
  length-append, length-set, length-replicate, get_elem?-set_self, get_elem?-set_ne, All-append,
  All-set, All-get,
}
use internetworking_nat_box.Net.Checksum.{read16, write16, checksumv6}

pub record Packet : Type 0 where
  pub net_dst : List ℕ
  pub net_src : List ℕ
  pub net_type : ℕ
  pub info : List ℕ
  pub payload_len : ℕ
  pub next_header : ℕ
  pub hop_limit : ℕ
  pub src : List ℕ
  pub dest : List ℕ
  pub payload : List ℕ
  pub net_iface : ℕ

abbrev pub ipv6_asize : ℕ
ipv6_asize = 16

abbrev pub eth_addr_len : ℕ
eth_addr_len = 6

abbrev pub eth_ipv6 : ℕ
eth_ipv6 = 0x86DD

abbrev pub ipv6_icmp : ℕ
ipv6_icmp = 0x3A

abbrev pub ipv6_frag : ℕ
ipv6_frag = 0x2C

abbrev pub pseudolen : ℕ
pseudolen = 40

abbrev pub echoreqsize : ℕ
echoreqsize = 8

-- The fields of `struct icmpv6general` and `struct icmpv6echoreq`.
abbrev pub icmp_type : List ℕ → ℕ
icmp_type msg = get_or msg 0 0

abbrev pub icmp_code : List ℕ → ℕ
icmp_code msg = get_or msg 1 0

abbrev pub identifier : List ℕ → ℕ
identifier msg = read16 msg 4

abbrev pub seq_number : List ℕ → ℕ
seq_number msg = read16 msg 6

abbrev pub set_checksum : List ℕ → ℕ → List ℕ
set_checksum msg v = write16 msg 2 v

abbrev pub set_identifier : List ℕ → ℕ → List ℕ
set_identifier msg v = write16 msg 4 v

-- `htonl`, as bytes.
abbrev pub bytes32 : ℕ → List ℕ
bytes32 v = v / 2 ^ 24 % 256 ∷ v / 2 ^ 16 % 256 ∷ v / 2 ^ 8 % 256 ∷ v % 256 ∷ []

unfoldable pub make_pseudo_hdr : List ℕ → List ℕ → List ℕ → ℕ → List ℕ
make_pseudo_hdr src dest pkt pkt_len =
    src ++ (dest ++ (bytes32 pkt_len ++ (0 ∷ 0 ∷ 0 ∷ ipv6_icmp ∷ take pkt_len pkt)))

unfoldable pub fill_ethernet : List ℕ → List ℕ → Packet → Packet
fill_ethernet dest if_macucast pkt = record pkt {
  net_dst = dest;
  net_src = if_macucast;
  net_type = eth_ipv6;
}

unfoldable pub fill_ip_datagram : List ℕ → List ℕ → ℕ → ℕ → Packet → Packet
fill_ip_datagram src_ip dest_ip length next_header pkt = record pkt {
  info = 0x60 ∷ 0 ∷ 0 ∷ 0 ∷ [];
  payload_len = length % 2 ^ 16;
  next_header = next_header;
  hop_limit = 255;
  src = src_ip;
  dest = dest_ip;
}

-- The steps that every sender and the NAT code repeat: zero the checksum field, build the pseudo
-- header in front of the message, sum it, and store the sum.
unfoldable pub recompute_checksum : List ℕ → List ℕ → ℕ → List ℕ → Option (List ℕ)
recompute_checksum src dest size msg =
    let zeroed = set_checksum msg 0 in
    checksumv6 (make_pseudo_hdr src dest zeroed size) (pseudolen + size) >>= λ sum.
    some (set_checksum zeroed sum)
