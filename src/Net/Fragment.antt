-- ===== src/Net/Fragment.antt =====
-- Fragmentation: net/sendto.c and `fillDatagram` of net/datagram.c. The headers of a datagram are an
-- IPv6 base header, so the model keeps them as a packet whose payload is not read. `payload_len` is
-- the length of the payload, at most 65535. The last step of `sendFragment`, from the lookup of the
-- neighbour on, is in Net/Fragment/Send.
pub mod Cuts
pub mod Send
use internetworking_nat_box.Base.{
  ℕ, zero, suc, ◌+◌, ◌-◌, ◌*◌, ◌/◌, ◌%◌, ◌^◌, ◌≤◌, ◌<◌, min, max, ◌≡◌, refl, sym, ap, ap₂, ◌∙◌, ◌≢◌,
  ◌↔◌, ◌⊎◌, inl, inr, Bool, true, false, not, ◌&&◌, ◌||◌, Option, none, some, List, [], ◌∷◌, ◌++◌,
  map, arith, ltb, leb, ◌==◌, if◌then◌else◌, ltb→lt, lt→ltb, le→ltb, ==_iff, Bool-cases,
  Option-cases, eq_of_some, ◌>>=◌, Ensures, Ensures-bind, Ensures-some, length, get_elem?, get_or,
  set, take, drop, replicate, All, length-append, length-set, length-replicate, get_elem?-set_self,
  get_elem?-set_ne, All-append, All-set, All-get, set-append_right, get_or-append_right, take-set,
  length-take, All-take, get_or-set_self, get_or-set_ne, All-mem, get_elem?-mem,
}
use internetworking_nat_box.Net.Packet.{Packet, ipv6_frag, bytes32}

pub record Datagram : Type 0 where
  pub headers : Packet
  pub payload : List ℕ

-- `payload_len` has to be in the unit of 8 octets.
abbrev pub check_length : ℕ → ℕ
check_length payload_len = if ltb 8 payload_len then payload_len - payload_len % 8 else payload_len

-- What one round of the loop of `fragmentDatagram` sends: `frag_offset`, `payload_len` and `M_flag`.
pub record Cut : Type 0 where
  pub frag_offset : ℕ
  pub payload_len : ℕ
  pub m_flag : Bool

abbrev pub cut : ℕ → ℕ → Bool → Cut
cut frag_offset payload_len m_flag = record {
  frag_offset = frag_offset;
  payload_len = payload_len;
  m_flag = m_flag;
}

-- `payload_len` of one round.
abbrev pub cut_length : ℕ → ℕ → ℕ
cut_length max_payload_len remain_len =
    if ltb max_payload_len remain_len then max_payload_len else check_length remain_len

-- The loop. `none` means that the rounds ran out.
unfoldable pub cut_loop : ℕ → ℕ → ℕ → ℕ → Option (List Cut)
cut_loop zero max_payload_len remain_len frag_offset = none
cut_loop (suc rounds) max_payload_len remain_len frag_offset =
    let len = cut_length max_payload_len remain_len in
    let rest = cut_loop rounds max_payload_len (remain_len - len) ((frag_offset + len) % 2 ^ 16) in
    if remain_len == 0
    then some []
    else (rest >>= λ cuts. some (cut frag_offset len (not (remain_len - len == 0)) ∷ cuts))

-- The offset field: the M flag is its last bit.
abbrev pub offset_field : ℕ → Bool → ℕ
offset_field frag_offset m_flag = frag_offset / 8 * 8 + (if m_flag then 1 else 0)

unfoldable pub fill_fragment_header : ℕ → ℕ → ℕ → Bool → List ℕ
fill_fragment_header identif next_header frag_offset m_flag =
    let field = offset_field frag_offset m_flag in
    next_header ∷ 0 ∷ (field / 256) ∷ (field % 256) ∷ bytes32 identif

-- The packet that `sendFragment` builds, from the IPv6 header on, in a buffer that holds it.
unfoldable pub fragment_packet : Datagram → ℕ → Cut → Packet
fragment_packet datagram identif c = record (datagram.headers) {
  payload_len = 8 + c.payload_len;
  next_header = ipv6_frag;
  payload =
      fill_fragment_header identif (datagram.headers.next_header) c.frag_offset c.m_flag
      ++ take c.payload_len (drop c.frag_offset datagram.payload);
}

-- `sizeof(struct netpacket)`, the size of the buffer, and the bytes in front of a fragment's payload.
abbrev pub packlen : ℕ
packlen = 1520

abbrev pub front_len : ℕ
front_len = 14 + 40 + 8

-- `none` is a fragment that is copied past the end of its buffer.
unfoldable pub fill_fragment : Datagram → ℕ → Cut → Option Packet
fill_fragment datagram identif c =
    if ltb packlen (front_len + c.payload_len)
    then none
    else some (fragment_packet datagram identif c)

unfoldable pub fill_fragments : Datagram → ℕ → List Cut → Option (List Packet)
unfolding fill_fragment
fill_fragments datagram identif [] = some []
fill_fragments datagram identif (c ∷ cuts) =
    let rest = fill_fragments datagram identif cuts in
    fill_fragment datagram identif c >>= λ pkt. rest >>= λ pkts. some (pkt ∷ pkts)

-- `MTU - headers_len - sizeof(struct fragment_header)` as a `uint16`.
abbrev pub max_length : ℕ → ℕ
max_length mtu = check_length ((mtu + 2 ^ 32 - 48) % 2 ^ 16)

-- The packets in the order of sending. A datagram that fits into one packet is not sent: that branch
-- of the code is empty. `none` is a run that does not end, or that writes behind a buffer.
unfoldable pub fragment_datagram : ℕ → ℕ → Datagram → Option (List Packet)
fragment_datagram mtu identif datagram =
    if ltb mtu (40 + length datagram.payload)
    then (cut_loop 65537 (max_length mtu) (length datagram.payload) 0
        >>= fill_fragments datagram identif)
    else some []
