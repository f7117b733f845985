-- ===== src/Net/Icmp/Echo.antt =====
-- The answer to an echo request.
use internetworking_nat_box.Base.{ℕ, ◌^◌, ◌<◌, ◌≡◌, refl, ◌∙◌, some, List, [], ◌∷◌, arith, All}
use internetworking_nat_box.Net.Checksum.{read16, write16}
use internetworking_nat_box.Net.Checksum.Sum.{IsByte, read16-lt}
use internetworking_nat_box.Net.Packet.{
  Packet, icmp_type, identifier, seq_number, fill_ethernet, fill_ip_datagram,
}
use internetworking_nat_box.Net.Packet.Rewrite.{checked, recompute_checksum_lem, read16-write16_ne}
use internetworking_nat_box.Net.Nat.Invariant.{IsEcho}
use internetworking_nat_box.Net.Forward.{Globals, macucast}
use internetworking_nat_box.Net.Neighbor.{zero_packet}
use internetworking_nat_box.Net.Icmp.{
  NetState, wrote, echoreq, echo_response, send_echo_resp, neighbor_in, icmpv6_in,
}

echo_response-IsByte :
    (identifier seq_number : ℕ)
    → identifier < 2 ^ 16
    → seq_number < 2 ^ 16
    → All IsByte (echo_response identifier seq_number)
echo_response-IsByte identifier seq_number h l = omega arith

identifier-echo_response : (i s : ℕ) → identifier (echo_response i s) ≡ i
identifier-echo_response i s = omega arith

seq_number-echo_response : (i s : ℕ) → seq_number (echo_response i s) ≡ s
seq_number-echo_response i s = omega arith

read16-checked :
    (src dest msg : List ℕ) (k j : ℕ) → 3 < j → read16 (checked src dest msg k) j ≡ read16 msg j
read16-checked src dest msg k j h =
    read16-write16_ne (write16 msg 2 0) 2 j _ h ∙ read16-write16_ne msg 2 j 0 h

-- The frame of an answer, its checksum filled in.
abbrev pub echo_frame : Globals → Packet → Packet
echo_frame g pkt = record (zero_packet) {
  net_dst = pkt.net_src;
  net_src = macucast g g.ifprime;
  net_type = 0x86DD;
  info = 0x60 ∷ 0 ∷ 0 ∷ 0 ∷ [];
  payload_len = 8;
  next_header = 0x3A;
  hop_limit = 255;
  src = pkt.dest;
  dest = pkt.src;
  payload =
      checked pkt.dest pkt.src (echo_response (identifier pkt.payload) (seq_number pkt.payload)) 4;
}

send_echo_resp_lem :
    (g : Globals) {pkt : Packet}
    → IsEcho pkt
    → send_echo_resp g pkt.dest pkt.net_src pkt.src
        (identifier pkt.payload)
        (seq_number pkt.payload)
      ≡ some (echo_frame g pkt)
unfolding send_echo_resp fill_ethernet fill_ip_datagram
send_echo_resp_lem g {pkt} e =
    rw
      (recompute_checksum_lem e.dest e.src
        (echo_response (identifier pkt.payload) (seq_number pkt.payload)) 4 (omega arith)
        (omega arith) (omega arith)
        (echo_response-IsByte (identifier pkt.payload) (seq_number pkt.payload)
          (read16-lt pkt.payload 4 e.bytes) (read16-lt pkt.payload 6 e.bytes)))
      refl

echo_dispatch :
    (g : Globals) (pkt : Packet) (st : NetState) {frame : Packet}
    → icmp_type pkt.payload ≡ echoreq
    → send_echo_resp g pkt.dest pkt.net_src pkt.src
        (identifier pkt.payload)
        (seq_number pkt.payload)
      ≡ some frame
    → icmpv6_in g pkt st ≡ some (st, wrote frame ∷ [])
unfolding icmpv6_in neighbor_in
echo_dispatch g pkt st type sent = rw (type, sent) refl

-- An echo request is answered by one frame, and the tables stay as they are. The answer goes back to
-- the MAC and the address that the request came from, from the address that it was sent to; it is an
-- echo reply with the identifier and the sequence number of the request.
pub icmpv6_in-echo :
    (g : Globals) (st : NetState) {pkt : Packet}
    → IsEcho pkt
    → icmp_type pkt.payload ≡ echoreq
    → (frame : Packet) × (icmpv6_in g pkt st ≡ some (st, wrote frame ∷ []))
      × (frame.net_dst ≡ pkt.net_src)
      × (frame.src ≡ pkt.dest)
      × (frame.dest ≡ pkt.src)
      × (icmp_type frame.payload ≡ 0x81)
      × (identifier frame.payload ≡ identifier pkt.payload)
      × (seq_number frame.payload ≡ seq_number pkt.payload)
icmpv6_in-echo g st {pkt} e type =
    let i = identifier pkt.payload in
    let s = seq_number pkt.payload in
    let msg = echo_response i s in
    (
      echo_frame g pkt,
      echo_dispatch g pkt st type (send_echo_resp_lem g e),
      refl,
      refl,
      refl,
      refl,
      read16-checked pkt.dest pkt.src msg 4 4 (omega arith) ∙ identifier-echo_response i s,
      read16-checked pkt.dest pkt.src msg 4 6 (omega arith) ∙ seq_number-echo_response i s,
    )
