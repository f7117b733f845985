-- ===== src/Net/Reassembly.antt =====
-- Reassembly: net/reassembly.c, with `check_reassembly_time_out` and `removeReaEntry` of net/ipv6.c.
-- The fragment list is a ring through a sentinel; the model keeps its nodes from the last one to the
-- first, the order in which `insert_node` walks. `getmem` is taken to succeed, and the memory of a
-- removed list to be given back.
pub mod Balance
pub mod Count
pub mod Order
pub mod Roundtrip
pub mod Session
pub mod Steps
pub mod Table
use internetworking_nat_box.Base.{
  ℕ, zero, suc, ◌+◌, ◌-◌, ◌*◌, ◌/◌, ◌%◌, ◌^◌, ◌≤◌, ◌<◌, min, max, ◌≡◌, refl, sym, ap, ap₂, ◌∙◌, ◌≢◌,
  ◌↔◌, ◌⊎◌, inl, inr, Bool, true, false, not, ◌&&◌, ◌||◌, Option, none, some, List, [], ◌∷◌, ◌++◌,
  map, arith, ltb, leb, ◌==◌, if◌then◌else◌, ltb→lt, lt→ltb, le→ltb, ==_iff, Bool-cases,
  Option-cases, eq_of_some, ◌>>=◌, Ensures, Ensures-bind, Ensures-some, length, get_elem?, get_or,
  set, take, drop, replicate, All, length-append, length-set, length-replicate, get_elem?-set_self,
  get_elem?-set_ne, All-append, All-set, All-get, set-append_right, get_or-append_right, take-set,
  length-take, All-take, get_or-set_self, get_or-set_ne, All-mem, get_elem?-mem,
}
use internetworking_nat_box.Net.Bytes.{byte_comp}
use internetworking_nat_box.Net.Checksum.{read16, write16, checksumv6}
use internetworking_nat_box.Net.Packet.{Packet, ipv6_icmp, ipv6_frag, make_pseudo_hdr}
use internetworking_nat_box.Net.Fragment.{Datagram}

-- `struct frag_desc`.
pub record FragDesc : Type 0 where
  pub offset : ℕ
  pub payload_len : ℕ
  pub payload : List ℕ

-- `frag_list` is `none` for NULL; the kept header is that of the first fragment.
pub record ReassemblyEntry : Type 0 where
  pub src_addr : List ℕ
  pub dest_addr : List ℕ
  pub identif : ℕ
  pub perfrag_headers : Packet
  pub frag_list : Option (List FragDesc)
  pub next_header_in_fragment_header : ℕ
  pub timestamp : ℕ

pub record ReassemblyState : Type 0 where
  pub reassembly_table : List ReassemblyEntry
  pub reassembly_tab_size : ℕ

abbrev pub reassembly_table_max_size : ℕ
reassembly_table_max_size = 16

abbrev pub reassembly_max_time : ℕ
reassembly_max_time = 15

-- The fields of the fragment header at the start of the payload.
abbrev pub fragment_offset : Packet → ℕ
fragment_offset pkt = read16 pkt.payload 2 / 2 * 2

abbrev pub fragment_identif : Packet → ℕ
fragment_identif pkt = read16 pkt.payload 4 * 2 ^ 16 + read16 pkt.payload 6

abbrev pub is_last_fragment : Packet → Bool
is_last_fragment pkt = read16 pkt.payload 2 % 2 == 0

-- The walk from the tail, at most three nodes back.
unfoldable pub insert_back : ℕ → List FragDesc → FragDesc → List FragDesc
insert_back count [] new = new ∷ []
insert_back count (tail ∷ front) new =
    let further = tail ∷ insert_back (suc count) front new in
    if count == 3
    then new ∷ tail ∷ front
    else if leb (tail.offset + tail.payload_len) new.offset
    then new ∷ tail ∷ front
    else if ltb new.offset tail.offset
    then further
    else new ∷ tail ∷ front

unfoldable pub insert_node : List FragDesc → FragDesc → List FragDesc
insert_node nodes new = insert_back 0 nodes new

-- The node of a fragment.
unfoldable pub frag_desc : Packet → FragDesc
frag_desc pkt =
    let len = (pkt.payload_len + 2 ^ 16 - 8) % 2 ^ 16 in
    record {
      offset = fragment_offset pkt;
      payload_len = len;
      payload = take len (drop 8 pkt.payload);
    }

abbrev pub insert_frag_list : List FragDesc → Packet → List FragDesc
insert_frag_list nodes pkt = insert_node nodes (frag_desc pkt)

-- `memcpy(buf + at, bytes, length bytes)`.
abbrev pub write_at : List ℕ → ℕ → List ℕ → List ℕ
write_at buf at bytes = take at buf ++ (bytes ++ drop (at + length bytes) buf)

-- The loop of `copy_to_datagram` over the nodes from the first to the last: the bytes written so far
-- and `payload_len_datagram`. `none` is FALSE, a gap or an overlap.
unfoldable pub copy_nodes : List FragDesc → List ℕ → ℕ → Option (List ℕ)
copy_nodes [] buf payload_len_datagram = some (take payload_len_datagram buf)
copy_nodes (node ∷ nodes) buf payload_len_datagram =
    let rest =
      copy_nodes nodes (write_at buf payload_len_datagram node.payload)
        ((payload_len_datagram + node.payload_len) % 2 ^ 16) in
    if payload_len_datagram == node.offset then rest else none

unfoldable pub first_to_last : List FragDesc → List FragDesc → List FragDesc
first_to_last [] done = done
first_to_last (node ∷ nodes) done = first_to_last nodes (node ∷ done)

-- The length goes into the header, and the next header over that of the fragment header.
unfoldable pub update_datagram_headers : Packet → ℕ → ℕ → Packet
update_datagram_headers headers payload_len next =
    let counted = record headers { payload_len = payload_len } in
    if headers.next_header == ipv6_frag then record counted { next_header = next } else counted

unfoldable pub copy_to_datagram : ReassemblyEntry → List FragDesc → Option Datagram
unfolding first_to_last
copy_to_datagram entry nodes = copy_nodes (first_to_last nodes []) [] 0 >>= λ bytes. some (record {
  headers =
      update_datagram_headers entry.perfrag_headers (length bytes)
        entry.next_header_in_fragment_header;
  payload = bytes;
})
