-- ===== src/Net/Reassembly/Table.antt =====
-- The reassembly table: `checkReassemblyTable`, `appendReaTable`, `removeReaEntry`, the time-out and
-- `reassembly` itself. The clock is an argument.
use internetworking_nat_box.Base.{
  ℕ, zero, suc, ◌+◌, ◌-◌, ◌*◌, ◌%◌, ◌^◌, Bool, true, false, not, ◌&&◌, Option, none, some, List, [],
  ◌∷◌, leb, ◌==◌, if◌then◌else◌, ◌>>=◌, length, get_elem?, get_or, set,
}
use internetworking_nat_box.Net.Bytes.{byte_comp}
use internetworking_nat_box.Net.Checksum.{checksumv6}
use internetworking_nat_box.Net.Packet.{Packet, icmp_type, ipv6_icmp, set_checksum, make_pseudo_hdr}
use internetworking_nat_box.Net.Fragment.{Datagram}
use internetworking_nat_box.Net.Reassembly.{
  FragDesc, ReassemblyEntry, ReassemblyState, reassembly_max_time, fragment_offset,
  fragment_identif, is_last_fragment, insert_frag_list, copy_to_datagram,
}

unfoldable pub is_used : Option (List FragDesc) → Bool
is_used none = false
is_used (some nodes) = true

-- The search among the first `n` entries, from index `i` on.
unfoldable pub find_entry : ℕ → List ReassemblyEntry → List ℕ → List ℕ → ℕ → ℕ → Option ℕ
unfolding is_used
find_entry zero table src dest identif i = none
find_entry (suc n) [] src dest identif i = none
find_entry (suc n) (e ∷ table) src dest identif i =
    let rest = find_entry n table src dest identif (suc i) in
    if is_used e.frag_list
      && (byte_comp src e.src_addr 16 && (byte_comp dest e.dest_addr 16 && (identif == e.identif)))
    then some i
    else rest

unfoldable pub check_reassembly_table : ReassemblyState → List ℕ → List ℕ → ℕ → Option ℕ
check_reassembly_table st src dest identif =
    find_entry st.reassembly_tab_size st.reassembly_table src dest identif 0

unfoldable pub hole_from : List ReassemblyEntry → ℕ → Option ℕ
hole_from [] i = none
hole_from (e ∷ table) i =
    let rest = hole_from table (suc i) in
    if not (is_used e.frag_list) && (e.timestamp == 0) then some i else rest

-- `none` is -1.
unfoldable pub find_hole : ReassemblyState → Option ℕ
unfolding hole_from is_used
find_hole st = hole_from st.reassembly_table 0

abbrev pub first_entry : ℕ → Packet → ReassemblyEntry
first_entry clktime pkt = record {
  src_addr = pkt.src;
  dest_addr = pkt.dest;
  identif = fragment_identif pkt;
  perfrag_headers = pkt;
  frag_list = some (insert_frag_list [] pkt);
  next_header_in_fragment_header = get_or pkt.payload 0 0;
  timestamp = clktime;
}

unfoldable pub append_rea_table : ℕ → Packet → ReassemblyState → ReassemblyState
append_rea_table clktime pkt st = elim (find_hole st) [
  | none ↦ st
  | some hole_index ↦ record {
    reassembly_table = set st.reassembly_table hole_index (first_entry clktime pkt);
    reassembly_tab_size = (st.reassembly_tab_size + 1) % 256;
  }
]

abbrev pub cleared : ReassemblyEntry → ReassemblyEntry
cleared e = record e { frag_list = none; timestamp = 0 }

-- `removeReaEntry` of the entry `e` at `index`.
unfoldable pub remove_rea_entry : ℕ → ReassemblyEntry → ReassemblyState → ReassemblyState
remove_rea_entry index e st = record {
  reassembly_table = set st.reassembly_table index (cleared e);
  reassembly_tab_size = (st.reassembly_tab_size + 255) % 256;
}

-- The loop over the entries: the table after it and how many entries went.
unfoldable pub time_out : ℕ → List ReassemblyEntry → List ReassemblyEntry × ℕ
time_out clktime [] = ([], 0)
time_out clktime (e ∷ table) =
    let (rest, gone) = time_out clktime table in
    if is_used e.frag_list
      && (not (e.timestamp == 0)
          && leb reassembly_max_time ((clktime + 2 ^ 32 - e.timestamp) % 2 ^ 32))
    then (cleared e ∷ rest, suc gone)
    else (e ∷ rest, gone)

unfoldable pub check_reassembly_time_out : ℕ → ReassemblyState → ReassemblyState
unfolding time_out is_used
check_reassembly_time_out clktime st =
    let (table, gone) = time_out clktime st.reassembly_table in
    record {
      reassembly_table = table;
      reassembly_tab_size = (st.reassembly_tab_size + gone * 255) % 256;
    }

-- A later fragment, for the entry at `index` with the nodes `nodes`: the state, and the datagram if
-- it is complete.
unfoldable pub extend_entry :
    Packet
    → ℕ
    → ReassemblyEntry
    → List FragDesc
    → ReassemblyState
    → ReassemblyState × Option Datagram
extend_entry pkt index e nodes st =
    let nodes' = insert_frag_list nodes pkt in
    let e' = record e { frag_list = some nodes' } in
    let st' = record st { reassembly_table = set st.reassembly_table index e' } in
    if is_last_fragment pkt
    then elim (copy_to_datagram e' nodes') [
      | none ↦ (st', none)
      | some datagram ↦ (remove_rea_entry index e' st', some datagram)
    ]
    else (st', none)

unfoldable pub later_fragment :
    Packet → ℕ → ReassemblyEntry → ReassemblyState → ReassemblyState × Option Datagram
unfolding extend_entry
later_fragment pkt index e st = elim e.frag_list [
  | none ↦ (st, none)
  | some nodes ↦ extend_entry pkt index e nodes st
]

-- The second result is the datagram that goes to `processDatagram`.
unfoldable pub reassembly : ℕ → Packet → ReassemblyState → ReassemblyState × Option Datagram
unfolding later_fragment
reassembly clktime pkt st =
    elim (check_reassembly_table st pkt.src pkt.dest (fragment_identif pkt)) [
      | none ↦ (if fragment_offset pkt == 0 then append_rea_table clktime pkt st else st, none)
      | some index ↦ elim (get_elem? st.reassembly_table index) [
        | none ↦ (st, none)
        | some e ↦ later_fragment pkt index e st
      ]
    ]

-- `processDatagram` up to its call of `sendto`: an echo request becomes a reply, whose checksum is
-- computed with the old checksum in place. The outer `none` is a checksum loop that does not end,
-- the inner one a datagram that is not answered. The result is what `sendto` is given.
unfoldable pub process_datagram : Datagram → Option (Option (List ℕ × List ℕ))
process_datagram datagram =
    if (datagram.headers.next_header == ipv6_icmp) && (icmp_type datagram.payload == 0x80)
    then (let reply = set datagram.payload 0 0x81 in
        checksumv6 (make_pseudo_hdr datagram.headers.dest datagram.headers.src reply (length reply))
          (40 + length reply)
        >>= λ sum. some (some (datagram.headers.src, set_checksum reply sum)))
    else some none
