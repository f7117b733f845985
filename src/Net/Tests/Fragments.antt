-- ===== src/Net/Tests/Fragments.antt =====
-- A concrete datagram, cut and reassembled.
use internetworking_nat_box.Base.{
  refl, ◌∷◌, ◌+◌, ◌≤◌, ◌≡◌, none, some, true, List, [], arith, map, replicate, All,
}
use internetworking_nat_box.Net.Packet.{Packet}
use internetworking_nat_box.Net.Fragment.{Datagram, Cut, cut, fragment_packet, fragment_datagram}
use internetworking_nat_box.Net.Fragment.Cuts.{Consecutive, fragment_datagram-Consecutive}
use internetworking_nat_box.Net.Reassembly.{ReassemblyEntry, ReassemblyState}
use internetworking_nat_box.Net.Reassembly.Session.{reassemble_all}
use internetworking_nat_box.Net.Reassembly.Roundtrip.{idle_state, reassemble_all-fragment_datagram}
use internetworking_nat_box.Net.Tests.{inside_host, outside_host, ping}
use internetworking_nat_box.Net.Reassembly.Table.{is_used, check_reassembly_time_out}
use internetworking_nat_box.Net.Reassembly.Count.{IsCounted, used_count}
use internetworking_nat_box.Net.Reassembly.Steps.{check_reassembly_time_out-IsCounted}

abbrev unused_entry : ReassemblyEntry
unused_entry = record {
  src_addr = replicate 16 0;
  dest_addr = replicate 16 0;
  identif = 0;
  perfrag_headers = ping;
  frag_list = none;
  next_header_in_fragment_header = 0;
  timestamp = 0;
}

abbrev letter : Datagram
letter = record { headers = ping; payload = replicate 40 7 }

reassemble_all-fragment_datagram_example :
    (pkts : List Packet) × (st : ReassemblyState) × (out : Datagram) × (fragment_datagram 64 9
        letter
      ≡ some pkts)
    × (reassemble_all 1 pkts (idle_state unused_entry []) ≡ (st, some out))
    × (out.payload ≡ letter.payload)
    × (out.headers.src ≡ inside_host)
    × (out.headers.dest ≡ outside_host)
    × (out.headers.next_header ≡ 0x3A)
    × (out.headers.payload_len ≡ 40)
    × (st.reassembly_tab_size ≡ 0)
reassemble_all-fragment_datagram_example =
    reassemble_all-fragment_datagram 1 64 9 letter unused_entry [] (omega arith) (omega arith)
      (omega arith) (omega arith) (omega arith) (omega arith) (omega arith)

fragment_datagram-Consecutive_example :
    (cs : List Cut) × (fragment_datagram 64 9 letter ≡ some (map (fragment_packet letter 9) cs))
    × Consecutive 0 40 cs
    × All (λ c. 48 + c.payload_len ≤ 64) cs
fragment_datagram-Consecutive_example =
    fragment_datagram-Consecutive 64 9 letter (omega arith) (omega arith) (omega arith)
      (omega arith)

abbrev idle_table : ReassemblyState
idle_table = record { reassembly_table = unused_entry ∷ []; reassembly_tab_size = 0 }

idle_table-IsCounted : IsCounted idle_table
unfolding used_count is_used
idle_table-IsCounted = record { size = omega arith; counted = refl }

-- A first fragment, of a letter.
abbrev first_part : Packet
first_part = fragment_packet letter 9 (cut 0 16 true)

check_reassembly_time_out-IsCounted_example : IsCounted (check_reassembly_time_out 20 idle_table)
check_reassembly_time_out-IsCounted_example =
    check_reassembly_time_out-IsCounted 20 idle_table idle_table-IsCounted
