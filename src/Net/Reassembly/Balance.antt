-- ===== src/Net/Reassembly/Balance.antt =====
-- How `reassembly` moves the number of datagrams under way: by one for each that begins or is complete.
use internetworking_nat_box.Base.{ℕ, suc, ◌≡◌, ◌≢◌, ◌⊎◌, Option, none, some}
use internetworking_nat_box.Net.Packet.{Packet}
use internetworking_nat_box.Net.Fragment.{Datagram}
use internetworking_nat_box.Net.Reassembly.{ReassemblyState, fragment_offset, fragment_identif}
use internetworking_nat_box.Net.Reassembly.Table.{check_reassembly_table, find_hole}
use internetworking_nat_box.Net.Reassembly.Count.{used_count}

-- How many datagrams are under way.
abbrev pub open_count : ReassemblyState → ℕ
open_count st = used_count st.reassembly_table

-- A datagram that comes out is one less. Where none does, the packet was the first fragment of a
-- datagram that the table did not know, which is one more unless no entry is free; or it belongs to
-- a known datagram or is no first fragment, and the number stays.
abbrev pub Balanced : Packet → ReassemblyState → ReassemblyState × Option Datagram → Type 0
Balanced pkt st (st', some datagram) =
    (suc (open_count st') ≡ open_count st)
    × (check_reassembly_table st pkt.src pkt.dest (fragment_identif pkt) ≢ none)
Balanced pkt st (st', none) =
    ((open_count st' ≡ suc (open_count st))
      × (check_reassembly_table st pkt.src pkt.dest (fragment_identif pkt) ≡ none)
      × (fragment_offset pkt ≡ 0))
    ⊎ ((open_count st' ≡ open_count st)
        × ((check_reassembly_table st pkt.src pkt.dest (fragment_identif pkt) ≢ none)
            ⊎ ((fragment_offset pkt ≢ 0) ⊎ (find_hole st ≡ none))))

-- A later fragment of a known datagram completes it, or leaves the number as it is.
abbrev Continued : ReassemblyState → ReassemblyState × Option Datagram → Type 0
Continued st (st', some datagram) = suc (open_count st') ≡ open_count st
Continued st (st', none) = open_count st' ≡ open_count st
