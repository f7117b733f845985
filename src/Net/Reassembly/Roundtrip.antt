-- ===== src/Net/Reassembly/Roundtrip.antt =====
-- A datagram that `fragmentDatagram` has cut comes back whole from `reassembly`.
use internetworking_nat_box.Base.{
  ℕ, ◌+◌, ◌%◌, ◌^◌, ◌≤◌, ◌<◌, ◌≡◌, refl, ap, ◌∙◌, true, none, some, List, [], ◌∷◌, map, arith, ◌==◌,
  ==_iff, length, All,
}
use internetworking_nat_box.Net.Packet.{Packet}
use internetworking_nat_box.Net.Fragment.{
  Datagram, Cut, fragment_packet, fill_fragment_header, fragment_datagram,
}
use internetworking_nat_box.Net.Fragment.Cuts.{Consecutive, fragment_datagram-Consecutive}
use internetworking_nat_box.Net.Reassembly.{
  FragDesc, ReassemblyEntry, ReassemblyState, fragment_offset, insert_back, insert_node, copy_nodes,
  update_datagram_headers,
}
use internetworking_nat_box.Net.Reassembly.Order.{
  Consecutive-le, desc, fragment_identif-fragment_packet, fragment_offset-fragment_packet,
  frag_desc-fragment_packet, copy_nodes-Consecutive, first_to_last_lem,
}
use internetworking_nat_box.Net.Reassembly.Table.{
  is_used, find_entry, check_reassembly_table, hole_from, find_hole, first_entry, append_rea_table,
  reassembly,
}
use internetworking_nat_box.Net.Reassembly.Session.{
  reassemble_all, reassemble_all-none, reassemble_all-later, closed_state, whole,
}

-- No reassembly is under way and the first entry is a hole.
abbrev pub idle_state : ReassemblyEntry → List ReassemblyEntry → ReassemblyState
idle_state hole rest = record {
  reassembly_table = record hole { frag_list = none; timestamp = 0 } ∷ rest;
  reassembly_tab_size = 0;
}

-- A first fragment opens an entry.
reassembly-first :
    (clktime : ℕ) (pkt : Packet) (hole : ReassemblyEntry) (rest : List ReassemblyEntry)
    → (fragment_offset pkt == 0) ≡ true
    → reassembly clktime pkt (idle_state hole rest) ≡ (
      record { reassembly_table = first_entry clktime pkt ∷ rest; reassembly_tab_size = 1 },
      none,
    )
unfolding reassembly check_reassembly_table find_entry append_rea_table find_hole hole_from is_used
reassembly-first clktime pkt hole rest start = rw start refl

first_entry-fragment_packet :
    (clktime identif : ℕ) (d : Datagram) (c : Cut)
    → identif < 2 ^ 32
    → c.frag_offset < 2 ^ 16
    → c.frag_offset % 8 ≡ 0
    → c.payload_len < 2 ^ 16
    → first_entry clktime (fragment_packet d identif c) ≡ record {
      src_addr = d.headers.src;
      dest_addr = d.headers.dest;
      identif = identif;
      perfrag_headers = fragment_packet d identif c;
      frag_list = some (desc d.payload c ∷ []);
      next_header_in_fragment_header = d.headers.next_header;
      timestamp = clktime;
    }
unfolding insert_node insert_back fragment_packet fill_fragment_header
first_entry-fragment_packet clktime identif d c id h eight len =
    rw
      (
        fragment_identif-fragment_packet d identif c h id,
        frag_desc-fragment_packet d identif c h eight len,
      )
      refl

-- All fragments, from the first one on.
reassemble_all-Consecutive :
    (clktime identif : ℕ) (d : Datagram) (hole : ReassemblyEntry) (rest : List ReassemblyEntry)
    (c c' : Cut) (cs : List Cut)
    → length d.payload < 2 ^ 16
    → identif < 2 ^ 32
    → 16 ≤ length d.headers.src
    → 16 ≤ length d.headers.dest
    → Consecutive 0 (length d.payload) (c ∷ c' ∷ cs)
    → (nodes : List FragDesc) × (reassemble_all clktime
          (map (fragment_packet d identif) (c ∷ c' ∷ cs))
          (idle_state hole rest)
        ≡ (
          closed_state clktime identif d (fragment_packet d identif c) rest nodes,
          some (whole clktime identif d (fragment_packet d identif c) rest),
        ))
reassemble_all-Consecutive clktime identif d hole rest c c' cs small id src dest h =
    let p0 = fragment_packet d identif c in
    let inside = Consecutive-le (0 + c.payload_len) (length d.payload) (c' ∷ cs) h.4 in
    let at : c.frag_offset < 2 ^ 16 = omega (arith, h.0) in
    let eight : c.frag_offset % 8 ≡ 0 = omega (arith, h.0) in
    let len : c.payload_len < 2 ^ 16 = omega (arith, inside) in
    let start : (fragment_offset p0 == 0) ≡ true =
      (==_iff _ _).1 (fragment_offset-fragment_packet d identif c at eight ∙ h.0) in
    let opened =
      reassembly-first clktime p0 hole rest start
      ∙ ap (λ e. (record { reassembly_table = e ∷ rest; reassembly_tab_size = 1 }, none))
          (first_entry-fragment_packet clktime identif d c id at eight len) in
    let copied =
      ap (λ l. copy_nodes l [] 0)
        (first_to_last_lem (desc d.payload c) (map (desc d.payload) (c' ∷ cs)))
      ∙ copy_nodes-Consecutive d.payload 0 (c ∷ c' ∷ cs) small h in
    let (nodes, run) =
      reassemble_all-later clktime identif d p0 rest small id src dest (0 + c.payload_len) c' cs
        (desc d.payload c) [] h.4 (omega (arith, h.0)) copied in
    (
      nodes,
      reassemble_all-none clktime p0 (map (fragment_packet d identif) (c' ∷ cs))
            (idle_state hole rest) opened
          ∙ run,
    )

-- For an MTU of 56 to 1500 and a payload of at most 65535 bytes: on an idle table whose first entry
-- is a hole, the packets that `fragmentDatagram` makes of a datagram longer than the MTU,
-- reassembled in the order of sending, give back one datagram with its payload, addresses and next
-- header, and with the length of the payload in the header; no reassembly is under way after it.
pub reassemble_all-fragment_datagram :
    (clktime mtu identif : ℕ) (d : Datagram) (hole : ReassemblyEntry) (rest : List ReassemblyEntry)
    → 56 ≤ mtu
    → mtu ≤ 1500
    → mtu < 40 + length d.payload
    → length d.payload < 2 ^ 16
    → identif < 2 ^ 32
    → 16 ≤ length d.headers.src
    → 16 ≤ length d.headers.dest
    → (pkts : List Packet) × (st : ReassemblyState) × (out : Datagram) × (fragment_datagram mtu
          identif d
        ≡ some pkts)
      × (reassemble_all clktime pkts (idle_state hole rest) ≡ (st, some out))
      × (out.payload ≡ d.payload)
      × (out.headers.src ≡ d.headers.src)
      × (out.headers.dest ≡ d.headers.dest)
      × (out.headers.next_header ≡ d.headers.next_header)
      × (out.headers.payload_len ≡ length d.payload)
      × (st.reassembly_tab_size ≡ 0)
unfolding update_datagram_headers fragment_packet
reassemble_all-fragment_datagram clktime mtu identif d hole rest low high long small id src dest =
    let (cs, run, chain, fits) = fragment_datagram-Consecutive mtu identif d low long small high in
    go cs run chain fits
  where
    go :
        (cs : List Cut)
        → fragment_datagram mtu identif d ≡ some (map (fragment_packet d identif) cs)
        → Consecutive 0 (length d.payload) cs
        → All (λ c. 48 + c.payload_len ≤ mtu) cs
        → (pkts : List Packet) × (st : ReassemblyState) × (out : Datagram) × (fragment_datagram mtu
              identif d
            ≡ some pkts)
          × (reassemble_all clktime pkts (idle_state hole rest) ≡ (st, some out))
          × (out.payload ≡ d.payload)
          × (out.headers.src ≡ d.headers.src)
          × (out.headers.dest ≡ d.headers.dest)
          × (out.headers.next_header ≡ d.headers.next_header)
          × (out.headers.payload_len ≡ length d.payload)
          × (st.reassembly_tab_size ≡ 0)
    go [] run chain fits = absurd (omega (arith, chain))
    go (c ∷ []) run chain fits = absurd (omega (arith, chain.4, fits.0))
    go (c ∷ c' ∷ cs) run chain fits =
        let (nodes, whole_again) =
          reassemble_all-Consecutive clktime identif d hole rest c c' cs small id src dest chain in
        (
          map (fragment_packet d identif) (c ∷ c' ∷ cs),
          closed_state clktime identif d (fragment_packet d identif c) rest nodes,
          whole clktime identif d (fragment_packet d identif c) rest,
          run,
          whole_again,
          refl,
          refl,
          refl,
          refl,
          refl,
          refl,
        )
