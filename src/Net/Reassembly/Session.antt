-- ===== src/Net/Reassembly/Session.antt =====
-- What `reassembly` does with the fragments of one datagram after the first, in the order of sending.
use internetworking_nat_box.Base.{
  ℕ, ◌+◌, ◌-◌, ◌%◌, ◌^◌, ◌≤◌, ◌<◌, ◌≡◌, refl, ap, ◌∙◌, true, false, not, Option, none, some, List,
  [], ◌∷◌, map, arith, ◌==◌, ==_iff, length,
}
use internetworking_nat_box.Net.Bytes.{match_refl, byte_comp, byte_comp-eq-match}
use internetworking_nat_box.Net.Packet.{Packet}
use internetworking_nat_box.Net.Fragment.{Datagram, Cut, fragment_packet}
use internetworking_nat_box.Net.Fragment.Cuts.{Consecutive}
use internetworking_nat_box.Net.Reassembly.{
  FragDesc, ReassemblyEntry, ReassemblyState, fragment_identif, is_last_fragment, insert_frag_list,
  copy_nodes, first_to_last, copy_to_datagram, update_datagram_headers,
}
use internetworking_nat_box.Net.Reassembly.Order.{
  Consecutive-le, desc, fragment_identif-fragment_packet, is_last_fragment-fragment_packet,
  frag_desc-fragment_packet, insert_node-later,
}
use internetworking_nat_box.Net.Reassembly.Table.{
  extend_entry, is_used, find_entry, check_reassembly_table, cleared, remove_rea_entry,
  later_fragment, reassembly,
}

-- Packets are reassembled in turn, up to the first complete datagram.
unfoldable pub reassemble_all :
    ℕ → List Packet → ReassemblyState → ReassemblyState × Option Datagram
reassemble_all clktime [] st = (st, none)
reassemble_all clktime (pkt ∷ pkts) st = elim (reassembly clktime pkt st).1 [
  | some datagram ↦ ((reassembly clktime pkt st).0, some datagram)
  | none ↦ reassemble_all clktime pkts (reassembly clktime pkt st).0
]

check_reassembly_table-found :
    (pkt : Packet) (e : ReassemblyEntry) (rest : List ReassemblyEntry)
    → byte_comp pkt.src e.src_addr 16 ≡ true
    → byte_comp pkt.dest e.dest_addr 16 ≡ true
    → (fragment_identif pkt == e.identif) ≡ true
    → is_used e.frag_list ≡ true
    → check_reassembly_table
        (record { reassembly_table = e ∷ rest; reassembly_tab_size = 1 })
        pkt.src
        pkt.dest
        (fragment_identif pkt)
      ≡ some 0
unfolding check_reassembly_table find_entry is_used
check_reassembly_table-found pkt e rest src dest id used = rw (used, src, dest, id) refl

reassembly-found :
    (clktime : ℕ) (pkt : Packet) (e : ReassemblyEntry) (rest : List ReassemblyEntry)
    → byte_comp pkt.src e.src_addr 16 ≡ true
    → byte_comp pkt.dest e.dest_addr 16 ≡ true
    → (fragment_identif pkt == e.identif) ≡ true
    → is_used e.frag_list ≡ true
    → reassembly clktime pkt (record { reassembly_table = e ∷ rest; reassembly_tab_size = 1 })
      ≡ later_fragment pkt 0 e (record { reassembly_table = e ∷ rest; reassembly_tab_size = 1 })
unfolding reassembly
reassembly-found clktime pkt e rest src dest id used =
    rw (check_reassembly_table-found pkt e rest src dest id used, reassembly) refl

pub reassemble_all-none :
    (clktime : ℕ) (pkt : Packet) (pkts : List Packet) (st : ReassemblyState) {st' : ReassemblyState}
    → reassembly clktime pkt st ≡ (st', none)
    → reassemble_all clktime (pkt ∷ pkts) st ≡ reassemble_all clktime pkts st'
unfolding reassemble_all
reassemble_all-none clktime pkt pkts st e =
    rw (ap (λ p. p.1) e, reassemble_all) (ap (λ p. reassemble_all clktime pkts p.0) e)

pub reassemble_all-some :
    (clktime : ℕ) (pkt : Packet) (pkts : List Packet) (st : ReassemblyState) {st' : ReassemblyState}
    {out : Datagram}
    → reassembly clktime pkt st ≡ (st', some out)
    → reassemble_all clktime (pkt ∷ pkts) st ≡ (st', some out)
unfolding reassemble_all
reassemble_all-some clktime pkt pkts st {out = out} e =
    rw (ap (λ p. p.1) e, reassemble_all) (ap (λ p. (p.0, some out)) e)

module _ (clktime identif : ℕ) (d : Datagram) (p0 : Packet) (rest : List ReassemblyEntry) where
  abbrev pub entry : List FragDesc → ReassemblyEntry
  entry nodes = record {
    src_addr = d.headers.src;
    dest_addr = d.headers.dest;
    identif = identif;
    perfrag_headers = p0;
    frag_list = some nodes;
    next_header_in_fragment_header = d.headers.next_header;
    timestamp = clktime;
  }

  -- The table while the datagram is incomplete.
  abbrev pub open_state : List FragDesc → ReassemblyState
  open_state nodes = record { reassembly_table = entry nodes ∷ rest; reassembly_tab_size = 1 }

  abbrev pub closed_state : List FragDesc → ReassemblyState
  closed_state nodes = record {
    reassembly_table = cleared (entry nodes) ∷ rest;
    reassembly_tab_size = 0;
  }

  abbrev pub whole : Datagram
  whole = record {
    headers = update_datagram_headers p0 (length d.payload) d.headers.next_header;
    payload = d.payload;
  }

  module _ (small : length d.payload < 2 ^ 16) (id : identif < 2 ^ 32)
      (src : 16 ≤ length d.headers.src) (dest : 16 ≤ length d.headers.dest) where
    byte_comp_refl : (a : List ℕ) → 16 ≤ length a → byte_comp a a 16 ≡ true
    byte_comp_refl a h = byte_comp-eq-match a a 16 (omega arith) ∙ match_refl 16 a h

    same_id :
        (c : Cut)
        → c.frag_offset < 2 ^ 16
        → fragment_identif (fragment_packet d identif c) ≡ identif
    same_id c h = fragment_identif-fragment_packet d identif c h id

    -- The fragment finds its entry.
    reassembly-open :
        (c : Cut) (nodes : List FragDesc)
        → c.frag_offset < 2 ^ 16
        → reassembly clktime (fragment_packet d identif c) (open_state nodes)
          ≡ later_fragment (fragment_packet d identif c) 0 (entry nodes) (open_state nodes)
    unfolding fragment_packet is_used
    reassembly-open c nodes h =
        reassembly-found clktime (fragment_packet d identif c) (entry nodes) rest
          (byte_comp_refl d.headers.src src) (byte_comp_refl d.headers.dest dest)
          ((==_iff _ _).1 (same_id c h)) refl

    -- Its node becomes the last one.
    insert_frag_list-next :
        (c : Cut) (tail : FragDesc) (front : List FragDesc)
        → tail.offset + tail.payload_len ≡ c.frag_offset
        → c.frag_offset < 2 ^ 16
        → c.frag_offset % 8 ≡ 0
        → c.payload_len < 2 ^ 16
        → insert_frag_list (tail ∷ front) (fragment_packet d identif c)
          ≡ desc d.payload c ∷ tail ∷ front
    insert_frag_list-next c tail front from h eight len =
        rw (frag_desc-fragment_packet d identif c h eight len)
          (insert_node-later tail front (desc d.payload c) (omega (arith, from)))

    reassembly-more :
        (c : Cut) (tail : FragDesc) (front : List FragDesc)
        → tail.offset + tail.payload_len ≡ c.frag_offset
        → c.frag_offset < 2 ^ 16
        → c.frag_offset % 8 ≡ 0
        → c.payload_len < 2 ^ 16
        → c.m_flag ≡ true
        → reassembly clktime (fragment_packet d identif c) (open_state (tail ∷ front))
          ≡ (open_state (desc d.payload c ∷ tail ∷ front), none)
    unfolding later_fragment extend_entry
    reassembly-more c tail front from h eight len more =
        let last : is_last_fragment (fragment_packet d identif c) ≡ false =
          is_last_fragment-fragment_packet d identif c h eight ∙ ap not more in
        reassembly-open c (tail ∷ front) h
        ∙ rw (insert_frag_list-next c tail front from h eight len, last) refl

    reassembly-last :
        (c : Cut) (tail : FragDesc) (front : List FragDesc)
        → tail.offset + tail.payload_len ≡ c.frag_offset
        → c.frag_offset < 2 ^ 16
        → c.frag_offset % 8 ≡ 0
        → c.payload_len < 2 ^ 16
        → c.m_flag ≡ false
        → copy_nodes (first_to_last (desc d.payload c ∷ tail ∷ front) []) [] 0 ≡ some d.payload
        → reassembly clktime (fragment_packet d identif c) (open_state (tail ∷ front))
          ≡ (closed_state (desc d.payload c ∷ tail ∷ front), some whole)
    unfolding later_fragment extend_entry copy_to_datagram remove_rea_entry
    reassembly-last c tail front from h eight len done copied =
        let last : is_last_fragment (fragment_packet d identif c) ≡ true =
          is_last_fragment-fragment_packet d identif c h eight ∙ ap not done in
        reassembly-open c (tail ∷ front) h
        ∙ rw (insert_frag_list-next c tail front from h eight len, last, copied, extend_entry) refl

    -- The fragments after the first.
    pub reassemble_all-later :
        (at : ℕ) (c : Cut) (cs : List Cut) (tail : FragDesc) (front : List FragDesc)
        → Consecutive at (length d.payload) (c ∷ cs)
        → tail.offset + tail.payload_len ≡ at
        → copy_nodes
            (first_to_last (first_to_last (map (desc d.payload) (c ∷ cs)) (tail ∷ front)) [])
            []
            0
          ≡ some d.payload
        → (nodes : List FragDesc) × (reassemble_all clktime
              (map (fragment_packet d identif) (c ∷ cs))
              (open_state (tail ∷ front))
            ≡ (closed_state nodes, some whole))
    unfolding first_to_last
    reassemble_all-later at c [] tail front h from copied =
        let last : (length d.payload - (at + c.payload_len) == 0) ≡ true = ground (arith, h.4) in
        (
          desc d.payload c ∷ tail ∷ front,
          reassemble_all-some clktime (fragment_packet d identif c) [] (open_state (tail ∷ front)) (
              reassembly-last c tail front (omega (arith, h.0)) (omega (arith, h.0, h.4))
                (omega (arith, h.0, h.1)) (omega (arith, h.4)) (h.3 ∙ ap not last) copied),
        )
    reassemble_all-later at c (c' ∷ cs) tail front h from copied =
        let inside =
          Consecutive-le (at + c.payload_len + c'.payload_len) (length d.payload) cs h.4.4 in
        let more : (length d.payload - (at + c.payload_len) == 0) ≡ false =
          ground (arith, h.4.2, inside) in
        let (nodes, run) =
          reassemble_all-later (at + c.payload_len) c' cs (desc d.payload c) (tail ∷ front) h.4
            (omega (arith, h.0)) copied in
        (
          nodes,
          reassemble_all-none clktime (fragment_packet d identif c)
                (map (fragment_packet d identif) (c' ∷ cs)) (open_state (tail ∷ front))
                (reassembly-more c tail front (omega (arith, h.0)) (omega (arith, h.0, inside))
                  (omega (arith, h.0, h.1)) (omega (arith, inside)) (h.3 ∙ ap not more))
              ∙ run,
        )
