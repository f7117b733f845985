-- ===== src/Net/Reassembly/Steps.antt =====
-- Every operation on the reassembly table keeps its size right.
use internetworking_nat_box.Base.{
  ℕ, zero, suc, ◌+◌, ◌-◌, ◌%◌, ◌^◌, ◌<◌, ◌≡◌, refl, sym, ap, ◌∙◌, inl, inr, Bool, true, false, not,
  ◌&&◌, some, List, [], ◌∷◌, arith, leb, ◌==◌, Bool-cases, Option-cases, eq_of_some, length,
  get_elem?, set, length-set, get_elem?-set_self,
}
use internetworking_nat_box.Net.Packet.{Packet}
use internetworking_nat_box.Net.Reassembly.{
  FragDesc, ReassemblyEntry, ReassemblyState, reassembly_max_time, fragment_offset,
  fragment_identif, is_last_fragment, insert_frag_list, copy_to_datagram,
}
use internetworking_nat_box.Net.Reassembly.Table.{
  is_used, check_reassembly_table, hole_from, find_hole, first_entry, append_rea_table, cleared,
  remove_rea_entry, time_out, check_reassembly_time_out, extend_entry, later_fragment, reassembly,
}
use internetworking_nat_box.Net.Reassembly.Count.{
  used_count, IsCounted, used_count-le, used_count-set_same, used_count-set_used,
  used_count-set_free,
}

-- A hole is an unused entry.
hole_from_here :
    (e : ReassemblyEntry) (table : List ReassemblyEntry) (i : ℕ)
    → (not (is_used e.frag_list) && (e.timestamp == 0)) ≡ true
    → hole_from (e ∷ table) i ≡ some i
unfolding hole_from is_used
hole_from_here e table i hole = rw hole refl

hole_from_further :
    (e : ReassemblyEntry) (table : List ReassemblyEntry) (i : ℕ)
    → (not (is_used e.frag_list) && (e.timestamp == 0)) ≡ false
    → hole_from (e ∷ table) i ≡ hole_from table (suc i)
unfolding hole_from is_used
hole_from_further e table i taken = rw taken refl

unused_of_hole : (used zero_time : Bool) → (not used && zero_time) ≡ true → used ≡ false
unused_of_hole true t h = sym h
unused_of_hole false t h = refl

pub hole_from-unused :
    (table : List ReassemblyEntry) (i : ℕ) {j : ℕ}
    → hole_from table i ≡ some j
    → (k : ℕ) × (e : ReassemblyEntry) × (j ≡ i + k)
      × (get_elem? table k ≡ some e)
      × (is_used e.frag_list ≡ false)
unfolding hole_from
hole_from-unused [] i found = cc
hole_from-unused (e ∷ table) i {j} found =
    elim (Bool-cases (not (is_used e.frag_list) && (e.timestamp == 0))) [
      | inl hole ↦
          let here : i ≡ j = eq_of_some (sym (hole_from_here e table i hole) ∙ found) in
          (zero, e, omega arith, refl, unused_of_hole (is_used e.frag_list) (e.timestamp == 0) hole)
      | inr taken ↦
          let (k, d, at, got, free) =
            hole_from-unused table (suc i) (sym (hole_from_further e table i taken) ∙ found) in
          (suc k, d, omega arith, got, free)
    ]

pub append_rea_table-IsCounted :
    (clktime : ℕ) (pkt : Packet) (st : ReassemblyState)
    → IsCounted st
    → IsCounted (append_rea_table clktime pkt st)
unfolding append_rea_table find_hole is_used
append_rea_table-IsCounted clktime pkt st v =
    elim (Option-cases (hole_from st.reassembly_table 0)) [
      | inl full ↦ rw (full, append_rea_table) v
      | inr (j, found) ↦
          let (k, e, at, got, free) = hole_from-unused st.reassembly_table 0 found in
          let here : j ≡ k = omega arith in
          let more =
            used_count-set_used st.reassembly_table j (first_entry clktime pkt)
              (ap (get_elem? st.reassembly_table) here ∙ got) free refl in
          rw (found, append_rea_table)
            (record {
              size =
                  omega (arith, v.size, length-set st.reassembly_table j (first_entry clktime pkt));
              counted = omega (
                arith,
                v.counted,
                v.size,
                more,
                used_count-le (set st.reassembly_table j (first_entry clktime pkt)),
                length-set st.reassembly_table j (first_entry clktime pkt),
              );
            })
    ]

pub get_elem?-lt :
    (table : List ReassemblyEntry) (i : ℕ) {e : ReassemblyEntry}
    → get_elem? table i ≡ some e
    → i < length table
get_elem?-lt [] i got = cc
get_elem?-lt (d ∷ table) zero got = omega arith
get_elem?-lt (d ∷ table) (suc i) got = omega (arith, get_elem?-lt table i got)

-- An entry that stays in use, and one that is removed.
pub replaced-IsCounted :
    (index : ℕ) (e e' : ReassemblyEntry) (st : ReassemblyState)
    → get_elem? st.reassembly_table index ≡ some e
    → is_used e.frag_list ≡ is_used e'.frag_list
    → IsCounted st
    → IsCounted (record st { reassembly_table = set st.reassembly_table index e' })
replaced-IsCounted index e e' st got same v = record {
  size = omega (arith, v.size, length-set st.reassembly_table index e');
  counted = v.counted ∙ sym (used_count-set_same st.reassembly_table index e' got same);
}

pub remove_rea_entry-IsCounted :
    (index : ℕ) (e : ReassemblyEntry) (st : ReassemblyState)
    → get_elem? st.reassembly_table index ≡ some e
    → is_used e.frag_list ≡ true
    → IsCounted st
    → IsCounted (remove_rea_entry index e st)
unfolding remove_rea_entry is_used
remove_rea_entry-IsCounted index e st got used v =
    let less = used_count-set_free st.reassembly_table index (cleared e) got used refl in
    let bound = used_count-le st.reassembly_table in
    record {
      size = omega (arith, v.size, length-set st.reassembly_table index (cleared e));
      counted = omega (arith, v.counted, v.size, less, bound);
    }

pub extend_entry-IsCounted :
    (pkt : Packet) (index : ℕ) (e : ReassemblyEntry) (nodes : List FragDesc) (st : ReassemblyState)
    → get_elem? st.reassembly_table index ≡ some e
    → is_used e.frag_list ≡ true
    → IsCounted st
    → IsCounted (extend_entry pkt index e nodes st).0
unfolding extend_entry is_used
extend_entry-IsCounted pkt index e nodes st got used v =
    let nodes' = insert_frag_list nodes pkt in
    let e' = record e { frag_list = some nodes' } in
    let st' = record st { reassembly_table = set st.reassembly_table index e' } in
    let v' : IsCounted st' = replaced-IsCounted index e e' st got used v in
    let got' : get_elem? st'.reassembly_table index ≡ some e' =
      get_elem?-set_self st.reassembly_table index e'
        (get_elem?-lt st.reassembly_table index got) in
    elim (Bool-cases (is_last_fragment pkt)) [
      | inl last ↦ elim (Option-cases (copy_to_datagram e' nodes')) [
        | inl gap ↦ rw (last, gap, extend_entry) v'
        | inr (datagram, whole) ↦
            rw (last, whole, extend_entry) (remove_rea_entry-IsCounted index e' st' got' refl v')
      ]
      | inr more ↦ rw more v'
    ]

pub later_fragment-IsCounted :
    (pkt : Packet) (index : ℕ) (e : ReassemblyEntry) (st : ReassemblyState)
    → get_elem? st.reassembly_table index ≡ some e
    → IsCounted st
    → IsCounted (later_fragment pkt index e st).0
unfolding later_fragment is_used
later_fragment-IsCounted pkt index e st got v = elim (Option-cases e.frag_list) [
  | inl unused ↦ rw (unused, later_fragment) v
  | inr (nodes, used) ↦
      rw (used, later_fragment)
        (extend_entry-IsCounted pkt index e nodes st got (ap is_used used) v)
]

time_out-count :
    (clktime : ℕ) (table : List ReassemblyEntry)
    → (used_count (time_out clktime table).0 + (time_out clktime table).1 ≡ used_count table)
      × (length (time_out clktime table).0 ≡ length table)
unfolding time_out used_count is_used
time_out-count clktime [] = (refl, refl)
time_out-count clktime (e ∷ table) =
    let (count, same) = time_out-count clktime table in
    elim (Bool-cases (is_used e.frag_list)) [
      | inl used ↦
          elim (Bool-cases (
            not (e.timestamp == 0)
            && leb reassembly_max_time ((clktime + 2 ^ 32 - e.timestamp) % 2 ^ 32))) [
              | inl old ↦ rw (used, old) (omega (arith, count), omega (arith, same))
              | inr young ↦ rw (used, young, used) (omega (arith, count), omega (arith, same))
            ]
      | inr unused ↦ rw (unused, unused) (count, omega (arith, same))
    ]

-- On a table of fewer than 256 entries whose `reassembly_tab_size` counts the entries in use,
-- `check_reassembly_time_out` keeps both, whatever it removes.
pub check_reassembly_time_out-IsCounted :
    (clktime : ℕ) (st : ReassemblyState)
    → IsCounted st
    → IsCounted (check_reassembly_time_out clktime st)
unfolding check_reassembly_time_out
check_reassembly_time_out-IsCounted clktime st v =
    let (count, same) = time_out-count clktime st.reassembly_table in
    let bound = used_count-le st.reassembly_table in
    record {
      size = omega (arith, v.size, same);
      counted = omega (arith, v.counted, v.size, count, bound);
    }

-- So does `reassembly` of any packet.
pub reassembly-IsCounted :
    (clktime : ℕ) (pkt : Packet) (st : ReassemblyState)
    → IsCounted st
    → IsCounted (reassembly clktime pkt st).0
unfolding reassembly
reassembly-IsCounted clktime pkt st v =
    elim (Option-cases (check_reassembly_table st pkt.src pkt.dest (fragment_identif pkt))) [
      | inl unknown ↦ elim (Bool-cases (fragment_offset pkt == 0)) [
        | inl first ↦ rw (unknown, first, reassembly) (append_rea_table-IsCounted clktime pkt st v)
        | inr late ↦ rw (unknown, late, reassembly) v
      ]
      | inr (index, known) ↦ elim (Option-cases (get_elem? st.reassembly_table index)) [
        | inl outside ↦ rw (known, outside, reassembly) v
        | inr (e, got) ↦ rw (known, got, reassembly) (later_fragment-IsCounted pkt index e st got v)
      ]
    ]
