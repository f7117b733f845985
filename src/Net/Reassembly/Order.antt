-- ===== src/Net/Reassembly/Order.antt =====
-- The fragments of one datagram, in the order of sending, fit together again.
use internetworking_nat_box.Base.{
  ℕ, ◌+◌, ◌-◌, ◌*◌, ◌/◌, ◌%◌, ◌^◌, ◌≤◌, ◌<◌, ◌≡◌, refl, ap, ◌∙◌, inl, inr, true, not, some, List,
  [], ◌∷◌, ◌++◌, map, arith, ◌==◌, Bool-cases, length, take, drop, take-take, take_all, drop_all,
  length-take_le, take-append_take-drop,
}
use mathlib.Core.List.{append-nil}
use internetworking_nat_box.Net.Fragment.{
  Datagram, Cut, fragment_packet, fill_fragment_header, offset_field,
}
use internetworking_nat_box.Net.Fragment.Cuts.{Consecutive}
use internetworking_nat_box.Net.Reassembly.{
  FragDesc, frag_desc, fragment_offset, fragment_identif, is_last_fragment, insert_back,
  insert_node, write_at, copy_nodes, first_to_last,
}

pub Consecutive-le : (at end : ℕ) (cs : List Cut) → Consecutive at end cs → at ≤ end
Consecutive-le at end [] h = omega arith
Consecutive-le at end (c ∷ cs) h = omega (arith, Consecutive-le (at + c.payload_len) end cs h.4)

-- The node that a cut becomes.
abbrev pub desc : List ℕ → Cut → FragDesc
desc bytes c = record {
  offset = c.frag_offset;
  payload_len = c.payload_len;
  payload = take c.payload_len (drop c.frag_offset bytes);
}

module _ (d : Datagram) (identif : ℕ) (c : Cut) (small : c.frag_offset < 2 ^ 16) where
  pub fragment_identif-fragment_packet :
      identif < 2 ^ 32 → fragment_identif (fragment_packet d identif c) ≡ identif
  unfolding fragment_packet fill_fragment_header
  fragment_identif-fragment_packet h = omega arith

  module _ (aligned : c.frag_offset % 8 ≡ 0) where
    field :
        (offset_field c.frag_offset c.m_flag / 2 * 2 ≡ c.frag_offset)
        × ((offset_field c.frag_offset c.m_flag % 2 == 0) ≡ not c.m_flag)
    field = elim (Bool-cases c.m_flag) [
      | inl more ↦ rw more (omega arith, ground arith)
      | inr last ↦ rw last (omega arith, ground arith)
    ]

    pub fragment_offset-fragment_packet :
        fragment_offset (fragment_packet d identif c) ≡ c.frag_offset
    unfolding fragment_packet fill_fragment_header
    fragment_offset-fragment_packet = omega (arith, field.0)

    pub is_last_fragment-fragment_packet :
        is_last_fragment (fragment_packet d identif c) ≡ not c.m_flag
    unfolding fragment_packet fill_fragment_header
    is_last_fragment-fragment_packet =
        let joined : offset_field c.frag_offset c.m_flag / 256 * 256
              + offset_field c.frag_offset c.m_flag % 256
            ≡ offset_field c.frag_offset c.m_flag =
          omega arith in
        rw joined field.1

    pub frag_desc-fragment_packet :
        c.payload_len < 2 ^ 16 → frag_desc (fragment_packet d identif c) ≡ desc d.payload c
    unfolding fragment_packet fill_fragment_header frag_desc
    frag_desc-fragment_packet h =
        let len : (8 + c.payload_len + 2 ^ 16 - 8) % 2 ^ 16 ≡ c.payload_len = omega arith in
        let joined : offset_field c.frag_offset c.m_flag / 256 * 256
              + offset_field c.frag_offset c.m_flag % 256
            ≡ offset_field c.frag_offset c.m_flag =
          omega arith in
        rw (len, joined, field.0, take-take c.payload_len (drop c.frag_offset d.payload)) refl

-- A node that begins where the last one ends, or later, becomes the last one.
pub insert_node-later :
    (tail : FragDesc) (front : List FragDesc) (new : FragDesc)
    → tail.offset + tail.payload_len ≤ new.offset
    → insert_node (tail ∷ front) new ≡ new ∷ tail ∷ front
unfolding insert_node insert_back
insert_node-later tail front new h = ground arith

write_at-take :
    (bytes : List ℕ) (at len : ℕ)
    → write_at (take at bytes) at (take len (drop at bytes)) ≡ take (at + len) bytes
write_at-take bytes at len =
    rw
      (
        take-take at bytes,
        drop_all (at + length (take len (drop at bytes))) (take at bytes)
            (omega (arith, length-take_le at bytes)),
        append-nil (take len (drop at bytes)),
      )
      (take-append_take-drop at len bytes)

pub copy_nodes-Consecutive :
    (bytes : List ℕ) (at : ℕ) (cs : List Cut)
    → length bytes < 2 ^ 16
    → Consecutive at (length bytes) cs
    → copy_nodes (map (desc bytes) cs) (take at bytes) at ≡ some bytes
unfolding copy_nodes
copy_nodes-Consecutive bytes at [] small h =
    ap some (take-take at bytes ∙ take_all at bytes (omega arith))
copy_nodes-Consecutive bytes at (c ∷ cs) small h =
    let inside = Consecutive-le (at + c.payload_len) (length bytes) cs h.4 in
    let same : (at == c.frag_offset) ≡ true = ground (arith, h.0) in
    let next : (at + c.payload_len) % 2 ^ 16 ≡ at + c.payload_len = omega arith in
    rw (same, next, h.0, write_at-take bytes at c.payload_len)
      (copy_nodes-Consecutive bytes (at + c.payload_len) cs small h.4)

first_to_last-first_to_last :
    (xs ys zs : List FragDesc)
    → first_to_last (first_to_last xs ys) zs ≡ first_to_last ys (xs ++ zs)
unfolding first_to_last
first_to_last-first_to_last [] ys zs = refl
first_to_last-first_to_last (x ∷ xs) ys zs = first_to_last-first_to_last xs (x ∷ ys) zs

-- The list that the fragments after the first leave, read from the front.
pub first_to_last_lem :
    (first : FragDesc) (xs : List FragDesc)
    → first_to_last (first_to_last xs (first ∷ [])) [] ≡ first ∷ xs
unfolding first_to_last
first_to_last_lem first xs =
    first_to_last-first_to_last xs (first ∷ []) [] ∙ ap (λ l. first ∷ l) (append-nil xs)
