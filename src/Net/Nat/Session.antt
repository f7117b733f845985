-- ===== src/Net/Nat/Session.antt =====
-- What a translation opens: a session that its reply finds, beside those that are open, and a route
-- back. Entry 29 takes part in none.
use internetworking_nat_box.Base.{
  ℕ, suc, ◌+◌, ◌-◌, ◌%◌, ◌^◌, ◌<◌, ◌≡◌, refl, sym, ap, ◌∙◌, ◌≢◌, ◌⊎◌, inl, inr, true, none, some,
  List, arith, ◌==◌, leb, Bool-cases, Option-cases, Ensures, Ensures-bind, get_elem?,
  get_elem?-set_self, get_elem?-set_ne, All,
}
use native.Mathlib.Nat.{zero-add}
use internetworking_nat_box.Net.Bytes.{match_refl}
use internetworking_nat_box.Net.Packet.{
  Packet, identifier, set_identifier, echoreqsize, recompute_checksum,
}
use internetworking_nat_box.Net.Packet.Rewrite.{IsAddr}
use internetworking_nat_box.Net.Fwd.{
  FwdEntry, FwdTab, get_next_hop, get_next_avail_fwd_index, insert_new_fwd_tab_entry,
}
use internetworking_nat_box.Net.Fwd.Prefix.{SamePrefix}
use internetworking_nat_box.Net.Fwd.Lookup.{IsWhole}
use internetworking_nat_box.Net.Fwd.Insert.{
  IsFwdTab, insert-get_next_hop, insert_new_fwd_tab_entry_full, insert_new_fwd_tab_entry_free,
}
use internetworking_nat_box.Net.Nat.{
  NatState, minus_one, get_new_id, find_entry, translate, out_pkt_rw,
}
use internetworking_nat_box.Net.Nat.Invariant.{
  IsEcho, IsNat, find_entry-Numbered, translated, sent, new_nat_entry, out_pkt_rw-free,
  translated-IsNat,
}
use internetworking_nat_box.Net.Nat.Roundtrip.{identifier-checked}

-- The table is full and stays, or a lookup of the address finds an entry with all its bits.
abbrev pub HasRoute : List ℕ → FwdTab → FwdTab → Type 0
HasRoute addr tab tab' =
    ((get_next_avail_fwd_index tab ≡ none) × (tab' ≡ tab))
    ⊎ ((i : ℕ) × (e : FwdEntry) × (get_next_hop tab' addr ≡ some i)
        × (get_elem? tab' i ≡ some e)
        × SamePrefix 128 addr e.ip_addr)

insert-HasRoute :
    {addr : List ℕ} (a : IsAddr addr) (interface : ℕ) (tab : FwdTab)
    → IsFwdTab tab
    → All IsWhole tab
    → HasRoute addr tab (insert_new_fwd_tab_entry addr 128 addr interface tab).1
insert-HasRoute {addr} a interface tab v ws = elim (Option-cases (get_next_avail_fwd_index tab)) [
  | inl full ↦
      inl (full, ap (λ p. p.1) (insert_new_fwd_tab_entry_full addr 128 addr interface tab full))
  | inr (j, free) ↦
      let done = insert_new_fwd_tab_entry_free addr 128 addr interface tab free in
      let (i, e, got, at, covers, long) =
        insert-get_next_hop addr addr 128 addr interface tab v ws
          (record { eight = refl; most = omega arith; addr = a }) a done (omega arith)
          (λ i l. refl) in
      rw done (inr (i, e, got, at, (λ k l. covers.1 k (omega arith))))
]

-- The session of `pkt`, sent as `out`.
pub record Opened (interface : ℕ) (pkt out : Packet) (st st' : NatState) : Type 0 where
  pub found :
      find_entry st'.nat_tab (identifier out.payload) out.dest
      ≡ some (new_nat_entry interface pkt (identifier out.payload))
  pub others :
      (i : ℕ) → i ≢ identifier out.payload → get_elem? st'.nat_tab i ≡ get_elem? st.nat_tab i
  pub route : HasRoute pkt.src st.fwd_tab st'.fwd_tab

-- On a well-formed table with an identifier left, and a forwarding table of prefixes of whole bytes,
-- `outPktRW` ends and sends the packet with an identifier under which the reply's search finds the
-- packet's own session; every other entry of the table stays. It keeps the full forwarding table, or
-- a lookup of the sender's address finds an entry for all its 128 bits.
pub out_pkt_rw-Opened :
    {ipv6_addr : List ℕ} (a : IsAddr ipv6_addr) (interface : ℕ) {pkt : Packet} {st : NatState}
    → IsNat st
    → IsEcho pkt
    → All IsWhole st.fwd_tab
    → st.nat_id_counter < 29
    → (st' : NatState) × (out : Packet) × (out_pkt_rw ipv6_addr interface pkt st
        ≡ some (true, st', out))
      × Opened interface pkt out st st'
out_pkt_rw-Opened {ipv6_addr} a interface {pkt} {st} v e ws left =
    let c = st.nat_id_counter in
    let id = identifier-checked ipv6_addr pkt.dest pkt.payload c e.header (omega arith) in
    let v' = translated-IsNat interface pkt v left in
    let stored =
      get_elem?-set_self st.nat_tab c (new_nat_entry interface pkt c) (omega (arith, v.size)) in
    (
      translated interface pkt st,
      sent ipv6_addr pkt c,
      out_pkt_rw-free a interface st e left,
      record {
        found = rw id (
            ap (λ k. find_entry (translated interface pkt st).nat_tab k pkt.dest) (sym (zero-add c))
            ∙ find_entry-Numbered 0 c (suc c) (translated interface pkt st).nat_tab pkt.dest
                v'.numbered (omega arith) stored
                (match_refl 16 pkt.dest (omega (arith, e.dest.size))));
        others = λ i ne. get_elem?-set_ne st.nat_tab _ (λ same. ne (sym (id ∙ same)));
        route = insert-HasRoute e.src interface st.fwd_tab v.fwd ws;
      },
    )

-- Whatever its counter is, no defined call of `outPktRW` stores anything in entry 29 of `natTab`, the
-- last one, refusals included.
pub out_pkt_rw-unused :
    (ipv6_addr : List ℕ) (interface : ℕ) (pkt : Packet) (st : NatState)
    → Ensures
        (λ r. get_elem? r.1.nat_tab 29 ≡ get_elem? st.nat_tab 29)
        (out_pkt_rw ipv6_addr interface pkt st)
unfolding out_pkt_rw get_new_id translate
out_pkt_rw-unused ipv6_addr interface pkt st =
    let next = (st.nat_id_counter + 1) % 2 ^ 16 in
    elim (Bool-cases (next == 30)) [
      | inl refused ↦ rw refused refl
      | inr given ↦
          let id = (next + (2 ^ 16 - 1)) % 2 ^ 16 in
          let other : id ≢ 29 = λ same. absurd (ground arith) in
          rw given (elim (Bool-cases (id == minus_one)) [
            | inl wrapped ↦ rw wrapped refl
            | inr usable ↦ rw usable (elim (Bool-cases (leb 30 id)) [
              | inl outside ↦ rw outside tt
              | inr inside ↦ rw inside (
                  Ensures-bind (λ r. get_elem? r.1.nat_tab 29 ≡ get_elem? st.nat_tab 29)
                    (recompute_checksum ipv6_addr pkt.dest echoreqsize
                      (set_identifier pkt.payload id))
                    _ (λ msg e. get_elem?-set_ne st.nat_tab _ other))
            ])
          ])
    ]
