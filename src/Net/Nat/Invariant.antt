-- ===== src/Net/Nat/Invariant.antt =====
-- The invariant of the translation table, and what each outcome of `outPktRW` does to it.
use internetworking_nat_box.Base.{
  ℕ, zero, suc, ◌+◌, ◌-◌, ◌^◌, ◌≤◌, ◌<◌, ◌≡◌, ◌∙◌, true, false, none, some, List, [], ◌∷◌, arith,
  leb, ◌==◌, length, get_elem?, set, All, length-set,
}
use internetworking_nat_box.Net.Bytes.{match}
use internetworking_nat_box.Net.Packet.{Packet, identifier, set_identifier}
use internetworking_nat_box.Net.Packet.Rewrite.{
  IsAddr, checked, recompute_checksum_lem, length-write16,
}
use internetworking_nat_box.Net.Checksum.Sum.{IsByte, write16-IsByte}
use internetworking_nat_box.Net.Fwd.{insert_new_fwd_tab_entry}
use internetworking_nat_box.Net.Fwd.Insert.{IsFwdTab, insert_new_fwd_tab_entry-IsFwdTab}
use internetworking_nat_box.Net.Nat.{
  NatEntry, NatState, minus_one, get_new_id, find_entry, translate, out_pkt_rw,
}

-- A received echo message: whole addresses and an ICMPv6 header.
pub record IsEcho (pkt : Packet) : Type 0 where
  pub src : IsAddr pkt.src
  pub dest : IsAddr pkt.dest
  pub bytes : All IsByte pkt.payload
  pub header : 8 ≤ length pkt.payload

-- The first `n` entries translate to `i`, `i + 1`, ...
abbrev pub Numbered : ℕ → ℕ → List NatEntry → Type 0
Numbered i zero tab = Unit
Numbered i (suc n) [] = ⊥
Numbered i (suc n) (e ∷ tab) = (e.trans_id ≡ i) × Numbered (suc i) n tab

-- The table as `outPktRW` leaves it until it has refused a packet.
pub record IsNat (st : NatState) : Type 0 where
  pub size : length st.nat_tab ≡ 30
  pub counter : st.nat_id_counter ≤ 29
  pub numbered : Numbered 0 st.nat_id_counter st.nat_tab
  pub fwd : IsFwdTab st.fwd_tab

pub Numbered-set :
    (i n : ℕ) (tab : List NatEntry) (e : NatEntry)
    → Numbered i n tab
    → n < length tab
    → e.trans_id ≡ i + n
    → Numbered i (suc n) (set tab n e)
Numbered-set i zero [] e h l t = absurd (omega arith)
Numbered-set i (suc n) [] e h l t = absurd (omega arith)
Numbered-set i zero (d ∷ tab) e h l t = (omega arith, tt)
Numbered-set i (suc n) (d ∷ tab) e h l t =
    (h.0, Numbered-set (suc i) n tab e h.1 (omega arith) (omega arith))

-- Entry `n` is the first with its translated identifier.
pub find_entry-Numbered :
    (i n m : ℕ) (tab : List NatEntry) (from : List ℕ) {e : NatEntry}
    → Numbered i m tab
    → n < m
    → get_elem? tab n ≡ some e
    → match e.dest from 16 ≡ true
    → find_entry tab (i + n) from ≡ some e
unfolding find_entry
find_entry-Numbered i n zero tab from h l g k = absurd (omega arith)
find_entry-Numbered i n (suc m) [] from h l g k = absurd h
find_entry-Numbered i zero (suc m) (d ∷ tab) from h l g k = ground arith
find_entry-Numbered i (suc n) (suc m) (d ∷ tab) from h l g k =
    let other : (d.trans_id == i + suc n) ≡ false = ground arith in
    let next : i + suc n ≡ suc i + n = omega arith in
    rw other (rw next (find_entry-Numbered (suc i) n m tab from h.1 (omega arith) g k))

pub get_new_id-lt : (c : ℕ) → c < 29 → get_new_id c ≡ (suc c, c)
unfolding get_new_id
get_new_id-lt c h = ground arith

-- What a translation leaves: the new state and the rewritten packet.
abbrev pub new_nat_entry : ℕ → Packet → ℕ → NatEntry
new_nat_entry interface pkt id = record {
  src = pkt.src;
  dest = pkt.dest;
  iface = interface;
  src_id = identifier pkt.payload;
  trans_id = id;
}

abbrev pub translated : ℕ → Packet → NatState → NatState
translated interface pkt st = record {
  nat_tab = set st.nat_tab st.nat_id_counter (new_nat_entry interface pkt st.nat_id_counter);
  nat_id_counter = suc st.nat_id_counter;
  fwd_tab = (insert_new_fwd_tab_entry pkt.src 128 pkt.src interface st.fwd_tab).1;
}

abbrev pub sent : List ℕ → Packet → ℕ → Packet
sent ipv6_addr pkt id = record pkt {
  src = ipv6_addr;
  payload = checked ipv6_addr pkt.dest (set_identifier pkt.payload id) 4;
}

-- The step from `getNewID` on, for an identifier inside the table.
translate_lem :
    {ipv6_addr : List ℕ} (a : IsAddr ipv6_addr) (interface : ℕ) {pkt : Packet} (st : NatState)
    (id : ℕ)
    → IsEcho pkt
    → id < 30
    → translate ipv6_addr interface pkt st id
      ≡ some (
        true,
        record st {
          nat_tab = set st.nat_tab id (new_nat_entry interface pkt id);
          fwd_tab = (insert_new_fwd_tab_entry pkt.src 128 pkt.src interface st.fwd_tab).1;
        },
        sent ipv6_addr pkt id,
      )
unfolding translate
translate_lem a interface {pkt} st id v h =
    let inside : leb 30 id ≡ false = ground arith in
    rw (
      inside,
      recompute_checksum_lem a v.dest (set_identifier pkt.payload id) 4 (omega arith)
          (omega (arith, length-write16 pkt.payload 4 id, v.header)) (omega arith)
          (write16-IsByte pkt.payload 4 id v.bytes),
    )

pub out_pkt_rw-translate :
    (ipv6_addr : List ℕ) (interface : ℕ) (pkt : Packet) (st : NatState)
    → st.nat_id_counter < 29
    → out_pkt_rw ipv6_addr interface pkt st
      ≡ translate ipv6_addr interface pkt
          (record st { nat_id_counter = suc st.nat_id_counter })
          st.nat_id_counter
unfolding out_pkt_rw
out_pkt_rw-translate ipv6_addr interface pkt st h =
    let usable : (st.nat_id_counter == minus_one) ≡ false = ground arith in
    rw (get_new_id-lt st.nat_id_counter h, usable)

-- The outcome while identifiers are left.
pub out_pkt_rw-free :
    {ipv6_addr : List ℕ} (a : IsAddr ipv6_addr) (interface : ℕ) {pkt : Packet} (st : NatState)
    → IsEcho pkt
    → st.nat_id_counter < 29
    → out_pkt_rw ipv6_addr interface pkt st
      ≡ some (true, translated interface pkt st, sent ipv6_addr pkt st.nat_id_counter)
out_pkt_rw-free {ipv6_addr} a interface {pkt} st v h =
    out_pkt_rw-translate ipv6_addr interface pkt st h
    ∙ translate_lem a interface (record st { nat_id_counter = suc st.nat_id_counter })
        st.nat_id_counter v (omega arith)

-- The 30th packet is refused and left as it is.
pub out_pkt_rw-refused :
    (ipv6_addr : List ℕ) (interface : ℕ) (pkt : Packet) (st : NatState)
    → st.nat_id_counter ≡ 29
    → out_pkt_rw ipv6_addr interface pkt st ≡ some (false, record st { nat_id_counter = 30 }, pkt)
unfolding out_pkt_rw get_new_id
out_pkt_rw-refused ipv6_addr interface pkt st h = rw h

-- The packet after a refused one is stored outside `natTab`, and so is every later one until the
-- counter wraps.
pub out_pkt_rw-overrun :
    (ipv6_addr : List ℕ) (interface : ℕ) (pkt : Packet) (st : NatState)
    → 30 ≤ st.nat_id_counter
    → st.nat_id_counter < 2 ^ 16 - 1
    → out_pkt_rw ipv6_addr interface pkt st ≡ none
unfolding out_pkt_rw get_new_id translate
out_pkt_rw-overrun ipv6_addr interface pkt st low high = ground arith

-- The table stays well formed under each translation.
pub translated-IsNat :
    (interface : ℕ) (pkt : Packet) {st : NatState}
    → IsNat st
    → st.nat_id_counter < 29
    → IsNat (translated interface pkt st)
translated-IsNat interface pkt {st} v h = record {
  size = length-set st.nat_tab st.nat_id_counter _ ∙ v.size;
  counter = h;
  numbered =
      Numbered-set 0 st.nat_id_counter st.nat_tab (new_nat_entry interface pkt st.nat_id_counter)
        v.numbered (omega (arith, v.size)) (omega arith);
  fwd = insert_new_fwd_tab_entry-IsFwdTab pkt.src 128 pkt.src interface st.fwd_tab v.fwd;
}
