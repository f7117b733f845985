-- ===== src/Net/Nat/Safe.antt =====
-- The tables of the box under every defined call of `outPktRW`, refused ones included.
use internetworking_nat_box.Base.{
  ℕ, suc, ◌≤◌, ◌<◌, min, ◌≡◌, sym, ◌∙◌, inl, inr, Bool, false, List, arith, ltb, leb, ◌==◌, ltb→lt,
  ==_iff, Bool-cases, Ensures, Ensures-bind, length, set, length-set,
}
use mathlib.Core.Path.{subst}
use internetworking_nat_box.Net.Packet.{Packet, set_identifier, recompute_checksum}
use internetworking_nat_box.Net.Fwd.Insert.{IsFwdTab, insert_new_fwd_tab_entry-IsFwdTab}
use internetworking_nat_box.Net.Nat.{NatState, translate, out_pkt_rw}
use internetworking_nat_box.Net.Nat.Invariant.{
  Numbered, Numbered-set, translated, new_nat_entry, out_pkt_rw-translate, out_pkt_rw-refused,
  out_pkt_rw-overrun,
}

-- The counter is at most one past the last usable identifier, and the entries below it translate to
-- their own index.
pub record IsSafe (st : NatState) : Type 0 where
  pub size : length st.nat_tab ≡ 30
  pub counter : st.nat_id_counter ≤ 30
  pub numbered : Numbered 0 (min st.nat_id_counter 29) st.nat_tab
  pub fwd : IsFwdTab st.fwd_tab

abbrev pub SafeAfter : Bool × NatState × Packet → Type 0
SafeAfter (_, st, _) = IsSafe st

translated-IsSafe :
    (interface : ℕ) (pkt : Packet) (st : NatState)
    → IsSafe st
    → st.nat_id_counter < 29
    → IsSafe (translated interface pkt st)
translated-IsSafe interface pkt st v h =
    let below : min st.nat_id_counter 29 ≡ st.nat_id_counter = omega arith in
    let after : suc st.nat_id_counter ≡ min (suc st.nat_id_counter) 29 = omega arith in
    let tab = set st.nat_tab st.nat_id_counter (new_nat_entry interface pkt st.nat_id_counter) in
    record {
      size = length-set st.nat_tab st.nat_id_counter _ ∙ v.size;
      counter = omega arith;
      numbered =
          subst (λ n. Numbered 0 n tab) after
            (Numbered-set 0 st.nat_id_counter st.nat_tab _
              (subst (λ n. Numbered 0 n st.nat_tab) below v.numbered) (omega (arith, v.size))
              (omega arith));
      fwd = insert_new_fwd_tab_entry-IsFwdTab pkt.src 128 pkt.src interface st.fwd_tab v.fwd;
    }

translate-IsSafe :
    (ipv6_addr : List ℕ) (interface : ℕ) (pkt : Packet) (st : NatState)
    → IsSafe st
    → st.nat_id_counter < 29
    → Ensures SafeAfter (
        translate ipv6_addr interface pkt
          (record st { nat_id_counter = suc st.nat_id_counter })
          st.nat_id_counter)
unfolding translate
translate-IsSafe ipv6_addr interface pkt st v h =
    let inside : leb 30 st.nat_id_counter ≡ false = ground arith in
    rw inside (
      Ensures-bind SafeAfter
        (recompute_checksum ipv6_addr pkt.dest 8 (set_identifier pkt.payload st.nat_id_counter)) _
        (λ msg e. translated-IsSafe interface pkt st v h))

-- Every call of `outPktRW` that C defines leaves the tables well formed.
pub out_pkt_rw-IsSafe :
    (ipv6_addr : List ℕ) (interface : ℕ) (pkt : Packet) (st : NatState)
    → IsSafe st
    → Ensures SafeAfter (out_pkt_rw ipv6_addr interface pkt st)
out_pkt_rw-IsSafe ipv6_addr interface pkt st v = elim (Bool-cases (ltb st.nat_id_counter 29)) [
  | inl free ↦
      let lt : st.nat_id_counter < 29 = ltb→lt _ _ free in
      subst (Ensures SafeAfter) (sym (out_pkt_rw-translate ipv6_addr interface pkt st lt))
        (translate-IsSafe ipv6_addr interface pkt st v lt)
  | inr full ↦ elim (Bool-cases (st.nat_id_counter == 29)) [
    | inl last ↦ rw (out_pkt_rw-refused ipv6_addr interface pkt st ((==_iff _ _).0 last)) (record {
      size = v.size;
      counter = omega arith;
      numbered =
          let same : min st.nat_id_counter 29 ≡ 29 = ground arith in
          subst (λ n. Numbered 0 n st.nat_tab) same v.numbered;
      fwd = v.fwd;
    })
    | inr over ↦
        rw
          (out_pkt_rw-overrun ipv6_addr interface pkt st (ground (arith, v.counter))
            (ground (arith, v.counter)))
          tt
  ]
]
