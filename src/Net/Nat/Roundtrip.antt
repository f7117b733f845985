-- ===== src/Net/Nat/Roundtrip.antt =====
-- A reply to a translated packet finds its way back, whatever was translated in between.
use internetworking_nat_box.Base.{
  ℕ, ◌+◌, ◌^◌, ◌≤◌, ◌<◌, ◌≡◌, refl, sym, ap, ◌∙◌, inl, inr, true, some, List, arith, ◌==◌, ==_iff,
  Bool-cases, eq_of_some, length, get_elem?, get_elem?-set_self, get_elem?-set_ne,
}
use mathlib.Core.Path.{subst}
use internetworking_nat_box.Net.Bytes.{match, match_refl}
use internetworking_nat_box.Net.Packet.{Packet, identifier, seq_number, set_identifier}
use internetworking_nat_box.Net.Packet.Rewrite.{
  IsAddr, checked, recompute_checksum_lem, length-write16, read16-write16_self, read16-write16_ne,
}
use internetworking_nat_box.Net.Checksum.{write16}
use internetworking_nat_box.Net.Checksum.Sum.{read16-lt, write16-IsByte}
use internetworking_nat_box.Net.Nat.{NatEntry, NatState, find_entry, inc_pkt_rw, out_pkt_rw}
use internetworking_nat_box.Net.Nat.Invariant.{
  IsEcho, IsNat, find_entry-Numbered, translated, sent, new_nat_entry, out_pkt_rw-free,
  out_pkt_rw-refused, translated-IsNat,
}

-- The identifier survives the checksum.
pub identifier-checked :
    (src dest msg : List ℕ) (id : ℕ)
    → 8 ≤ length msg
    → id < 2 ^ 16
    → identifier (checked src dest (set_identifier msg id) 4) ≡ id
identifier-checked src dest msg id h s =
    read16-write16_ne (write16 (set_identifier msg id) 2 0) 2 4 _ (omega arith)
    ∙ read16-write16_ne (set_identifier msg id) 2 4 0 (omega arith)
    ∙ read16-write16_self msg 4 id (omega arith) s

seq_number-checked :
    (src dest msg : List ℕ) (id : ℕ)
    → seq_number (checked src dest (set_identifier msg id) 4) ≡ seq_number msg
seq_number-checked src dest msg id =
    read16-write16_ne (write16 (set_identifier msg id) 2 0) 2 6 _ (omega arith)
    ∙ read16-write16_ne (set_identifier msg id) 2 6 0 (omega arith)
    ∙ read16-write16_ne msg 4 6 id (omega arith)

module _ {ipv6_addr : List ℕ} (a : IsAddr ipv6_addr) where
  -- A successful call had an identifier left, and did what `out_pkt_rw-free` says.
  record Translated (interface : ℕ) (pkt : Packet) (st st' : NatState) (pkt' : Packet)
      : Type 0 where
    free : st.nat_id_counter < 29
    state : st' ≡ translated interface pkt st
    packet : pkt' ≡ sent ipv6_addr pkt st.nat_id_counter

  out_pkt_rw-Translated :
      (interface : ℕ) {pkt : Packet} {st st' : NatState} {pkt' : Packet}
      → IsNat st
      → IsEcho pkt
      → out_pkt_rw ipv6_addr interface pkt st ≡ some (true, st', pkt')
      → Translated interface pkt st st' pkt'
  out_pkt_rw-Translated interface {pkt} {st} {st'} {pkt'} v e done =
      elim (Bool-cases (st.nat_id_counter == 29)) [
        | inl last ↦ cc (out_pkt_rw-refused ipv6_addr interface pkt st ((==_iff _ _).0 last))
        | inr more ↦
            let free : st.nat_id_counter < 29 = ground (arith, v.counter) in
            let same = eq_of_some (sym done ∙ out_pkt_rw-free a interface st e free) in
            record { free = free; state = ap (λ t. t.1) same; packet = ap (λ t. t.2) same }
      ]

  -- Any number of packets that are translated one after the other.
  pub data Sends : NatState → NatState → Type 0 where
    stop : {st : NatState} → Sends st st
    send :
        {st st' st'' : NatState} (interface : ℕ) (pkt : Packet) {pkt' : Packet}
        → IsEcho pkt
        → out_pkt_rw ipv6_addr interface pkt st ≡ some (true, st', pkt')
        → Sends st' st''
        → Sends st st''

  -- An entry in use stays as it is.
  record Kept (n : ℕ) (e : NatEntry) (st : NatState) : Type 0 where
    valid : IsNat st
    used : n < st.nat_id_counter
    entry : get_elem? st.nat_tab n ≡ some e

  Kept-translated :
      (interface : ℕ) (pkt : Packet) {n : ℕ} {e : NatEntry} {st : NatState}
      → st.nat_id_counter < 29
      → Kept n e st
      → Kept n e (translated interface pkt st)
  Kept-translated interface pkt {n} {e} {st} free k = record {
    valid = translated-IsNat interface pkt k.valid free;
    used = omega (arith, k.used);
    entry = get_elem?-set_ne st.nat_tab _ (omega (arith, k.used)) ∙ k.entry;
  }

  Kept-Sends :
      {n : ℕ} {e : NatEntry} {st st' : NatState} → Sends st st' → Kept n e st → Kept n e st'
  Kept-Sends stop k = k
  Kept-Sends {n} {e} (send interface pkt echo done rest) k =
      let t = out_pkt_rw-Translated interface k.valid echo done in
      Kept-Sends rest (subst (Kept n e) (sym t.state) (Kept-translated interface pkt t.free k))

  pub inc_pkt_rw-found :
      (tab : List NatEntry) {e : NatEntry} (reply : Packet)
      → IsEcho reply
      → IsAddr e.src
      → find_entry tab (identifier reply.payload) reply.src ≡ some e
      → inc_pkt_rw tab reply
        ≡ some (
          some e.iface,
          record reply {
            dest = e.src;
            payload = checked reply.src e.src (set_identifier reply.payload e.src_id) 4;
          },
        )
  unfolding inc_pkt_rw
  inc_pkt_rw-found tab {e} reply v s found =
      rw (found, inc_pkt_rw)
        (rw (
          recompute_checksum_lem v.src s (set_identifier reply.payload e.src_id) 4 (omega arith)
            (omega (arith, length-write16 reply.payload 4 e.src_id, v.header)) (omega arith)
            (write16-IsByte reply.payload 4 e.src_id v.bytes)))

  Kept-new :
      (interface : ℕ) (pkt : Packet) {st : NatState}
      → IsNat st
      → st.nat_id_counter < 29
      → Kept st.nat_id_counter
          (new_nat_entry interface pkt st.nat_id_counter)
          (translated interface pkt st)
  Kept-new interface pkt {st} v free = record {
    valid = translated-IsNat interface pkt v free;
    used = omega arith;
    entry = get_elem?-set_self st.nat_tab _ _ (omega (arith, v.size));
  }

  -- An answer to a kept entry is found by it.
  find_entry-Kept :
      {n : ℕ} {e : NatEntry} {st : NatState} (reply : Packet)
      → Kept n e st
      → IsAddr e.dest
      → reply.src ≡ e.dest
      → identifier reply.payload ≡ n
      → find_entry st.nat_tab (identifier reply.payload) reply.src ≡ some e
  find_entry-Kept {n} {e} {st} reply k d from id =
      let start : identifier reply.payload ≡ 0 + n = omega arith in
      let same : match e.dest reply.src 16 ≡ true =
        subst (λ s. match e.dest s 16 ≡ true) (sym from)
          (match_refl 16 e.dest (omega (arith, d.size))) in
      rw start (
        find_entry-Numbered 0 n st.nat_id_counter st.nat_tab reply.src k.valid.numbered k.used
          k.entry same)

  -- A host sends an echo request through the box, any number of others are translated after it,
  -- and an answer comes from the address that it was sent to, under the identifier that the box
  -- gave it. Then `incPktRW` returns the interface of the host and readdresses the answer to the
  -- host, with the host's own identifier and the answer's sequence number and sender.
  pub inc_pkt_rw-out_pkt_rw :
      (interface : ℕ) {pkt reply : Packet} {st st' st'' : NatState} {pkt' : Packet}
      → IsNat st
      → IsEcho pkt
      → out_pkt_rw ipv6_addr interface pkt st ≡ some (true, st', pkt')
      → Sends st' st''
      → IsEcho reply
      → reply.src ≡ pkt'.dest
      → identifier reply.payload ≡ identifier pkt'.payload
      → (back : Packet) × (inc_pkt_rw st''.nat_tab reply ≡ some (some interface, back))
        × (back.dest ≡ pkt.src)
        × (identifier back.payload ≡ identifier pkt.payload)
        × (seq_number back.payload ≡ seq_number reply.payload)
        × (back.src ≡ pkt.dest)
  inc_pkt_rw-out_pkt_rw interface {pkt} {reply} {st} {st'} {st''} {pkt'} v echo done later answer
        from id =
      let t = out_pkt_rw-Translated interface v echo done in
      let c = st.nat_id_counter in
      let kept = Kept-Sends later (
        subst (Kept c (new_nat_entry interface pkt c)) (sym t.state)
          (Kept-new interface pkt v t.free)) in
      let back : identifier reply.payload ≡ c =
        id
        ∙ ap (λ p. identifier p.payload) t.packet
        ∙ identifier-checked ipv6_addr pkt.dest pkt.payload c echo.header (omega (arith, t.free)) in
      let origin : reply.src ≡ pkt.dest = from ∙ ap (λ p. p.dest) t.packet in
      let found = find_entry-Kept reply kept echo.dest origin back in
      (
        record reply {
          dest = pkt.src;
          payload =
              checked reply.src pkt.src (set_identifier reply.payload (identifier pkt.payload)) 4;
        },
        inc_pkt_rw-found st''.nat_tab reply answer echo.src found,
        refl,
        identifier-checked reply.src pkt.src reply.payload (identifier pkt.payload) answer.header
            (read16-lt pkt.payload 4 echo.bytes),
        seq_number-checked reply.src pkt.src reply.payload (identifier pkt.payload),
        origin,
      )
