-- ===== src/Net/Icmp/Answer.antt =====
-- A solicitation is always answered.
use internetworking_nat_box.Base.{
  ℕ, ◌%◌, inl, inr, Bool, true, false, some, List, [], ◌∷◌, arith, if◌then◌else◌, Option-cases,
  ◌>>=◌, Succeeds, Succeeds-bind,
}
use internetworking_nat_box.Net.Packet.{Packet, recompute_checksum}
use internetworking_nat_box.Net.Forward.{Globals, macucast}
use internetworking_nat_box.Net.Checksum.Ends.{recompute_checksum-Succeeds}
use internetworking_nat_box.Net.Neighbor.{
  getmac, target, neighbor_message, neighba, neighbs, send_neighbor, send_nad, send_nsol,
}
use internetworking_nat_box.Net.Icmp.{NetState, wrote, slept, claim_entry, answer, nsolicit_handler}

send_nad-Succeeds :
    (g : Globals) (ip_src mac_dest ip_dest target : List ℕ) (iface : ℕ)
    → Succeeds (send_nad g ip_src mac_dest ip_dest target iface)
unfolding send_nad send_neighbor
send_nad-Succeeds g ip_src mac_dest ip_dest target iface =
    Succeeds-bind
      (recompute_checksum ip_src ip_dest 32
        (neighbor_message neighba 96 target (macucast g g.ifprime)))
      _
      (recompute_checksum-Succeeds ip_src ip_dest 16
        (neighbor_message neighba 96 target (macucast g g.ifprime)) (omega arith))
      (λ msg. tt)

send_nsol-Succeeds :
    (g : Globals) (ip_src mac_dest ip_dest target : List ℕ) (iface : ℕ)
    → Succeeds (send_nsol g ip_src mac_dest ip_dest target iface)
unfolding send_nsol send_neighbor
send_nsol-Succeeds g ip_src mac_dest ip_dest target iface =
    Succeeds-bind
      (recompute_checksum ip_src ip_dest 32
        (neighbor_message neighbs 0 target (macucast g g.ifprime)))
      _
      (recompute_checksum-Succeeds ip_src ip_dest 16
        (neighbor_message neighbs 0 target (macucast g g.ifprime)) (omega arith))
      (λ msg. tt)

-- Every solicitation is answered: its messages get their checksums.
answer-Succeeds : (g : Globals) (pkt : Packet) (exists : Bool) → Succeeds (answer g pkt exists)
unfolding answer
answer-Succeeds g pkt exists =
    Succeeds-bind
      (send_nad g (target pkt.payload) pkt.net_src pkt.src (target pkt.payload)
        (pkt.net_iface % 256))
      _
      (send_nad-Succeeds g (target pkt.payload) pkt.net_src pkt.src (target pkt.payload)
        (pkt.net_iface % 256))
      (after exists)
  where
    after :
        (exists : Bool) (advert : Packet)
        → Succeeds (
            if exists
            then some (wrote advert ∷ [])
            else send_nsol g pkt.dest pkt.net_src pkt.src pkt.src (pkt.net_iface % 256)
              >>= λ solicit. some (wrote advert ∷ slept 3 ∷ wrote solicit ∷ []))
    after true advert = tt
    after false advert =
        Succeeds-bind (send_nsol g pkt.dest pkt.net_src pkt.src pkt.src (pkt.net_iface % 256)) _
          (send_nsol-Succeeds g pkt.dest pkt.net_src pkt.src pkt.src (pkt.net_iface % 256))
          (λ s. tt)

pub nsolicit_handler-Succeeds :
    (g : Globals) (pkt : Packet) (st : NetState) → Succeeds (nsolicit_handler g pkt st)
unfolding nsolicit_handler
nsolicit_handler-Succeeds g pkt st = elim (Option-cases (claim_entry pkt st.nd_cache)) [
  | inl full ↦ rw (full, nsolicit_handler) tt
  | inr ((k, exists, cache), claimed) ↦ elim (Option-cases (getmac pkt.payload)) [
    | inl no_option ↦ rw (claimed, nsolicit_handler) (rw (no_option, nsolicit_handler) tt)
    | inr (mac, option) ↦
        rw (claimed, nsolicit_handler)
          (rw (option, nsolicit_handler)
            (Succeeds-bind (answer g pkt exists) _ (answer-Succeeds g pkt exists) (λ events. tt)))
  ]
]
