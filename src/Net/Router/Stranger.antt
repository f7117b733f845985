-- ===== src/Net/Router/Stranger.antt =====
-- What a NAT box does not take: advertisements that are not from its own router.
use internetworking_nat_box.Base.{
  ℕ, ◌≡◌, refl, ◌≢◌, inl, inr, true, false, List, [], Bool-cases, Option-cases, Ensures, length,
  Ensures,
}
use internetworking_nat_box.Net.Bytes.{match, match→eq}
use internetworking_nat_box.Net.Packet.{Packet}
use internetworking_nat_box.Net.Router.{Config}
use internetworking_nat_box.Net.Router.Send.{radvert_valid}
use internetworking_nat_box.Net.Router.Receive.{
  Layout, header_written, default_router, router_advert_in,
}

not_from_router :
    (mac : List ℕ) → length mac ≡ 6 → mac ≢ default_router → match mac default_router 6 ≡ false
not_from_router mac size other = elim (Bool-cases (match mac default_router 6)) [
  | inl same ↦ absurd (other (match→eq 6 mac default_router size refl same))
  | inr differ ↦ differ
]

-- A NAT box drops an advertisement whose frame is not from the MAC of its own router, valid or not:
-- it sends nothing, and its globals are those that the validator's write of the pseudo header leaves.
-- That write does not touch the flag `host`.
pub router_advert_in-stranger :
    (layout : Layout) (box : Config) (stack : ℕ → List ℕ) (pkt : Packet)
    → (header_written layout pkt box).globals.host ≡ false
    → length pkt.net_src ≡ 6
    → pkt.net_src ≢ default_router
    → Ensures
        (λ out. out ≡ (header_written layout pkt box, []))
        (router_advert_in layout box stack pkt)
unfolding router_advert_in
router_advert_in-stranger layout box stack pkt is_box size other =
    elim (Option-cases (radvert_valid pkt)) [
      | inl endless ↦ rw endless tt
      | inr ((false, msg), refused) ↦ rw refused refl
      | inr ((true, msg), valid) ↦ rw (valid, is_box, not_from_router pkt.net_src size other) refl
    ]
