-- ===== src/Net/Router/Solicit.antt =====
-- A router solicitation on its way: sent by net/sendipv6pkt.c, heard by net/rsolicit.c.
use internetworking_nat_box.Base.{
  ℕ, ◌%◌, ◌≡◌, refl, false, some, List, [], ◌∷◌, ◌++◌, ◌>>=◌, replicate,
}
use internetworking_nat_box.Net.Bytes.{match}
use internetworking_nat_box.Net.Checksum.{cksum_valid, checksumv6, cksum_loop}
use internetworking_nat_box.Net.Packet.{
  Packet, recompute_checksum, make_pseudo_hdr, fill_ip_datagram, fill_ethernet,
}
use internetworking_nat_box.Net.Forward.{Globals, macucast}
use internetworking_nat_box.Net.Neighbor.{option_loop, unspecified}
use internetworking_nat_box.Net.Router.{Config, macbcast}
use internetworking_nat_box.Net.Router.Send.{
  rsolicit_valid, rsolicit_checked, short_pseudo_hdr, write_header, fill_icmp, send_checked,
  send_router_solicit, send_router_advert, sendipv6pkt,
}
use internetworking_nat_box.Net.Router.Receive.{rsolicit_handler, router_solicit_in, sent_event}

-- The group of all routers, ff02::2.
abbrev pub all_routers : List ℕ
all_routers = 0xFF ∷ 0x02 ∷ replicate 13 0 ++ (0x02 ∷ [])

-- The solicitation that the code builds.
abbrev pub solicitation : Globals → List ℕ → ℕ → Packet
solicitation g link_dest iface = record {
  net_dst = link_dest;
  net_src = macucast g iface;
  net_type = 0x86DD;
  info = 0x60 ∷ 0 ∷ 0 ∷ 0 ∷ [];
  payload_len = 8;
  next_header = 0x3A;
  hop_limit = 255;
  src = replicate 16 0;
  dest = all_routers;
  payload = 0x85 ∷ 0 ∷ 0x7B ∷ 0xB8 ∷ 0 ∷ 0 ∷ 0 ∷ 0 ∷ [];
  net_iface = 0;
}

pub send_router_solicit-solicitation :
    (cfg : Config) (link_dest : List ℕ) (iface : ℕ)
    → cfg.globals.allr_ip_multi ≡ all_routers
    → send_router_solicit cfg link_dest iface
      ≡ some (some (solicitation cfg.globals link_dest iface))
unfolding send_router_solicit fill_icmp send_checked rsolicit_valid rsolicit_checked
    short_pseudo_hdr write_header fill_ip_datagram fill_ethernet recompute_checksum make_pseudo_hdr
    checksumv6 cksum_loop cksum_valid option_loop unspecified match
send_router_solicit-solicitation cfg link_dest iface e = rw e refl

-- A solicitation passes the check of every NAT box that it reaches; the box then builds its
-- advertisement for the broadcast address of the interface on which it came.
pub router_solicit_in-solicitation :
    (g : Globals) (box : Config) (link_dest : List ℕ) (iface arrival : ℕ) (stack : List ℕ)
    → box.globals.host ≡ false
    → router_solicit_in box stack (record (solicitation g link_dest iface) { net_iface = arrival })
      ≡ (send_router_advert box stack (macbcast box.router arrival) (arrival % 256) >>= λ reply.
          some (sent_event reply))
unfolding router_solicit_in rsolicit_handler sendipv6pkt rsolicit_valid rsolicit_checked
    short_pseudo_hdr write_header checksumv6 cksum_loop cksum_valid option_loop unspecified match
router_solicit_in-solicitation g box link_dest iface arrival stack is_box = simp is_box
