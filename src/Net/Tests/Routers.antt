-- ===== src/Net/Tests/Routers.antt =====
-- Concrete routers, hosts and MACs for the results of router discovery.
use internetworking_nat_box.Base.{
  ℕ, ◌+◌, ◌≡◌, refl, ap, ◌≢◌, true, false, some, List, [], ◌∷◌, ◌++◌, arith, Ensures, length,
  get_or, take, replicate, Ensures,
}
use internetworking_nat_box.Net.Checksum.{cksum_valid, checksumv6, cksum_loop}
use internetworking_nat_box.Net.Packet.{
  Packet, recompute_checksum, make_pseudo_hdr, fill_ip_datagram, fill_ethernet,
}
use internetworking_nat_box.Net.Forward.{Globals}
use internetworking_nat_box.Net.Router.{Router, Config}
use internetworking_nat_box.Net.Router.Encode.{
  link_addr, mtu_option, encode, encode_option, learn_all, radvert_handler-encode,
}
use internetworking_nat_box.Net.Router.Options.{radvert_handler}
use internetworking_nat_box.Net.Router.Send.{
  send_router_advert, checked_advert, advert_message, advert_fits, options_fit, advert_options,
  fill_options, fill_option, fill_icmp, send_checked, radvert_valid, short_pseudo_hdr, write_header,
}
use internetworking_nat_box.Net.Router.Receive.{
  Layout, header_written, learn_router, router_advert_in,
}
use internetworking_nat_box.Net.Router.Advert.{HasHeard}
use internetworking_nat_box.Net.Router.Relay.{Follows, IsClear, router_advert_in-Follows}
use internetworking_nat_box.Net.Router.Solicit.{all_routers}
use internetworking_nat_box.Net.Router.Stranger.{router_advert_in-stranger}
use internetworking_nat_box.Net.Router.Init.{multi_mac}
use internetworking_nat_box.Net.Tests.{box, addr}

abbrev mac : ℕ → List ℕ
mac n = 0x00 ∷ 0x1E ∷ 0xC9 ∷ 0x00 ∷ 0x01 ∷ n ∷ []

abbrev times : List ℕ
times = replicate 12 1

abbrev site : List ℕ
site = 0x20 ∷ 0x01 ∷ 0x0D ∷ 0xB8 ∷ replicate 12 0

abbrev site_option : List ℕ
site_option = 3 ∷ 4 ∷ 64 ∷ 0xC0 ∷ times ++ site

abbrev advert_header : List ℕ
advert_header = 0x86 ∷ 0 ∷ 0 ∷ 0 ∷ 64 ∷ 0 ∷ 7 ∷ 8 ∷ replicate 8 0

abbrev router : Router
router = record {
  if_macbcast = replicate 6 255 ∷ replicate 6 255 ∷ replicate 6 255 ∷ [];
  mac_snm = replicate 6 0;
  link_local_mac = replicate 6 0;
  alln_mac_multi = multi_mac 1;
  allr_mac_multi = multi_mac 2;
  router_link_local = replicate 16 0;
  router_link_local_mac = replicate 6 0;
  router_mac_addr = replicate 6 0;
  router_snm_addr = replicate 16 0;
  router_mac_snm = replicate 6 0;
  mtu = 1480;
  prefix = site;
  prefix_length = 64;
  option_prefix_default = site_option;
  radvert_from_router = advert_header;
}

abbrev globals : Globals
globals = record box {
  if_macucast = mac 1 ∷ mac 2 ∷ mac 3 ∷ [];
  link_local = addr 4;
  allr_ip_multi = all_routers;
  alln_ip_multi = 0xFF ∷ 0x02 ∷ replicate 13 0 ++ (1 ∷ []);
}

abbrev nat_box : Config
nat_box = record { globals = globals; router = router }

abbrev inner_host : Config
inner_host = record {
  globals = record globals {
    link_local = addr 9;
    host = true;
    ipv6_addr = replicate 16 0;
    has_ipv6_addr = false;
  };
  router = record router {
    mtu = 0;
    prefix = replicate 16 0;
    option_prefix_default = replicate 32 0;
  };
}

abbrev advert_options_bytes : List ℕ
advert_options_bytes = (1 ∷ 1 ∷ mac 2) ++ ((5 ∷ 1 ∷ 0 ∷ 0 ∷ 0 ∷ 0 ∷ 5 ∷ 200 ∷ []) ++ site_option)

-- The box's advertisement on its first inner interface.
abbrev advert : Packet
advert = record {
  net_dst = replicate 6 255;
  net_src = mac 2;
  net_type = 0x86DD;
  info = 0x60 ∷ 0 ∷ 0 ∷ 0 ∷ [];
  payload_len = 64;
  next_header = 0x3A;
  hop_limit = 255;
  src = addr 4;
  dest = globals.alln_ip_multi;
  payload = 0x86 ∷ 0 ∷ 194 ∷ 9 ∷ 64 ∷ 0 ∷ 7 ∷ 8 ∷ replicate 8 0 ++ advert_options_bytes;
  net_iface = 0;
}

advert_sent : send_router_advert nat_box (replicate 45 7) (replicate 6 255) 1 ≡ some (some advert)
unfolding send_router_advert checked_advert advert_message advert_fits options_fit advert_options
    fill_options fill_option fill_icmp send_checked radvert_valid short_pseudo_hdr write_header
    cksum_valid checksumv6 cksum_loop recompute_checksum make_pseudo_hdr fill_ip_datagram
    fill_ethernet
advert_sent = refl

nat_box-HasHeard : HasHeard nat_box 64 0xC0 times site
unfolding encode_option
nat_box-HasHeard = record {
  prefix_heard = refl;
  prefix_size = (refl, refl);
  header_size = refl;
  mtu_size = omega arith;
}

-- The bytes past `router_ip_addr` fall on `router_mac_addr`.
abbrev spilling : Layout
spilling = record {
  past_message = λ bytes cfg. cfg;
  past_router_ip_addr =
      λ bytes cfg. record cfg { router = record (cfg.router) { router_mac_addr = take 6 bytes } };
  past_router_link_local = λ bytes cfg. cfg;
}

spilling-IsClear : IsClear spilling
spilling-IsClear = record {
  far = λ bytes cfg. refl;
  host_ip_addr = λ bytes cfg. refl;
  host_link_local = λ bytes cfg. refl;
}

router_advert_in-Follows_example :
    (read : Config) × (router_advert_in spilling inner_host
        (λ _. [])
        (record advert { net_iface = 2 })
      ≡ some (learn_router spilling (record advert { net_iface = 2 }) read, []))
    × Follows nat_box inner_host 1 site read
router_advert_in-Follows_example =
    router_advert_in-Follows nat_box inner_host 1 64 0xC0 times site nat_box-HasHeard refl refl
      spilling-IsClear (replicate 45 7) (replicate 6 255) (λ _. []) 2 advert advert_sent

radvert_handler-encode_example :
    radvert_handler inner_host
      (advert_header ++ encode (mtu_option 0 0 9000 ∷ link_addr (mac 7) ∷ []))
      (16 + length (encode (mtu_option 0 0 9000 ∷ link_addr (mac 7) ∷ [])))
    ≡ some (
        learn_all (mtu_option 0 0 9000 ∷ link_addr (mac 7) ∷ []) (record inner_host {
          router = record (inner_host.router) { radvert_from_router = advert_header };
        }))
unfolding encode encode_option
radvert_handler-encode_example =
    radvert_handler-encode inner_host advert_header (mtu_option 0 0 9000 ∷ link_addr (mac 7) ∷ [])
      refl (omega arith, (refl, tt)) (omega arith)

router_advert_in-stranger_example :
    Ensures
      (λ out. out ≡ (header_written spilling advert nat_box, []))
      (router_advert_in spilling nat_box (λ _. []) advert)
unfolding header_written
router_advert_in-stranger_example =
    router_advert_in-stranger spilling nat_box (λ _. []) advert refl refl mac_other
  where
    mac_other : mac 2 ≢ 0x00 ∷ 0x24 ∷ 0xC4 ∷ 0xDC ∷ 0xCB ∷ 0xC0 ∷ []
    mac_other e = absurd (omega (arith, ap (λ l. get_or l 1 0) e))
