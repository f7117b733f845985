-- ===== src/Net/Router/Relay.antt =====
-- The advertisement that a NAT box passes on, as its hosts read it.
use internetworking_nat_box.Base.{
  ℕ, ◌+◌, ◌≡◌, refl, sym, ap₂, ◌∙◌, true, some, List, [], ◌++◌, arith, length, take, drop, leb,
  Bool-cases, inl, inr,
}
use internetworking_nat_box.Net.Packet.{Packet}
use internetworking_nat_box.Net.Neighbor.{unswapped}
use internetworking_nat_box.Net.Forward.{macucast}
use internetworking_nat_box.Net.Router.{Config}
use internetworking_nat_box.Net.Router.Encode.{encode, learn, learn_all, radvert_handler-encode}
use internetworking_nat_box.Net.Router.Options.{radvert_handler}
use internetworking_nat_box.Net.Router.Send.{
  radvert_valid, short_pseudo_hdr, write_header, send_router_advert,
}
use internetworking_nat_box.Net.Router.Receive.{
  Layout, header_written, learn_router, router_advert_in,
}
use internetworking_nat_box.Net.Router.Advert.{
  HasHeard, options, options-IsOption, length-encode-options, send_router_advert-sent,
}

-- A host's configuration when it has read the options of a box: the box's MTU and prefix, the MAC of
-- the box's interface, and an address made of the prefix and of the host's own link-local address.
pub record Follows (box host : Config) (iface : ℕ) (prefix : List ℕ) (after : Config) : Type 0 where
  pub mtu : after.router.mtu ≡ box.router.mtu
  pub mac : after.router.router_mac_addr ≡ macucast box.globals iface
  pub option_prefix : after.router.option_prefix_default ≡ box.router.option_prefix_default
  pub addr : after.globals.ipv6_addr ≡ take 8 prefix ++ take 8 (drop 8 host.globals.link_local)
  pub has_addr : after.globals.has_ipv6_addr ≡ true

-- The flag `host` and, for the write far behind a message, all globals lie elsewhere.
pub record IsClear (layout : Layout) : Type 0 where
  pub far : (bytes : List ℕ) (cfg : Config) → layout.past_message bytes cfg ≡ cfg
  pub host_ip_addr :
      (bytes : List ℕ) (cfg : Config)
      → (layout.past_router_ip_addr bytes cfg).globals.host ≡ cfg.globals.host
  pub host_link_local :
      (bytes : List ℕ) (cfg : Config)
      → (layout.past_router_link_local bytes cfg).globals.host ≡ cfg.globals.host

header_written-same :
    {layout : Layout} (clear : IsClear layout) (pkt : Packet) (cfg : Config)
    → header_written layout pkt cfg ≡ cfg
unfolding header_written
header_written-same clear pkt cfg =
    elim (Bool-cases (leb (unswapped pkt.payload_len) (length pkt.payload))) [
      | inl inside ↦ rw inside refl
      | inr behind ↦ rw behind (clear.far _ cfg)
    ]

learn_router-host :
    {layout : Layout} (clear : IsClear layout) (pkt : Packet) (cfg : Config)
    → (learn_router layout pkt cfg).globals.host ≡ cfg.globals.host
unfolding learn_router
learn_router-host clear pkt cfg = clear.host_link_local _ _ ∙ clear.host_ip_addr _ _

-- What a host does with an advertisement whose check passes.
host-router_advert_in :
    {layout : Layout} (clear : IsClear layout) (host heard : Config) (stack : ℕ → List ℕ)
    (pkt : Packet) (msg : List ℕ)
    → radvert_valid pkt ≡ some (true, msg)
    → host.globals.host ≡ true
    → radvert_handler host msg pkt.payload_len ≡ some heard
    → heard.globals.host ≡ true
    → router_advert_in layout host stack pkt ≡ some (learn_router layout pkt heard, [])
unfolding router_advert_in
host-router_advert_in clear host heard stack pkt msg valid is_host read still =
    let on_host = learn_router-host clear pkt heard ∙ still in
    rw (header_written-same clear pkt host) (simp (valid, is_host, read, on_host))

module _ (box host : Config) (iface n flags : ℕ) (times prefix : List ℕ)
    (heard : HasHeard box n flags times prefix) (mac_size : length (macucast box.globals iface) ≡ 6)
    (is_host : host.globals.host ≡ true) where
  -- The advertisement that a NAT box sends, once it has heard one, is accepted by every host that
  -- it reaches, whatever bytes the sender found behind its array of option types: the host reads
  -- from it the box's MTU, which is below 65536, its prefix option, the MAC of the sending interface
  -- as the router's, and an address of the prefix and its own link-local address, and it sends
  -- nothing. It ends with what `learn_router` makes of that, the 8 bytes past `router_ip_addr` and
  -- past `router_link_local` included, whatever these change but the flag `host`; the header that the
  -- validator writes far behind the message changes no global.
  pub router_advert_in-Follows :
      {layout : Layout} (clear : IsClear layout) (stack link_dest : List ℕ) (there : ℕ → List ℕ)
      (arrival : ℕ) (pkt : Packet)
      → send_router_advert box stack link_dest iface ≡ some (some pkt)
      → (read : Config) × (router_advert_in layout host there (record pkt { net_iface = arrival })
          ≡ some (learn_router layout (record pkt { net_iface = arrival }) read, []))
        × Follows box host iface prefix read
  unfolding learn_all learn radvert_valid short_pseudo_hdr write_header
  router_advert_in-Follows clear stack link_dest there arrival pkt e =
      let (header, split, size, len, from, valid) =
        send_router_advert-sent box iface n flags times prefix heard mac_size stack link_dest pkt
          e in
      let os = options box iface n flags times prefix heard mac_size in
      let total : 16 + length (encode os) ≡ 64 =
        omega (arith, length-encode-options box iface n flags times prefix heard mac_size) in
      let read =
        radvert_handler-encode host header os size
          (options-IsOption box iface n flags times prefix heard mac_size) (omega arith) in
      let read_packet : radvert_handler host pkt.payload pkt.payload_len
          ≡ some (
              learn_all os
                (record host { router = record (host.router) { radvert_from_router = header } })) =
        ap₂ (radvert_handler host) split (len ∙ sym total) ∙ read in
      let learned =
        learn_all os
          (record host { router = record (host.router) { radvert_from_router = header } }) in
      (
        learned,
        host-router_advert_in clear host learned there (record pkt { net_iface = arrival })
            pkt.payload valid is_host read_packet is_host,
        record {
          mtu = refl;
          mac = refl;
          option_prefix = sym heard.prefix_heard;
          addr = refl;
          has_addr = refl;
        },
      )
