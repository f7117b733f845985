-- ===== src/Net/Router/Receive.antt =====
-- The router messages of `icmpv6_in` (net/icmpv6.c) and `rsolicit_handler` of net/rsolicit.c: what
-- follows the events `router_advert` and `router_solicit`. Three writes of an advertisement's bytes
-- go past the ends of what they are meant for; the linker and the buffer pool decide what lies there,
-- so what they do to the globals is a parameter, `Layout`. (The messages that a box sends pass
-- `radvert_valid` too; what that write hits is left out.)
use internetworking_nat_box.Base.{
  ℕ, ◌%◌, not, ◌&&◌, Option, none, some, List, [], ◌∷◌, ◌++◌, if◌then◌else◌, ◌>>=◌, leb, length,
  take, drop, replicate,
}
use internetworking_nat_box.Net.Bytes.{match}
use internetworking_nat_box.Net.Packet.{Packet}
use internetworking_nat_box.Net.Neighbor.{unswapped}
use internetworking_nat_box.Net.Icmp.{Event, wrote}
use internetworking_nat_box.Net.Router.{Config, macbcast}
use internetworking_nat_box.Net.Router.Address.{get_snm_addr, get_mac_snm}
use internetworking_nat_box.Net.Router.Options.{radvert_handler, join_addr}
use internetworking_nat_box.Net.Router.Send.{
  short_pseudo_hdr, radvert_valid, rsolicit_valid, sendipv6pkt, routera,
}

-- The MAC of the only router that a NAT box listens to.
abbrev pub default_router : List ℕ
default_router = 0x00 ∷ 0x24 ∷ 0xC4 ∷ 0xDC ∷ 0xCB ∷ 0xC0 ∷ []

-- What the bytes that are written past a message, past `router_ip_addr` and past
-- `router_link_local` do to the globals.
pub record Layout : Type 0 where
  pub past_message : List ℕ → Config → Config
  pub past_router_ip_addr : List ℕ → Config → Config
  pub past_router_link_local : List ℕ → Config → Config

-- The globals after `radvert_valid` wrote its header `start` bytes behind the message's first byte.
unfoldable pub header_written : Layout → Packet → Config → Config
unfolding short_pseudo_hdr
header_written layout pkt cfg =
    if leb (unswapped pkt.payload_len) (length pkt.payload)
    then cfg
    else layout.past_message (short_pseudo_hdr pkt) cfg

-- The addresses of the router whose advertisement came. Twice the code copies 16 bytes, from the
-- ninth of the source on, where 8 are left: the other 8 are the first of the destination.
unfoldable pub learn_router : Layout → Packet → Config → Config
learn_router layout pkt cfg =
    let named = record cfg {
      globals = record (cfg.globals) { router_ip_addr = join_addr cfg.router.prefix pkt.src };
    } in
    let past = layout.past_router_ip_addr (take 8 pkt.dest) named in
    let linked = record past {
      router = record (past.router) {
        router_link_local = 0xFE ∷ 0x80 ∷ replicate 6 0 ++ take 8 (drop 8 pkt.src);
      };
    } in
    let out = layout.past_router_link_local (take 8 pkt.dest) linked in
    let link_local = out.router.router_link_local in
    record out {
      router = record (out.router) {
        router_snm_addr = get_snm_addr link_local;
        router_mac_snm = get_mac_snm (get_snm_addr link_local);
        router_link_local_mac = get_mac_snm link_local;
      };
    }

-- A packet that was sent, or none.
abbrev pub sent_event : Option Packet → List Event
sent_event none = []
sent_event (some pkt) = wrote pkt ∷ []

-- The two advertisements that a NAT box sends when it has heard one. `stack` gives the bytes that
-- each call finds behind its array of types.
unfoldable pub relay_advert : Config → (ℕ → List ℕ) → Option (List Event)
relay_advert cfg stack = sendipv6pkt cfg (stack 1) routera (macbcast cfg.router 1) [] 1 >>= λ first.
    sendipv6pkt cfg (stack 2) routera (macbcast cfg.router 2) [] 2 >>= λ second.
    some (sent_event first ++ sent_event second)

-- The case ROUTERA.
unfoldable pub router_advert_in :
    Layout → Config → (ℕ → List ℕ) → Packet → Option (Config × List Event)
unfolding header_written learn_router relay_advert
router_advert_in layout before stack pkt =
    let cfg = header_written layout pkt before in
    radvert_valid pkt >>= λ (valid, msg).
    if not valid
    then some (cfg, [])
    else if not cfg.globals.host && not (match pkt.net_src default_router 6)
    then some (cfg, [])
    else (radvert_handler cfg msg pkt.payload_len >>= λ heard.
        let learned = learn_router layout pkt heard in
        if learned.globals.host
        then some (learned, [])
        else (relay_advert learned stack >>= λ events. some (learned, events)))

unfoldable pub rsolicit_handler : Config → List ℕ → Packet → Option (List Event)
rsolicit_handler cfg stack pkt =
    if cfg.globals.host
    then some []
    else (sendipv6pkt cfg stack routera (macbcast cfg.router pkt.net_iface) [] (pkt.net_iface % 256)
        >>= λ reply. some (sent_event reply))

-- The case ROUTERS.
unfoldable pub router_solicit_in : Config → List ℕ → Packet → Option (List Event)
unfolding rsolicit_handler
router_solicit_in cfg stack pkt =
    if cfg.globals.host
    then some []
    else (rsolicit_valid pkt >>= λ (valid, _).
        if valid then rsolicit_handler cfg stack pkt else some [])
