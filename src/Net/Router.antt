-- ===== src/Net/Router.antt =====
-- Router discovery and the box's own addresses: net/radvert.c, net/rsolicit.c, the router messages
-- of net/icmpv6.c and net/sendipv6pkt.c, and the address code of net/ipv6.c. This file holds the
-- globals that they share.
pub mod Address
pub mod Advert
pub mod Autoconf
pub mod Encode
pub mod Init
pub mod Options
pub mod Receive
pub mod Relay
pub mod Send
pub mod Solicit
pub mod Stranger
use internetworking_nat_box.Base.{
  ℕ, zero, suc, ◌+◌, ◌-◌, ◌*◌, ◌/◌, ◌%◌, ◌^◌, ◌≤◌, ◌<◌, min, max, ◌≡◌, refl, sym, ap, ap₂, ◌∙◌, ◌≢◌,
  ◌↔◌, ◌⊎◌, inl, inr, Bool, true, false, not, ◌&&◌, ◌||◌, Option, none, some, List, [], ◌∷◌, ◌++◌,
  map, arith, ltb, leb, ◌==◌, if◌then◌else◌, ltb→lt, lt→ltb, le→ltb, ==_iff, Bool-cases,
  Option-cases, eq_of_some, ◌>>=◌, Ensures, Ensures-bind, Ensures-some, length, get_elem?, get_or,
  set, take, drop, replicate, All, length-append, length-set, length-replicate, get_elem?-set_self,
  get_elem?-set_ne, All-append, All-set, All-get, set-append_right, get_or-append_right, take-set,
  length-take, All-take, get_or-set_self, get_or-set_ne, All-mem, get_elem?-mem, take-take,
  take_all, drop_all, length-take_le, take-append_take-drop,
}
use internetworking_nat_box.Net.Forward.{Globals}

-- The globals of net/radvert.c, the multicast MACs of net/ipv6.c, the broadcast MACs of the interface
-- table, and `prefix_ipv6_default` in two fields.
pub record Router : Type 0 where
  pub if_macbcast : List (List ℕ)
  pub mac_snm : List ℕ
  pub link_local_mac : List ℕ
  pub alln_mac_multi : List ℕ
  pub allr_mac_multi : List ℕ
  pub router_link_local : List ℕ
  pub router_link_local_mac : List ℕ
  pub router_mac_addr : List ℕ
  pub router_snm_addr : List ℕ
  pub router_mac_snm : List ℕ
  pub mtu : ℕ
  pub prefix : List ℕ
  pub prefix_length : ℕ
  pub option_prefix_default : List ℕ
  pub radvert_from_router : List ℕ

pub record Config : Type 0 where
  pub globals : Globals
  pub router : Router

abbrev pub macbcast : Router → ℕ → List ℕ
macbcast r iface = get_or r.if_macbcast iface []
