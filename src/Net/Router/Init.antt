-- ===== src/Net/Router/Init.antt =====
-- `ipv6_init` of net/ipv6.c in two parts, before and after its wait for an address. The buffer pool,
-- the timer task and the multicast filters of the device are left out.
use internetworking_nat_box.Base.{
  ℕ, ◌≡◌, refl, ap, Bool, false, Option, none, some, List, [], ◌∷◌, ◌++◌, if◌then◌else◌, ◌>>=◌,
  replicate,
}
use internetworking_nat_box.Net.Forward.{macucast}
use internetworking_nat_box.Net.Fwd.{fwdipv6_init}
use internetworking_nat_box.Net.NdCache.{
  NdCache, get_avail_nd_entry, nd_cache_init, max_nd_ttl, nd_incomplete, nd_reachable,
}
use internetworking_nat_box.Net.Nat.{NatState, nat_tab_init}
use internetworking_nat_box.Net.Neighbor.{send_nsol}
use internetworking_nat_box.Net.Icmp.{NetState, Event, wrote, slept, update}
use internetworking_nat_box.Net.Router.{Config}
use internetworking_nat_box.Net.Router.Address.{get_link_local, get_snm_addr, get_mac_snm}
use internetworking_nat_box.Net.Router.Send.{sendipv6pkt, routers}
use internetworking_nat_box.Net.Router.Receive.{sent_event}
use internetworking_nat_box.Net.Router.Solicit.{solicitation, send_router_solicit-solicitation}

-- The group `n` of all nodes or all routers, as a MAC and as an address.
abbrev pub multi_mac : ℕ → List ℕ
multi_mac n = 0x33 ∷ 0x33 ∷ 0 ∷ 0 ∷ 0 ∷ n ∷ []

abbrev multi_ip : ℕ → List ℕ
multi_ip n = 0xFF ∷ 0x02 ∷ replicate 13 0 ++ (n ∷ [])

unfoldable pub init_addresses : Config → Config
init_addresses cfg =
    let link_local = get_link_local (macucast cfg.globals cfg.globals.ifprime) in
    record {
      globals = record (cfg.globals) {
        has_ipv6_addr = false;
        link_local = link_local;
        snm_addr = get_snm_addr link_local;
        alln_ip_multi = multi_ip 1;
        allr_ip_multi = multi_ip 2;
      };
      router = record (cfg.router) {
        option_prefix_default = replicate 32 0;
        mac_snm = get_mac_snm (get_snm_addr link_local);
        link_local_mac = get_mac_snm link_local;
        alln_mac_multi = multi_mac 1;
        allr_mac_multi = multi_mac 2;
      };
    }

-- A host does not touch the translation table.
unfoldable pub init_tables : Bool → NatState → NetState
init_tables host before = record {
  nat = if host then record before { fwd_tab = fwdipv6_init } else record {
    nat_tab = nat_tab_init.0;
    nat_id_counter = nat_tab_init.1;
    fwd_tab = fwdipv6_init;
  };
  nd_cache = nd_cache_init;
}

-- Up to the wait. A host and a NAT box send the same solicitation.
unfoldable pub ipv6_init_start :
    Config → NatState → List ℕ → Option (Config × NetState × List Event)
unfolding init_addresses init_tables
ipv6_init_start cfg before stack =
    let ready = init_addresses cfg in
    sendipv6pkt ready stack routers ready.router.allr_mac_multi [] ready.globals.ifprime >>= λ sent.
    some (ready, init_tables ready.globals.host before, sent_event sent)

-- An entry for an address of the router; `none` is the null pointer of a full cache, which the code
-- writes through.
unfoldable pub claim_incomplete : List ℕ → NdCache → Option (ℕ × NdCache)
claim_incomplete ip_addr cache = elim (get_avail_nd_entry cache).0 [
  | none ↦ none
  | some k ↦ some (
    k,
    update (get_avail_nd_entry cache).1 k
        (λ e. record e { ip_addr = ip_addr; ttl = max_nd_ttl; state = nd_incomplete }),
  )
]

-- After the wait: the two entries and the two solicitations. The first component is `entry2`, which
-- the last step fills after two pauses, in which other threads run.
unfoldable pub ipv6_init_claim : Config → NetState → Option (ℕ × NetState × List Event)
unfolding claim_incomplete
ipv6_init_claim cfg st =
    let g = cfg.globals in
    let r = cfg.router in
    claim_incomplete r.router_link_local st.nd_cache >>= λ (_, one).
    claim_incomplete g.router_ip_addr one >>= λ (entry2, two).
    send_nsol g g.link_local r.router_link_local_mac r.router_link_local r.router_link_local
      g.ifprime
    >>= λ first.
        send_nsol g g.ipv6_addr r.router_link_local_mac r.router_link_local r.router_link_local
          g.ifprime
        >>= λ second. some (
          entry2,
          record st { nd_cache = two },
          wrote first ∷ slept 1 ∷ wrote second ∷ slept 1 ∷ [],
        )

unfoldable pub ipv6_init_finish : Config → ℕ → NetState → NetState
ipv6_init_finish cfg entry2 st = record st {
  nd_cache =
      update st.nd_cache entry2
        (λ e. record e { mac_addr = cfg.router.router_mac_addr; state = nd_reachable });
}

-- What is sent before the wait: one solicitation to the group of all routers.
pub ipv6_init_start-solicits :
    (cfg : Config) (before : NatState) (stack : List ℕ)
    → ipv6_init_start cfg before stack
      ≡ some (
        init_addresses cfg,
        init_tables cfg.globals.host before,
        wrote (solicitation cfg.globals (multi_mac 2) cfg.globals.ifprime) ∷ [],
      )
unfolding ipv6_init_start sendipv6pkt init_addresses
ipv6_init_start-solicits cfg before stack =
    ap
      (λ m. m >>= λ sent.
        some (init_addresses cfg, init_tables cfg.globals.host before, sent_event sent))
      (send_router_solicit-solicitation (init_addresses cfg) (multi_mac 2) cfg.globals.ifprime refl)
