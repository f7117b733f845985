-- ===== src/Net/Icmp/Handlers.antt =====
-- What the ICMPv6 handlers do to the tables and to the buffer.
use internetworking_nat_box.Base.{
  ℕ, zero, suc, ◌+◌, ◌%◌, ◌≡◌, refl, ap, ◌∙◌, inl, inr, Bool, true, false, some, List, [], ◌∷◌,
  ◌++◌, arith, ◌==◌, if◌then◌else◌, Bool-cases, Option-cases, Ensures, Ensures-bind, Ensures-some,
  length, length-set,
}
use internetworking_nat_box.Net.Packet.{Packet, icmp_type, identifier, seq_number}
use internetworking_nat_box.Net.NdCache.{NdEntry, NdCache, lookup_nd_entry, get_avail_nd_entry}
use internetworking_nat_box.Net.NdCache.Laws.{get_avail_nd_entry-cases}
use internetworking_nat_box.Net.Nat.{NatState}
use internetworking_nat_box.Net.Nat.Safe
use internetworking_nat_box.Net.Fwd.{insert_new_fwd_tab_entry}
use internetworking_nat_box.Net.Fwd.Insert.{insert_new_fwd_tab_entry-IsFwdTab}
use internetworking_nat_box.Net.Icmp.{
  NetState, Event, freed, Outcome, answer, nsolicit_handler, nadvert_handler, neighbor_in,
  icmpv6_in, claim_entry, update, refresh, send_echo_resp, entry_addr,
}
use internetworking_nat_box.Net.Forward.{Globals}
use internetworking_nat_box.Net.Neighbor.{
  getmac, nsolicit_valid, nadvert_valid, send_nad, send_nsol, target,
}

-- How often the buffer of the packet is returned.
unfoldable pub free_events : List Event → ℕ
free_events [] = 0
free_events (freed ∷ events) = suc (free_events events)
free_events (_ ∷ events) = free_events events

pub free_events-append :
    (xs ys : List Event) → free_events (xs ++ ys) ≡ free_events xs + free_events ys
unfolding free_events
free_events-append [] ys = omega arith
free_events-append (freed ∷ xs) ys = omega (arith, free_events-append xs ys)
free_events-append (_ ∷ xs) ys = free_events-append xs ys

-- The tables keep their sizes and their order.
pub record IsSafe (st : NetState) : Type 0 where
  pub nat : Safe.IsSafe st.nat
  pub cache : length st.nd_cache ≡ 30

-- A handler leaves safe tables and does not return the buffer.
pub record Handled (out : Outcome) : Type 0 where
  pub safe : IsSafe out.0
  pub kept : free_events out.1 ≡ 0

pub length-update :
    (cache : NdCache) (k : ℕ) (f : NdEntry → NdEntry) → length (update cache k f) ≡ length cache
unfolding update
length-update [] k f = refl
length-update (e ∷ cache) zero f = refl
length-update (e ∷ cache) (suc k) f = ap suc (length-update cache k f)

length-get_avail : (cache : NdCache) → length (get_avail_nd_entry cache).1 ≡ length cache
length-get_avail cache = elim (get_avail_nd_entry-cases cache) [
  | inl (e, _) ↦ ap (λ p. length p.1) e
  | inr (i, e, _, _, eq, _) ↦ ap (λ p. length p.1) eq ∙ length-set cache i _
]

abbrev KeepsLength : NdCache → ℕ × Bool × NdCache → Type 0
KeepsLength cache (_, _, cache') = length cache' ≡ length cache

claim_entry-length :
    (pkt : Packet) (cache : NdCache) → Ensures (KeepsLength cache) (claim_entry pkt cache)
unfolding claim_entry
claim_entry-length pkt cache = elim (Option-cases (lookup_nd_entry cache pkt.src)) [
  | inr (k, found) ↦ rw (found, claim_entry) refl
  | inl new ↦ elim (Option-cases (get_avail_nd_entry cache).0) [
    | inl full ↦ rw (new, claim_entry) (rw (full, claim_entry) tt)
    | inr (k, free) ↦
        rw (new, claim_entry)
          (rw (free, claim_entry) (length-update _ k _ ∙ length-get_avail cache))
  ]
]

answer-kept :
    (g : Globals) (pkt : Packet) (exists : Bool)
    → Ensures (λ events. free_events events ≡ 0) (answer g pkt exists)
unfolding answer free_events
answer-kept g pkt true =
    Ensures-bind _
      (send_nad g (target pkt.payload) pkt.net_src pkt.src (target pkt.payload)
        (pkt.net_iface % 256))
      _ (λ a _. refl)
answer-kept g pkt false =
    Ensures-bind _
      (send_nad g (target pkt.payload) pkt.net_src pkt.src (target pkt.payload)
        (pkt.net_iface % 256))
      _
      (λ a _.
        Ensures-bind _ (send_nsol g pkt.dest pkt.net_src pkt.src pkt.src (pkt.net_iface % 256)) _
          (λ s _. refl))

claimed-IsSafe :
    (st : NetState) (cache : NdCache) (k : ℕ) (f : NdEntry → NdEntry)
    → IsSafe st
    → length cache ≡ length st.nd_cache
    → IsSafe (record st { nd_cache = update cache k f })
claimed-IsSafe st cache k f v same = record {
  nat = v.nat;
  cache = length-update cache k f ∙ same ∙ v.cache;
}

routed-IsSafe :
    (cache : NdCache) (iface k : ℕ) {nat : NatState}
    → IsSafe (record { nat = nat; nd_cache = cache })
    → IsSafe (record {
      nat = record nat {
        fwd_tab =
            (insert_new_fwd_tab_entry
              (entry_addr cache k)
              128
              (entry_addr cache k)
              iface
              nat.fwd_tab).1;
      };
      nd_cache = cache;
    })
routed-IsSafe cache iface k {nat} v = record {
  nat = record {
    size = v.nat.size;
    counter = v.nat.counter;
    numbered = v.nat.numbered;
    fwd =
        insert_new_fwd_tab_entry-IsFwdTab (entry_addr cache k) 128 (entry_addr cache k) iface
          nat.fwd_tab v.nat.fwd;
  };
  cache = v.cache;
}

-- A neighbour solicitation changes the cache and the forwarding table, and nothing else.
nsolicit_handler-Handled :
    (g : Globals) (pkt : Packet) (st : NetState)
    → IsSafe st
    → Ensures Handled (nsolicit_handler g pkt st)
unfolding nsolicit_handler free_events
nsolicit_handler-Handled g pkt st v = elim (Option-cases (claim_entry pkt st.nd_cache)) [
  | inl full ↦ rw (full, nsolicit_handler) (record { safe = v; kept = refl })
  | inr ((k, exists, cache), claimed) ↦
      let same : length cache ≡ length st.nd_cache =
        Ensures-some (KeepsLength st.nd_cache) (claim_entry-length pkt st.nd_cache) claimed in
      elim (Option-cases (getmac pkt.payload)) [
        | inl no_mac ↦
            rw (claimed, nsolicit_handler)
              (rw (no_mac, nsolicit_handler)
                (record {
                  safe = claimed-IsSafe st cache k (refresh (getmac pkt.payload)) v same;
                  kept = refl;
                }))
        | inr (mac, found) ↦
            rw (claimed, nsolicit_handler)
              (rw (found, nsolicit_handler)
                (Ensures-bind Handled (answer g pkt exists) _ (λ events e. record {
                  safe =
                      routed-IsSafe (update cache k (refresh (getmac pkt.payload)))
                        (pkt.net_iface % 256) k
                        (claimed-IsSafe st cache k (refresh (getmac pkt.payload)) v same);
                  kept =
                      Ensures-some (λ events. free_events events ≡ 0) (answer-kept g pkt exists) e;
                })))
      ]
]

length-nadvert_handler :
    (pkt : Packet) (cache : NdCache) → length (nadvert_handler pkt cache) ≡ length cache
unfolding nadvert_handler
length-nadvert_handler pkt cache = elim (Option-cases (lookup_nd_entry cache pkt.src)) [
  | inl new ↦ rw (new, nadvert_handler) refl
  | inr (k, found) ↦ rw (found, nadvert_handler) (length-update cache k _)
]

neighbor_in-Handled :
    (g : Globals) (pkt : Packet) (st : NetState)
    → IsSafe st
    → Ensures Handled (neighbor_in g pkt st)
unfolding neighbor_in free_events
neighbor_in-Handled g pkt st v = elim (Bool-cases (icmp_type pkt.payload == 0x87)) [
  | inl sol ↦
      rw sol (Ensures-bind Handled (nsolicit_valid g.snm_addr pkt) _ (λ valid e. solicited valid))
  | inr no_sol ↦ elim (Bool-cases (icmp_type pkt.payload == 0x88)) [
    | inl ad ↦
        rw (no_sol, ad)
          (Ensures-bind Handled (nadvert_valid g.snm_addr pkt) _ (λ valid e. advertised valid))
    | inr no_ad ↦ elim (Bool-cases (icmp_type pkt.payload == 0x80)) [
      | inl ping ↦
          rw (no_sol, no_ad, ping)
            (Ensures-bind Handled
              (send_echo_resp g pkt.dest pkt.net_src pkt.src (identifier pkt.payload)
                (seq_number pkt.payload))
              _ (λ r e. record { safe = v; kept = refl }))
      | inr other ↦ rw (no_sol, no_ad, other) (record { safe = v; kept = refl })
    ]
  ]
]
  where
    solicited :
        (valid : Bool)
        → Ensures Handled (if valid then nsolicit_handler g pkt st else some (st, []))
    solicited true = nsolicit_handler-Handled g pkt st v
    solicited false = record { safe = v; kept = refl }

    advertised :
        (valid : Bool)
        → Handled
            (if valid then record st { nd_cache = nadvert_handler pkt st.nd_cache } else st, [])
    advertised true = record {
      safe = record { nat = v.nat; cache = length-nadvert_handler pkt st.nd_cache ∙ v.cache };
      kept = refl;
    }
    advertised false = record { safe = v; kept = refl }

-- `icmpv6_in` leaves the packet's buffer to its caller and the tables well formed.
pub icmpv6_in-Handled :
    (g : Globals) (pkt : Packet) (st : NetState) → IsSafe st → Ensures Handled (icmpv6_in g pkt st)
unfolding icmpv6_in free_events
icmpv6_in-Handled g pkt st v = elim (Bool-cases (icmp_type pkt.payload == 0x86)) [
  | inl ra ↦ rw ra (record { safe = v; kept = refl })
  | inr no_ra ↦ elim (Bool-cases (icmp_type pkt.payload == 0x85)) [
    | inl rs ↦ rw (no_ra, rs) (record { safe = v; kept = ground arith })
    | inr no_rs ↦ rw (no_ra, no_rs) (neighbor_in-Handled g pkt st v)
  ]
]
