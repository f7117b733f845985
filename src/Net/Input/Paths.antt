-- ===== src/Net/Input/Paths.antt =====
-- What every path through `ipv6_in` keeps: each received buffer is returned once, and the tables stay
-- well formed.
use internetworking_nat_box.Base.{
  ℕ, ◌%◌, ◌≡◌, refl, inl, inr, Bool, true, false, not, ◌&&◌, Option, none, some, List, [], ◌∷◌,
  ◌++◌, arith, ◌==◌, if◌then◌else◌, Bool-cases, Option-cases, Ensures, Ensures-bind, Ensures-some,
}
use internetworking_nat_box.Net.Packet.{Packet}
use internetworking_nat_box.Net.Icmp.{NetState, Event, freed, Outcome, icmpv6_in}
use internetworking_nat_box.Net.Icmp.Handlers.{
  IsSafe, Handled, icmpv6_in-Handled, free_events, free_events-append,
}
use internetworking_nat_box.Net.Forward.{Globals, fwd_ip_datagram}
use internetworking_nat_box.Net.Nat.{NatState, inc_pkt_rw, out_pkt_rw}
use internetworking_nat_box.Net.Nat.Safe.{SafeAfter, out_pkt_rw-IsSafe}
use internetworking_nat_box.Net.Input.{
  from_own_mac, is_it_mine, forward, nat_and_forward, process, local_in, ipv6_in,
}

-- The buffer is returned once and the tables are well formed.
pub record Finished (out : Outcome) : Type 0 where
  pub safe : IsSafe out.0
  pub once : free_events out.1 ≡ 1

drop-Finished : {st : NetState} → IsSafe st → Finished (st, freed ∷ [])
unfolding free_events
drop-Finished v = record { safe = v; once = refl }

forward-Finished :
    (g : Globals) {st : NetState} (pkt : Packet) → IsSafe st → Ensures Finished (forward g st pkt)
unfolding forward free_events
forward-Finished g {st} pkt v =
    elim (Option-cases (fwd_ip_datagram g st.nat.fwd_tab st.nd_cache pkt)) [
      | inl nothing ↦ rw nothing tt
      | inr (frame, sent) ↦ rw sent (record { safe = v; once = refl })
    ]

nat_and_forward-Finished :
    (g : Globals) (pkt : Packet) (st : NetState)
    → IsSafe st
    → Ensures Finished (nat_and_forward g pkt st)
unfolding nat_and_forward
nat_and_forward-Finished g pkt st v = elim (Bool-cases (pkt.net_iface == g.ifprime)) [
  | inl outside ↦ rw outside (
      Ensures-bind Finished (inc_pkt_rw st.nat.nat_tab pkt) _
        (λ (iface, back) e. incoming iface back))
  | inr inside ↦ rw inside (
      Ensures-bind Finished (out_pkt_rw g.ipv6_addr (pkt.net_iface % 256) pkt st.nat) _
        (λ (done, nat, out) e. outgoing done nat out (
          Ensures-some SafeAfter
            (out_pkt_rw-IsSafe g.ipv6_addr (pkt.net_iface % 256) pkt st.nat v.nat) e)))
]
  where
    incoming :
        (iface : Option ℕ) (back : Packet)
        → Ensures Finished
            (elim iface [ none ↦ some (st, freed ∷ []) | some _ ↦ forward g st back ])
    incoming none back = drop-Finished v
    incoming (some i) back = forward-Finished g back v

    outgoing :
        (done : Bool) (nat : NatState) (out : Packet)
        → SafeAfter (done, nat, out)
        → Ensures Finished (
            if done
            then forward g (record st { nat = nat }) out
            else some (record st { nat = nat }, freed ∷ []))
    outgoing true nat out s = forward-Finished g out (record { nat = s; cache = v.cache })
    outgoing false nat out s = drop-Finished (record { nat = s; cache = v.cache })

process-Finished :
    (g : Globals) (pkt : Packet) (st : NetState) → IsSafe st → Ensures Finished (process g pkt st)
unfolding process free_events
process-Finished g pkt st v = elim (Bool-cases (pkt.next_header == 0x3A)) [
  | inl icmp ↦ rw icmp (
      Ensures-bind Finished (icmpv6_in g pkt st) _ (λ (st', events) e.
        close st' events (Ensures-some Handled (icmpv6_in-Handled g pkt st v) e)))
  | inr other ↦ elim (Bool-cases (pkt.next_header == 0x2C)) [
    | inl frag ↦ rw (other, frag) (record { safe = v; once = refl })
    | inr none_of_these ↦ rw (other, none_of_these) (record { safe = v; once = refl })
  ]
]
  where
    close :
        (st' : NetState) (events : List Event)
        → Handled (st', events)
        → Finished (st', events ++ (freed ∷ []))
    close st' events h = record {
      safe = h.safe;
      once = omega (arith, h.kept, free_events-append events (freed ∷ []));
    }

local_in-Finished :
    (g : Globals) (pkt : Packet) (st : NetState) → IsSafe st → Ensures Finished (local_in g pkt st)
unfolding local_in
local_in-Finished g pkt st v = elim (Bool-cases g.host) [
  | inl host ↦ simp host (process-Finished g pkt st v)
  | inr box ↦ simp box (
      Ensures-bind Finished (inc_pkt_rw st.nat.nat_tab pkt) _
        (λ (iface, back) e. session iface back))
]
  where
    session :
        (iface : Option ℕ) (back : Packet)
        → Ensures Finished (elim iface [ none ↦ process g pkt st | some _ ↦ forward g st back ])
    session none back = process-Finished g pkt st v
    session (some i) back = forward-Finished g back v

-- Every defined run of `ipv6_in` returns the buffer of the received packet exactly once, and leaves
-- the translation table, its counter, the forwarding table and the neighbour cache well formed.
pub ipv6_in-Finished :
    (g : Globals) (pkt : Packet) (st : NetState) → IsSafe st → Ensures Finished (ipv6_in g pkt st)
unfolding ipv6_in
ipv6_in-Finished g pkt st v = elim (Bool-cases (from_own_mac g pkt)) [
  | inl own ↦ rw own (drop-Finished v)
  | inr foreign ↦ elim (Bool-cases (g.has_ipv6_addr && not (is_it_mine g pkt.dest))) [
    | inl away ↦ elim (Bool-cases g.host) [
      | inl host ↦ rw (foreign, away) (simp host (forward-Finished g pkt v))
      | inr box ↦ rw (foreign, away) (simp box (nat_and_forward-Finished g pkt st v))
    ]
    | inr mine ↦ rw (foreign, mine) (local_in-Finished g pkt st v)
  ]
]
