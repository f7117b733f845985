-- ===== src/Net/Tests/Sessions.antt =====
-- Address translation and packet input at concrete packets.
use internetworking_nat_box.Base.{
  Succeeds, ◌++◌, ◌≡◌, refl, sym, true, none, some, [], ◌∷◌, arith, Ensures, get_elem?,
}
use internetworking_nat_box.Net.Packet.{Packet, icmp_type, identifier, seq_number}
use internetworking_nat_box.Net.Nat.{NatState, inc_pkt_rw, out_pkt_rw}
use internetworking_nat_box.Net.Nat.Invariant.{translated, out_pkt_rw-free, out_pkt_rw-overrun}
use internetworking_nat_box.Net.Nat.Roundtrip.{stop, inc_pkt_rw-out_pkt_rw, identifier-checked}
use internetworking_nat_box.Net.Nat.Safe
use internetworking_nat_box.Net.Nat.Session.{Opened, out_pkt_rw-Opened, out_pkt_rw-unused}
use internetworking_nat_box.Net.Icmp.{wrote, icmpv6_in, nsolicit_handler}
use internetworking_nat_box.Net.Icmp.Learn.{Answered, nsolicit_handler-Learned}
use internetworking_nat_box.Net.Neighbor.{getmac}
use internetworking_nat_box.Net.Icmp.Echo.{icmpv6_in-echo}
use internetworking_nat_box.Net.Icmp.Handlers.{Handled, icmpv6_in-Handled}
use internetworking_nat_box.Net.Input.{ipv6_in}
use internetworking_nat_box.Net.Input.Paths.{Finished, ipv6_in-Finished}
use internetworking_nat_box.Net.Tests.{
  outside_host, box_addr, box_addr-IsAddr, ping, pong, ping-IsEcho, pong-IsEcho, fresh, counted_up,
  fwdipv6_init-IsWhole, no_session, fresh-IsNat, fresh-IsSafe, box, start, start-IsSafe,
}

inc_pkt_rw-out_pkt_rw_example :
    (back : Packet) × (inc_pkt_rw (translated 1 ping fresh).nat_tab pong ≡ some (some 1, back))
    × (back.dest ≡ ping.src)
    × (identifier back.payload ≡ identifier ping.payload)
    × (seq_number back.payload ≡ seq_number pong.payload)
    × (back.src ≡ ping.dest)
inc_pkt_rw-out_pkt_rw_example =
    inc_pkt_rw-out_pkt_rw box_addr-IsAddr 1 {pkt = ping} {reply = pong} {st = fresh} fresh-IsNat
      ping-IsEcho (out_pkt_rw-free box_addr-IsAddr 1 fresh ping-IsEcho (omega arith)) stop
      pong-IsEcho refl
      (sym (identifier-checked box_addr outside_host ping.payload 0 (omega arith) (omega arith)))

out_pkt_rw-Opened_example :
    (st' : NatState) × (out : Packet) × (out_pkt_rw box_addr 1 ping fresh ≡ some (true, st', out))
    × Opened 1 ping out fresh st'
out_pkt_rw-Opened_example =
    out_pkt_rw-Opened box_addr-IsAddr 1 fresh-IsNat ping-IsEcho fwdipv6_init-IsWhole (omega arith)

out_pkt_rw-unused_example :
    Ensures (λ r. get_elem? r.1.nat_tab 29 ≡ some no_session) (out_pkt_rw box_addr 1 ping fresh)
out_pkt_rw-unused_example = out_pkt_rw-unused box_addr 1 ping fresh

out_pkt_rw-overrun_example : out_pkt_rw box_addr 1 ping (counted_up 30) ≡ none
out_pkt_rw-overrun_example =
    out_pkt_rw-overrun box_addr 1 ping (counted_up 30) (omega arith) (omega arith)

out_pkt_rw-IsSafe_example : Ensures Safe.SafeAfter (out_pkt_rw box_addr 1 ping fresh)
out_pkt_rw-IsSafe_example = Safe.out_pkt_rw-IsSafe box_addr 1 ping fresh fresh-IsSafe

ipv6_in-Finished_example : Ensures Finished (ipv6_in box ping start)
ipv6_in-Finished_example = ipv6_in-Finished box ping start start-IsSafe

icmpv6_in-Handled_example : Ensures Handled (icmpv6_in box ping start)
icmpv6_in-Handled_example = icmpv6_in-Handled box ping start start-IsSafe

icmpv6_in-echo_example :
    (frame : Packet) × (icmpv6_in box ping start ≡ some (start, wrote frame ∷ []))
    × (frame.net_dst ≡ ping.net_src)
    × (frame.src ≡ ping.dest)
    × (frame.dest ≡ ping.src)
    × (icmp_type frame.payload ≡ 0x81)
    × (identifier frame.payload ≡ identifier ping.payload)
    × (seq_number frame.payload ≡ seq_number ping.payload)
icmpv6_in-echo_example = icmpv6_in-echo box start ping-IsEcho refl

-- A solicitation from the inside host, with the MAC of the host in its option.
abbrev solicitation : Packet
solicitation = record ping {
  payload = 135 ∷ 0 ∷ 0 ∷ 0 ∷ 0 ∷ 0 ∷ 0 ∷ 0 ∷ box_addr ++ (1 ∷ 1 ∷ 2 ∷ 0 ∷ 0 ∷ 0 ∷ 0 ∷ 9 ∷ []);
}

nsolicit_handler-Learned_example :
    Succeeds (nsolicit_handler box solicitation start)
    × Ensures
        (Answered solicitation (2 ∷ 0 ∷ 0 ∷ 0 ∷ 0 ∷ 9 ∷ []) start)
        (nsolicit_handler box solicitation start)
unfolding getmac
nsolicit_handler-Learned_example =
    nsolicit_handler-Learned box solicitation start (2 ∷ 0 ∷ 0 ∷ 0 ∷ 0 ∷ 9 ∷ []) (omega arith) refl
