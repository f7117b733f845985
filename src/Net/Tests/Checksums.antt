-- ===== src/Net/Tests/Checksums.antt =====
-- The checksum code at concrete bytes.
use internetworking_nat_box.Base.{◌≡◌, refl, ◌↔◌, none, some, [], ◌∷◌, arith}
use internetworking_nat_box.Net.Checksum.{write16, checksumv6, cksum_loop, fold_complement}
use internetworking_nat_box.Net.Checksum.Sum.{sum_words, checksumv6_lem, checksumv6_diverges}
use internetworking_nat_box.Net.Checksum.Verify.{CarriesTwice, checksumv6-store}
use internetworking_nat_box.Net.Bytes.{match, byte_comp, byte_comp-eq-match}
use internetworking_nat_box.Net.Packet.{make_pseudo_hdr, recompute_checksum}
use internetworking_nat_box.Net.Packet.Rewrite.{checked, summed, recompute_checksum-verifies}
use internetworking_nat_box.Net.Tests.{
  IsByte-of_below, inside_host, outside_host, box_addr, inside_host-IsAddr, outside_host-IsAddr,
  ping,
}

recompute_checksum-verifies_example :
    (recompute_checksum inside_host outside_host 8 ping.payload
      ≡ some (checked inside_host outside_host ping.payload 4))
    × ((checksumv6
            (make_pseudo_hdr inside_host outside_host
              (checked inside_host outside_host ping.payload 4)
              8)
            48
          ≡ some 0)
        ↔ (¬ CarriesTwice (sum_words 24 (summed inside_host outside_host ping.payload 8))))
recompute_checksum-verifies_example =
    recompute_checksum-verifies inside_host-IsAddr outside_host-IsAddr ping.payload 4 (omega arith)
      (omega arith) (omega arith) (IsByte-of_below ping.payload refl)

checksumv6_lem_example :
    checksumv6 (1 ∷ 2 ∷ 3 ∷ 4 ∷ []) 3 ≡ some (fold_complement (sum_words 2 (1 ∷ 2 ∷ 3 ∷ 4 ∷ [])))
checksumv6_lem_example =
    checksumv6_lem 2 3 (1 ∷ 2 ∷ 3 ∷ 4 ∷ []) (omega arith) (omega arith) (omega arith) (omega arith)
      (IsByte-of_below (1 ∷ 2 ∷ 3 ∷ 4 ∷ []) refl)

checksumv6_diverges_example : cksum_loop 32768 [] 65535 0 0 ≡ none
checksumv6_diverges_example =
    checksumv6_diverges 32768 [] 65535 0 0 (omega arith) (omega arith) (omega arith)

checksumv6-store_example :
    (checksumv6
        (write16 (1 ∷ 2 ∷ 0 ∷ 0 ∷ []) 2 (fold_complement (sum_words 2 (1 ∷ 2 ∷ 0 ∷ 0 ∷ []))))
        4
      ≡ some 0)
    ↔ (¬ CarriesTwice (sum_words 2 (1 ∷ 2 ∷ 0 ∷ 0 ∷ [])))
checksumv6-store_example =
    checksumv6-store 2 1 (1 ∷ 2 ∷ 0 ∷ 0 ∷ []) (omega arith) (omega arith) (omega arith)
      (IsByte-of_below (1 ∷ 2 ∷ 0 ∷ 0 ∷ []) refl) refl

byte_comp-eq-match_example : byte_comp box_addr outside_host 16 ≡ match box_addr outside_host 16
byte_comp-eq-match_example = byte_comp-eq-match box_addr outside_host 16 (omega arith)
