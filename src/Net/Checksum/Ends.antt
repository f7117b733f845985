-- ===== src/Net/Checksum/Ends.antt =====
-- Where the checksum loop ends, whatever is summed.
use internetworking_nat_box.Base.{
  ℕ, zero, suc, ◌+◌, ◌*◌, ◌%◌, ◌^◌, ◌≤◌, ◌<◌, ◌≡◌, List, arith, lt→ltb, le→ltb, drop, Succeeds,
  Succeeds-bind,
}
use internetworking_nat_box.Net.Checksum.{read16, cksum_loop, checksumv6, cksum_valid}
use internetworking_nat_box.Net.Packet.{make_pseudo_hdr, set_checksum, recompute_checksum}

cksum_loop-Succeeds :
    (rounds k : ℕ) (pkt : List ℕ) (len i c : ℕ)
    → k < rounds
    → len ≤ i + k * 2
    → i + k * 2 < len + 2
    → len < 65535
    → Succeeds (cksum_loop rounds pkt len i c)
unfolding cksum_loop
cksum_loop-Succeeds zero k pkt len i c h a b m = absurd (omega arith)
cksum_loop-Succeeds (suc rounds) zero pkt len i c h a b m = rw (le→ltb i len (omega arith)) tt
cksum_loop-Succeeds (suc rounds) (suc k) pkt len i c h a b m =
    let next : (i + 2) % 2 ^ 16 ≡ i + 2 = omega arith in
    rw (lt→ltb i len (omega arith), next)
      (cksum_loop-Succeeds rounds k (drop 2 pkt) len (i + 2) ((c + read16 pkt 0) % 2 ^ 32)
        (omega arith) (omega arith) (omega arith) m)

-- A message of an even length below 65494 gets its checksum.
pub recompute_checksum-Succeeds :
    (src dest : List ℕ) (k : ℕ) (msg : List ℕ)
    → k < 32747
    → Succeeds (recompute_checksum src dest (k * 2) msg)
unfolding recompute_checksum checksumv6
recompute_checksum-Succeeds src dest k msg h =
    Succeeds-bind (checksumv6 (make_pseudo_hdr src dest (set_checksum msg 0) (k * 2)) (40 + k * 2))
      _
      (Succeeds-bind
        (cksum_loop 32768 (make_pseudo_hdr src dest (set_checksum msg 0) (k * 2)) (40 + k * 2) 0 0)
        _
        (cksum_loop-Succeeds 32768 (20 + k) (make_pseudo_hdr src dest (set_checksum msg 0) (k * 2))
          (40 + k * 2) 0 0 (omega arith) (omega arith) (omega arith) (omega arith))
        (λ s. tt))
      (λ s. tt)

-- So does every message of an even length up to 65532.
pub checksumv6-Succeeds : (k : ℕ) (pkt : List ℕ) → k < 32767 → Succeeds (checksumv6 pkt (k * 2))
unfolding checksumv6
checksumv6-Succeeds k pkt h =
    Succeeds-bind (cksum_loop 32768 pkt (k * 2) 0 0) _
      (cksum_loop-Succeeds 32768 k pkt (k * 2) 0 0 (omega arith) (omega arith) (omega arith)
        (omega arith))
      (λ s. tt)

pub cksum_valid-Succeeds :
    (k n : ℕ) (phead pkt : List ℕ)
    → k < 32767
    → n < 32767
    → Succeeds (cksum_valid phead pkt (k * 2) (n * 2))
unfolding cksum_valid
cksum_valid-Succeeds k n phead pkt h l =
    Succeeds-bind (checksumv6 pkt (k * 2)) _ (checksumv6-Succeeds k pkt h)
      (λ a. Succeeds-bind (checksumv6 phead (n * 2)) _ (checksumv6-Succeeds n phead l) (λ b. tt))
