-- ===== src/Net/Packet/Rewrite.antt =====
-- What `recompute_checksum` leaves in a message: a checksum that verifies, and the other fields.
use internetworking_nat_box.Base.{
  ℕ, suc, ◌+◌, ◌*◌, ◌/◌, ◌%◌, ◌^◌, ◌≤◌, ◌<◌, ◌≡◌, ◌∙◌, ◌↔◌, some, List, [], ◌∷◌, ◌++◌, arith,
  length, set, take, All, length-append, length-set, All-append, set-append_right, take-set,
  length-take, All-take, get_or-set_self, get_or-set_ne,
}
use mathlib.Core.List.{append_assoc}
use mathlib.Core.Path.{subst}
use internetworking_nat_box.Net.Checksum.{read16, write16, fold_complement, checksumv6}
use internetworking_nat_box.Net.Checksum.Sum.{
  IsByte, sum_words, checksumv6-sum_words, write16-IsByte,
}
use internetworking_nat_box.Net.Checksum.Verify.{CarriesTwice, checksumv6-store}
use internetworking_nat_box.Net.Packet.{set_checksum, bytes32, make_pseudo_hdr, recompute_checksum}

-- An IPv6 address in memory.
pub record IsAddr (a : List ℕ) : Type 0 where
  pub size : length a ≡ 16
  pub bytes : All IsByte a

pub read16-write16_self :
    (bs : List ℕ) (i v : ℕ) → suc i < length bs → v < 2 ^ 16 → read16 (write16 bs i v) i ≡ v
read16-write16_self bs i v h s = omega (
  arith,
  get_or-set_ne (set bs i (v / 256 % 256)) (suc i) i (v % 256) 0 (omega arith),
  get_or-set_self bs i (v / 256 % 256) 0 (omega arith),
  get_or-set_self (set bs i (v / 256 % 256)) (suc i) (v % 256) 0
      (omega (arith, length-set bs i (v / 256 % 256))),
)

pub read16-write16_ne :
    (bs : List ℕ) (i j v : ℕ) → suc i < j → read16 (write16 bs i v) j ≡ read16 bs j
read16-write16_ne bs i j v h = omega (
  arith,
  get_or-set_ne (set bs i (v / 256 % 256)) (suc i) j (v % 256) 0 (omega arith),
  get_or-set_ne bs i j (v / 256 % 256) 0 (omega arith),
  get_or-set_ne (set bs i (v / 256 % 256)) (suc i) (suc j) (v % 256) 0 (omega arith),
  get_or-set_ne bs i (suc j) (v / 256 % 256) 0 (omega arith),
)

pub length-write16 : (bs : List ℕ) (i v : ℕ) → length (write16 bs i v) ≡ length bs
length-write16 bs i v =
    length-set (set bs i (v / 256 % 256)) (suc i) (v % 256) ∙ length-set bs i (v / 256 % 256)

-- The buffer that is summed, and the message with its checksum.
abbrev pub summed : List ℕ → List ℕ → List ℕ → ℕ → List ℕ
summed src dest msg size = make_pseudo_hdr src dest (set_checksum msg 0) size

abbrev pub checked : List ℕ → List ℕ → List ℕ → ℕ → List ℕ
checked src dest msg k =
    set_checksum (set_checksum msg 0)
      (fold_complement (sum_words (20 + k) (summed src dest msg (k * 2))))

module _ {src dest : List ℕ} (s : IsAddr src) (d : IsAddr dest) where
  -- The 40 bytes in front of the message.
  abbrev front : ℕ → List ℕ
  front size = src ++ (dest ++ (bytes32 size ++ (0 ∷ 0 ∷ 0 ∷ 0x3A ∷ [])))

  length-front : (size : ℕ) → length (front size) ≡ 40
  length-front size = omega (
    arith,
    s.size,
    d.size,
    length-append src (dest ++ (bytes32 size ++ (0 ∷ 0 ∷ 0 ∷ 0x3A ∷ []))),
    length-append dest (bytes32 size ++ (0 ∷ 0 ∷ 0 ∷ 0x3A ∷ [])),
  )

  make_pseudo_hdr-front :
      (msg : List ℕ) (size : ℕ) → make_pseudo_hdr src dest msg size ≡ front size ++ take size msg
  unfolding make_pseudo_hdr
  make_pseudo_hdr-front msg size = simp append_assoc

  make_pseudo_hdr-IsByte :
      (msg : List ℕ) (size : ℕ) → All IsByte msg → All IsByte (make_pseudo_hdr src dest msg size)
  unfolding make_pseudo_hdr
  make_pseudo_hdr-IsByte msg size h = All-append IsByte src _ s.bytes (
      All-append IsByte dest _ d.bytes (
        All-append IsByte (bytes32 size) (0 ∷ 0 ∷ 0 ∷ 0x3A ∷ take size msg) (omega arith)
          (All-append IsByte (0 ∷ 0 ∷ 0 ∷ 0x3A ∷ []) _ (omega arith) (All-take IsByte size msg h))))

  set-front_two : (size w : ℕ) (l : List ℕ) → set (front size ++ l) 42 w ≡ front size ++ set l 2 w
  set-front_two size w l =
      subst (λ n. set (front size ++ l) (n + 2) w ≡ front size ++ set l 2 w) (length-front size)
        (set-append_right (front size) l 2 w)

  set-front_three : (size w : ℕ) (l : List ℕ) → set (front size ++ l) 43 w ≡ front size ++ set l 3 w
  set-front_three size w l =
      subst (λ n. set (front size ++ l) (n + 3) w ≡ front size ++ set l 3 w) (length-front size)
        (set-append_right (front size) l 3 w)

  -- Storing the checksum in the message stores it in the summed buffer.
  make_pseudo_hdr-set_checksum :
      (msg : List ℕ) (size v : ℕ)
      → make_pseudo_hdr src dest (set_checksum msg v) size
        ≡ write16 (make_pseudo_hdr src dest msg size) 42 v
  make_pseudo_hdr-set_checksum msg size v = rw (
    make_pseudo_hdr-front (set_checksum msg v) size,
    make_pseudo_hdr-front msg size,
    take-set size (set msg 2 (v / 256 % 256)) 3 (v % 256),
    take-set size msg 2 (v / 256 % 256),
    set-front_two size (v / 256 % 256) (take size msg),
    set-front_three size (v % 256) (set (take size msg) 2 (v / 256 % 256)),
  )

  length-make_pseudo_hdr :
      (msg : List ℕ) (size : ℕ)
      → size ≤ length msg
      → length (make_pseudo_hdr src dest msg size) ≡ 40 + size
  length-make_pseudo_hdr msg size h = rw (make_pseudo_hdr-front msg size) (
      omega (
        arith,
        length-append (front size) (take size msg),
        length-front size,
        length-take size msg h,
      ))

  module _ (msg : List ℕ) (k : ℕ) (long : 4 ≤ k * 2) (whole : k * 2 ≤ length msg)
      (small : k ≤ 32747) (bytes : All IsByte msg) where
    summed-IsByte : All IsByte (summed src dest msg (k * 2))
    summed-IsByte =
        make_pseudo_hdr-IsByte (set_checksum msg 0) (k * 2) (write16-IsByte msg 2 0 bytes)

    pub recompute_checksum_lem :
        recompute_checksum src dest (k * 2) msg ≡ some (checked src dest msg k)
    unfolding recompute_checksum
    recompute_checksum_lem = rw (
        checksumv6-sum_words (20 + k) (40 + k * 2) (summed src dest msg (k * 2)) (omega arith)
          (omega arith) (omega arith) summed-IsByte)

    zeroed_summed : read16 (summed src dest msg (k * 2)) 42 ≡ 0
    zeroed_summed = rw (make_pseudo_hdr-set_checksum msg (k * 2) 0) (
        read16-write16_self (make_pseudo_hdr src dest msg (k * 2)) 42 0
          (omega (arith, length-make_pseudo_hdr msg (k * 2) whole)) (omega arith))

    -- For a message of bytes with an even length, `recompute_checksum` ends and stores a checksum. The
    -- receiver's sum over the stored message is 0, so the checksum verifies, exactly when the single
    -- fold of the sum carries at most once.
    pub recompute_checksum-verifies :
        (recompute_checksum src dest (k * 2) msg ≡ some (checked src dest msg k))
        × ((checksumv6 (make_pseudo_hdr src dest (checked src dest msg k) (k * 2)) (40 + k * 2)
              ≡ some 0)
            ↔ (¬ CarriesTwice (sum_words (20 + k) (summed src dest msg (k * 2)))))
    recompute_checksum-verifies =
        let double : (20 + k) * 2 ≡ 40 + k * 2 = omega arith in
        (
          recompute_checksum_lem,
          rw
              (
                make_pseudo_hdr-set_checksum (set_checksum msg 0) (k * 2)
                    (fold_complement (sum_words (20 + k) (summed src dest msg (k * 2)))),
                ← double,
              )
              (checksumv6-store (20 + k) 21 (summed src dest msg (k * 2)) (omega arith)
                (omega arith)
                (omega (
                  arith,
                  length-make_pseudo_hdr (set_checksum msg 0) (k * 2)
                      (omega (arith, length-write16 msg 2 0)),
                ))
                summed-IsByte zeroed_summed),
        )
