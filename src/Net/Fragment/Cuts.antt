-- ===== src/Net/Fragment/Cuts.antt =====
-- The loop of `fragmentDatagram` ends and covers the payload.
use internetworking_nat_box.Base.{
  ℕ, zero, suc, ◌+◌, ◌-◌, ◌%◌, ◌^◌, ◌≤◌, ◌<◌, ◌≡◌, refl, sym, ap, ◌⊎◌, inl, inr, true, false, not,
  some, List, [], ◌∷◌, map, arith, ltb, ◌==◌, Bool-cases, length, All,
}
use internetworking_nat_box.Net.Fragment.{
  Datagram, Cut, cut, cut_length, cut_loop, fragment_packet, fill_fragment, fill_fragments,
  max_length, fragment_datagram,
}

-- The cuts follow each other from `at` to `end`, begin at multiples of 8, are not empty, and all but
-- the last have the M flag.
abbrev pub Consecutive : ℕ → ℕ → List Cut → Type 0
Consecutive at end [] = at ≡ end
Consecutive at end (c ∷ cs) =
    (c.frag_offset ≡ at)
    × (at % 8 ≡ 0)
    × (0 < c.payload_len)
    × (c.m_flag ≡ not (end - (at + c.payload_len) == 0))
    × Consecutive (at + c.payload_len) end cs

cut_length-le :
    (max_len remain : ℕ)
    → 0 < max_len
    → 0 < remain
    → (0 < cut_length max_len remain)
      × (cut_length max_len remain ≤ remain)
      × (cut_length max_len remain ≤ max_len)
cut_length-le max_len remain h pos = ground arith

cut_length-aligned :
    (max_len remain : ℕ)
    → max_len % 8 ≡ 0
    → (cut_length max_len remain % 8 ≡ 0) ⊎ (cut_length max_len remain ≡ remain)
cut_length-aligned max_len remain h = elim (Bool-cases (ltb max_len remain)) [
  | inl more ↦ inl (rw more h)
  | inr last ↦ elim (Bool-cases (ltb 8 remain)) [
    | inl long ↦ inl (rw (last, long) (omega arith))
    | inr short ↦ inr (rw (last, short) refl)
  ]
]

cut_loop-step :
    (rounds max_len remain at : ℕ) {cs : List Cut}
    → (remain == 0) ≡ false
    → at + cut_length max_len remain < 2 ^ 16
    → cut_loop rounds max_len (remain - cut_length max_len remain) (at + cut_length max_len remain)
      ≡ some cs
    → cut_loop (suc rounds) max_len remain at
      ≡ some
          (cut at (cut_length max_len remain) (not (remain - cut_length max_len remain == 0)) ∷ cs)
unfolding cut_loop
cut_loop-step rounds max_len remain at more small run =
    let next : (at + cut_length max_len remain) % 2 ^ 16 ≡ at + cut_length max_len remain =
      omega arith in
    rw (more, next, run) refl

pub cut_loop-Consecutive :
    (rounds max_len remain at end : ℕ)
    → 0 < max_len
    → max_len % 8 ≡ 0
    → remain < rounds
    → at + remain ≡ end
    → end < 2 ^ 16
    → (remain ≡ 0) ⊎ (at % 8 ≡ 0)
    → (cs : List Cut) × (cut_loop rounds max_len remain at ≡ some cs)
      × Consecutive at end cs
      × All (λ c. c.payload_len ≤ max_len) cs
unfolding cut_loop
cut_loop-Consecutive zero max_len remain at end pos eight fuel sum small start =
    absurd (omega arith)
cut_loop-Consecutive (suc rounds) max_len remain at end pos eight fuel sum small start =
    elim (Bool-cases (remain == 0)) [
      | inl done ↦ ([], rw done refl, ground arith, tt)
      | inr more ↦
          let len = cut_length max_len remain in
          let (some_bytes, inside, bounded) = cut_length-le max_len remain pos (ground arith) in
          let aligned : at % 8 ≡ 0 = ground arith in
          let left : end - (at + len) ≡ remain - len = omega arith in
          let start' : (remain - len ≡ 0) ⊎ ((at + len) % 8 ≡ 0) =
            elim (cut_length-aligned max_len remain eight) [
              | inl whole ↦ inr (omega arith)
              | inr all ↦ inl (omega arith)
            ] in
          let (cs, run, chain, fits) =
            cut_loop-Consecutive rounds max_len (remain - len) (at + len) end pos eight
              (omega arith) (omega arith) small start' in
          (
            cut at len (not (remain - len == 0)) ∷ cs,
            cut_loop-step rounds max_len remain at more (omega arith) run,
            (refl, aligned, some_bytes, ap (λ x. not (x == 0)) (sym left), chain),
            (bounded, fits),
          )
    ]

pub max_length-aligned :
    (mtu : ℕ)
    → 56 ≤ mtu
    → mtu < 2 ^ 16
    → (0 < max_length mtu) × (max_length mtu % 8 ≡ 0) × (max_length mtu ≤ mtu - 48)
max_length-aligned mtu low high = ground arith

All-le :
    (max_len mtu : ℕ) (cs : List Cut)
    → 48 + max_len ≤ mtu
    → All (λ c. c.payload_len ≤ max_len) cs
    → All (λ c. 48 + c.payload_len ≤ mtu) cs
All-le max_len mtu [] h fits = tt
All-le max_len mtu (c ∷ cs) h fits = (omega arith, All-le max_len mtu cs h fits.1)

-- Fragments for an Ethernet fit into their buffers.
fill_fragments-fit :
    (datagram : Datagram) (identif mtu : ℕ) (cs : List Cut)
    → mtu ≤ 1500
    → All (λ c. 48 + c.payload_len ≤ mtu) cs
    → fill_fragments datagram identif cs ≡ some (map (fragment_packet datagram identif) cs)
unfolding fill_fragments fill_fragment
fill_fragments-fit datagram identif mtu [] h fits = refl
fill_fragments-fit datagram identif mtu (c ∷ cs) h fits =
    let inside : ltb 1520 (62 + c.payload_len) ≡ false = ground (arith, fits.0) in
    rw (inside, fill_fragments-fit datagram identif mtu cs h fits.1) refl

-- For an MTU of 56 to 1500 and a payload of at most 65535 bytes, a datagram that does not fit into it is cut into fragments that follow
-- each other, begin at multiples of 8, are not empty and cover the payload; all but the last have the
-- M flag, each becomes one packet, inside its buffer, and no packet is longer than the MTU.
pub fragment_datagram-Consecutive :
    (mtu identif : ℕ) (datagram : Datagram)
    → 56 ≤ mtu
    → mtu < 40 + length datagram.payload
    → length datagram.payload < 2 ^ 16
    → mtu ≤ 1500
    → (cs : List Cut) × (fragment_datagram mtu identif datagram
        ≡ some (map (fragment_packet datagram identif) cs))
      × Consecutive 0 (length datagram.payload) cs
      × All (λ c. 48 + c.payload_len ≤ mtu) cs
unfolding fragment_datagram
fragment_datagram-Consecutive mtu identif datagram low long small high =
    let big : ltb mtu (40 + length datagram.payload) ≡ true = ground arith in
    let (pos, eight, most) = max_length-aligned mtu low (omega arith) in
    let (cs, run, chain, fits) =
      cut_loop-Consecutive 65537 (max_length mtu) (length datagram.payload) 0
        (length datagram.payload) pos eight (omega arith) (omega arith) small (inr refl) in
    let short = All-le (max_length mtu) mtu cs (omega (arith, most)) fits in
    (cs, rw (big, run) (fill_fragments-fit datagram identif mtu cs high short), chain, short)
