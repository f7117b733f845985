-- ===== src/Net/Router/Address.antt =====
-- The addresses that net/ipv6.c derives from a MAC, and what they have of it.
use internetworking_nat_box.Base.{
  ℕ, ◌+◌, ◌-◌, ◌/◌, ◌%◌, ◌≡◌, refl, sym, ap, ◌∙◌, List, [], ◌∷◌, ◌++◌, arith, ◌==◌, if◌then◌else◌,
  length, get_or, take, drop, replicate, All,
}
use internetworking_nat_box.Net.Checksum.Sum.{IsByte}

-- `v ^ 0x02` of a byte.
abbrev pub flip_local : ℕ → ℕ
flip_local v = if v / 2 % 2 == 0 then v + 2 else v - 2

unfoldable pub get_link_local : List ℕ → List ℕ
get_link_local mac =
    0xFE
    ∷ 0x80
    ∷ 0
    ∷ 0
    ∷ 0
    ∷ 0
    ∷ 0
    ∷ 0
    ∷ flip_local (get_or mac 0 0)
    ∷ get_or mac 1 0
    ∷ get_or mac 2 0
    ∷ 0xFF
    ∷ 0xFE
    ∷ get_or mac 3 0
    ∷ get_or mac 4 0
    ∷ get_or mac 5 0
    ∷ []

unfoldable pub get_snm_addr : List ℕ → List ℕ
get_snm_addr unicast = 0xFF ∷ 0x02 ∷ replicate 9 0 ++ (0x01 ∷ 0xFF ∷ take 3 (drop 13 unicast))

unfoldable pub get_mac_snm : List ℕ → List ℕ
get_mac_snm snm_addr = 0x33 ∷ 0x33 ∷ take 4 (drop 12 snm_addr)

-- A MAC address in memory.
pub record IsMac (mac : List ℕ) : Type 0 where
  pub size : length mac ≡ 6
  pub bytes : All IsByte mac

-- A list of six is read back from its places.
of_six :
    (xs : List ℕ)
    → length xs ≡ 6
    → xs
      ≡ get_or xs 0 0
        ∷ get_or xs 1 0
        ∷ get_or xs 2 0
        ∷ get_or xs 3 0
        ∷ get_or xs 4 0
        ∷ get_or xs 5 0
        ∷ []
of_six [] h = absurd (omega arith)
of_six (a ∷ []) h = absurd (omega arith)
of_six (a ∷ b ∷ []) h = absurd (omega arith)
of_six (a ∷ b ∷ c ∷ []) h = absurd (omega arith)
of_six (a ∷ b ∷ c ∷ d ∷ []) h = absurd (omega arith)
of_six (a ∷ b ∷ c ∷ d ∷ e ∷ []) h = absurd (omega arith)
of_six (a ∷ b ∷ c ∷ d ∷ e ∷ f ∷ []) h = refl
of_six (a ∷ b ∷ c ∷ d ∷ e ∷ f ∷ g ∷ xs) h = absurd (omega arith)

flip_local_inj : (v w : ℕ) → flip_local v ≡ flip_local w → v ≡ w
flip_local_inj v w e = ground arith

-- Two MACs with the same link-local address are the same.
pub get_link_local_inj :
    (mac other : List ℕ)
    → IsMac mac
    → IsMac other
    → get_link_local mac ≡ get_link_local other
    → mac ≡ other
unfolding get_link_local
get_link_local_inj mac other m o h =
    let at : (k : ℕ) → get_or (get_link_local mac) k 0 ≡ get_or (get_link_local other) k 0 =
      λ k. ap (λ l. get_or l k 0) h in
    of_six mac m.size
    ∙ rw
        (
          flip_local_inj (get_or mac 0 0) (get_or other 0 0) (at 8),
          at 9,
          at 10,
          at 13,
          at 14,
          at 15,
        )
        (sym (of_six other o.size))

-- The multicast MAC of a link-local address's solicited-node group is 33:33:FF and the last three
-- bytes of the MAC that the address was made from.
pub get_mac_snm-get_link_local :
    (mac : List ℕ)
    → get_mac_snm (get_snm_addr (get_link_local mac))
      ≡ 0x33 ∷ 0x33 ∷ 0xFF ∷ get_or mac 3 0 ∷ get_or mac 4 0 ∷ get_or mac 5 0 ∷ []
unfolding get_link_local get_snm_addr get_mac_snm
get_mac_snm-get_link_local mac = refl
