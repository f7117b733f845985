-- ===== src/Net/Fwd/Lookup.antt =====
-- `getNextHop` finds the longest prefix of the destination in a sorted table. It compares whole
-- bytes, so the prefix lengths have to be multiples of 8.
use internetworking_nat_box.Base.{
  ℕ, suc, ◌+◌, ◌*◌, ◌/◌, ◌%◌, ◌≤◌, ◌≡◌, refl, ap, ◌∙◌, ◌≢◌, ◌⊎◌, inl, inr, true, Option, none, some,
  List, [], ◌∷◌, arith, ◌==◌, ==_iff, Bool-cases, get_elem?, All, All-mem, Bool, false,
}
use mathlib.Core.List.{Mem}
use native.Mathlib.Bridge.{le_prop}
use mathlib.Core.Path.{subst}
use internetworking_nat_box.Net.Bytes.{match}
use internetworking_nat_box.Net.Fwd.{FwdEntry, FwdTab, get_next_hop_from, get_next_hop}
use internetworking_nat_box.Net.Fwd.Sort.{IsSorted}
use internetworking_nat_box.Net.Fwd.Prefix.{SamePrefix, SamePrefix-match, match-SamePrefix}
use internetworking_nat_box.Net.Packet.Rewrite.{IsAddr}

-- The entry says where packets to `ipdest` go: the two addresses have the same first `prefix_len`
-- bits.
abbrev pub Covers : List ℕ → FwdEntry → Type 0
Covers ipdest e = (e.prefix_len ≢ 0) × SamePrefix e.prefix_len ipdest e.ip_addr

-- A prefix of whole bytes, of an address.
pub record IsWhole (e : FwdEntry) : Type 0 where
  pub eight : e.prefix_len % 8 ≡ 0
  pub most : e.prefix_len ≤ 128
  pub addr : IsAddr e.ip_addr

whole_length : (n : ℕ) → n % 8 ≡ 0 → n / 8 * 8 ≡ n
whole_length n h = omega arith

-- On such an entry the code's test of whole bytes decides whether it covers.
hit-Covers :
    (ipdest : List ℕ) (e : FwdEntry)
    → IsWhole e
    → match ipdest e.ip_addr (e.prefix_len / 8) ≡ true
    → SamePrefix e.prefix_len ipdest e.ip_addr
hit-Covers ipdest e w h =
    subst (λ n. SamePrefix n ipdest e.ip_addr) (whole_length e.prefix_len w.eight)
      (SamePrefix-match (e.prefix_len / 8) ipdest e.ip_addr h)

Covers-hit :
    {ipdest : List ℕ} (dest : IsAddr ipdest) (e : FwdEntry)
    → IsWhole e
    → SamePrefix e.prefix_len ipdest e.ip_addr
    → match ipdest e.ip_addr (e.prefix_len / 8) ≡ true
Covers-hit {ipdest} dest e w same =
    match-SamePrefix (e.prefix_len / 8) ipdest e.ip_addr (omega (arith, dest.size, w.most))
      (omega (arith, w.addr.size, w.most)) dest.bytes w.addr.bytes
      (λ i l. same i (omega (arith, whole_length e.prefix_len w.eight)))

-- Entry `i` covers the destination and no covering entry has a longer prefix.
pub record IsLongest (tab : FwdTab) (ipdest : List ℕ) (e : FwdEntry) : Type 0 where
  pub covers : Covers ipdest e
  pub longest : All (λ d. Covers ipdest d → d.prefix_len ≤ e.prefix_len) tab

abbrev Uncovered : FwdTab → List ℕ → Type 0
Uncovered tab ipdest = All (λ d. ¬ Covers ipdest d) tab

weaken_longer :
    (ipdest : List ℕ) (m : ℕ) (tab : FwdTab)
    → All (λ d. d.prefix_len ≤ m) tab
    → All (λ d. Covers ipdest d → d.prefix_len ≤ m) tab
weaken_longer ipdest m [] h = tt
weaken_longer ipdest m (d ∷ tab) h = (λ c. h.0, weaken_longer ipdest m tab h.1)

Uncovered-of_zero :
    (ipdest : List ℕ) (tab : FwdTab) → All (λ d. d.prefix_len ≤ 0) tab → Uncovered tab ipdest
Uncovered-of_zero ipdest [] h = tt
Uncovered-of_zero ipdest (d ∷ tab) h = (λ c. c.0 (omega arith), Uncovered-of_zero ipdest tab h.1)

-- The outcome of a search that started at index `i`.
abbrev Found : FwdTab → List ℕ → ℕ → Option ℕ → Type 0
Found tab ipdest i none = Uncovered tab ipdest
Found tab ipdest i (some j) =
    (k : ℕ) × (e : FwdEntry) × (j ≡ i + k) × (get_elem? tab k ≡ some e) × IsLongest tab ipdest e

Found-cons :
    (e : FwdEntry) (tab : FwdTab) (ipdest : List ℕ) (i : ℕ) (r : Option ℕ)
    → ¬ Covers ipdest e
    → Found tab ipdest (i + 1) r
    → Found (e ∷ tab) ipdest i r
Found-cons e tab ipdest i none out f = (out, f)
Found-cons e tab ipdest i (some j) out (k, d, at, got, l) = (
  suc k,
  d,
  omega arith,
  got,
  record { covers = l.covers; longest = (λ c. absurd (out c), l.longest) },
)

get_next_hop_from-Found :
    (tab : FwdTab) {ipdest : List ℕ} (i : ℕ)
    → IsAddr ipdest
    → All IsWhole tab
    → IsSorted tab
    → Found tab ipdest i (get_next_hop_from tab ipdest i)
unfolding get_next_hop_from
get_next_hop_from-Found [] i dest ws s = tt
get_next_hop_from-Found (e ∷ tab) {ipdest} i dest ws s = elim (Bool-cases (e.prefix_len == 0)) [
  | inl empty ↦ rw empty (
    λ c. c.0 (ground arith),
    Uncovered-of_zero ipdest tab
        (subst (λ m. All (λ d. d.prefix_len ≤ m) tab) ((==_iff e.prefix_len 0).0 empty) s.0),
  )
  | inr some_len ↦ elim (Bool-cases (match ipdest e.ip_addr (e.prefix_len / 8))) [
    | inl hit ↦
        rw (some_len, hit)
          (
            0,
            e,
            omega arith,
            refl,
            record {
              covers = (ground arith, hit-Covers ipdest e ws.0 hit);
              longest = (λ c. omega arith, weaken_longer ipdest e.prefix_len tab s.0);
            },
          )
    | inr miss ↦
        rw (some_len, miss)
          (Found-cons e tab ipdest i (get_next_hop_from tab ipdest (i + 1))
            (λ c. missed (Covers-hit dest e ws.0 c.1) miss)
            (get_next_hop_from-Found tab (i + 1) dest ws.1 s.1))
  ]
]
  where
    missed : {b : Bool} → b ≡ true → b ≡ false → ⊥
    missed hit miss = cc

-- On a sorted table whose prefixes are of whole bytes, `getNextHop` returns the index of an entry
-- whose prefix is that of the destination, bit by bit, such that no such entry has a longer prefix,
-- and -1 exactly when no entry's prefix is the destination's.
pub get_next_hop-IsLongest :
    (tab : FwdTab) {ipdest : List ℕ}
    → IsAddr ipdest
    → All IsWhole tab
    → IsSorted tab
    → ((i : ℕ) × (e : FwdEntry) × (get_next_hop tab ipdest ≡ some i)
        × (get_elem? tab i ≡ some e)
        × IsLongest tab ipdest e)
      ⊎ ((get_next_hop tab ipdest ≡ none) × All (λ d. ¬ Covers ipdest d) tab)
unfolding get_next_hop
get_next_hop-IsLongest tab {ipdest} dest ws s =
    conclude (get_next_hop_from tab ipdest 0) refl (get_next_hop_from-Found tab 0 dest ws s)
  where
    conclude :
        (r : Option ℕ)
        → get_next_hop_from tab ipdest 0 ≡ r
        → Found tab ipdest 0 r
        → ((i : ℕ) × (e : FwdEntry) × (get_next_hop_from tab ipdest 0 ≡ some i)
            × (get_elem? tab i ≡ some e)
            × IsLongest tab ipdest e)
          ⊎ ((get_next_hop_from tab ipdest 0 ≡ none) × All (λ d. ¬ Covers ipdest d) tab)
    conclude none eq f = inr (eq, f)
    conclude (some j) eq (k, e, at, got, l) = inl (k, e, eq ∙ ap some (omega arith), got, l)

Covers-prop : (ipdest : List ℕ) (e : FwdEntry) → IsProp (¬ Covers ipdest e)
Covers-prop ipdest e = hlevel

longer_prop : (ipdest : List ℕ) (m : ℕ) (d : FwdEntry) → IsProp (Covers ipdest d → d.prefix_len ≤ m)
longer_prop ipdest m d = hlevel le_prop

-- Where some entry covers a destination, the search returns an index.
pub get_next_hop-some :
    (tab : FwdTab) {ipdest : List ℕ} {d : FwdEntry}
    → IsAddr ipdest
    → All IsWhole tab
    → IsSorted tab
    → Mem d tab
    → Covers ipdest d
    → (i : ℕ) × (e : FwdEntry) × (get_next_hop tab ipdest ≡ some i)
      × (get_elem? tab i ≡ some e)
      × Covers ipdest e
      × (d.prefix_len ≤ e.prefix_len)
get_next_hop-some tab {ipdest} {d} dest ws s m c = elim (get_next_hop-IsLongest tab dest ws s) [
  | inl (i, e, got, here, l) ↦ (
    i,
    e,
    got,
    here,
    l.covers,
    All-mem (λ (d : FwdEntry). Covers ipdest d → d.prefix_len ≤ e.prefix_len) tab
        (longer_prop ipdest e.prefix_len) l.longest m c,
  )
  | inr (nothing, out) ↦ absurd (All-mem (λ d. ¬ Covers ipdest d) tab (Covers-prop ipdest) out m c)
]
