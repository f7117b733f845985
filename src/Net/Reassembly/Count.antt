-- ===== src/Net/Reassembly/Count.antt =====
-- `reassembly_tab_size` counts the entries in use.
use internetworking_nat_box.Base.{
  ℕ, zero, suc, ◌≤◌, ◌<◌, ◌≡◌, refl, ap, ◌∙◌, inl, inr, true, false, some, List, [], ◌∷◌, arith,
  if◌then◌else◌, Bool-cases, eq_of_some, length, get_elem?, set,
}
use internetworking_nat_box.Net.Reassembly.{ReassemblyEntry, ReassemblyState}
use internetworking_nat_box.Net.Reassembly.Table.{is_used}

-- How many entries hold a fragment list.
unfoldable pub used_count : List ReassemblyEntry → ℕ
unfolding is_used
used_count [] = 0
used_count (e ∷ table) = if is_used e.frag_list then suc (used_count table) else used_count table

-- At most as many entries as the size, a byte, can count, and it counts those in use.
pub record IsCounted (st : ReassemblyState) : Type 0 where
  pub size : length st.reassembly_table < 256
  pub counted : st.reassembly_tab_size ≡ used_count st.reassembly_table

pub used_count-le : (table : List ReassemblyEntry) → used_count table ≤ length table
unfolding used_count
used_count-le [] = omega arith
used_count-le (e ∷ table) = ground (arith, used_count-le table)

-- An entry that is replaced by one of the same kind, by a used one, or by an unused one.
pub used_count-set_same :
    (table : List ReassemblyEntry) (i : ℕ) {e : ReassemblyEntry} (e' : ReassemblyEntry)
    → get_elem? table i ≡ some e
    → is_used e.frag_list ≡ is_used e'.frag_list
    → used_count (set table i e') ≡ used_count table
unfolding used_count
used_count-set_same [] i e' got same = cc
used_count-set_same (d ∷ table) zero e' got same = rw (← same, ← eq_of_some got) refl
used_count-set_same (d ∷ table) (suc i) e' got same =
    rw (used_count-set_same table i e' got same) refl

pub used_count-set_used :
    (table : List ReassemblyEntry) (i : ℕ) {e : ReassemblyEntry} (e' : ReassemblyEntry)
    → get_elem? table i ≡ some e
    → is_used e.frag_list ≡ false
    → is_used e'.frag_list ≡ true
    → used_count (set table i e') ≡ suc (used_count table)
unfolding used_count is_used
used_count-set_used [] i e' got free used = cc
used_count-set_used (d ∷ table) zero e' got free used =
    let was : is_used d.frag_list ≡ false =
      ap (λ (x : ReassemblyEntry). is_used x.frag_list) (eq_of_some got) ∙ free in
    rw (used, was) refl
used_count-set_used (d ∷ table) (suc i) e' got free used = elim (Bool-cases (is_used d.frag_list)) [
  | inl u ↦ rw (u, used_count-set_used table i e' got free used) refl
  | inr f ↦ rw (f, used_count-set_used table i e' got free used) refl
]

pub used_count-set_free :
    (table : List ReassemblyEntry) (i : ℕ) {e : ReassemblyEntry} (e' : ReassemblyEntry)
    → get_elem? table i ≡ some e
    → is_used e.frag_list ≡ true
    → is_used e'.frag_list ≡ false
    → suc (used_count (set table i e')) ≡ used_count table
unfolding used_count is_used
used_count-set_free [] i e' got used free = cc
used_count-set_free (d ∷ table) zero e' got used free =
    let was : is_used d.frag_list ≡ true =
      ap (λ (x : ReassemblyEntry). is_used x.frag_list) (eq_of_some got) ∙ used in
    rw (free, was) refl
used_count-set_free (d ∷ table) (suc i) e' got used free = elim (Bool-cases (is_used d.frag_list)) [
  | inl u ↦ rw u (ap suc (used_count-set_free table i e' got used free))
  | inr f ↦ rw f (used_count-set_free table i e' got used free)
]
