-- ===== src/Net/NdCache/Laws.antt =====
-- The lookups return the first entry that fits, and `getAvailNDEntry` takes each entry once.
use internetworking_nat_box.Base.{
  ℕ, zero, suc, ◌+◌, ◌≡◌, refl, ap, ◌∙◌, ◌⊎◌, inl, inr, Bool, true, false, Option, none, some, List,
  [], ◌∷◌, arith, ◌==◌, if◌then◌else◌, ==_iff, Bool-cases, eq_of_some, get_elem?, set, take, All,
}
use internetworking_nat_box.Net.Bytes.{match}
use internetworking_nat_box.Net.NdCache.{
  NdEntry, NdCache, nd_no_entry, nd_processing, first_index, lookup_nd_entry, mark_processing,
  get_avail_nd_entry,
}

-- The outcome of a search from index `i` on: the first entry that passes, or none that does.
abbrev pub IsFirst : (NdEntry → Bool) → NdCache → ℕ → Option ℕ → Type 0
IsFirst test cache i none = All (λ e. test e ≡ false) cache
IsFirst test cache i (some j) =
    (k : ℕ) × (e : NdEntry) × (j ≡ i + k)
    × (get_elem? cache k ≡ some e)
    × (test e ≡ true)
    × All (λ d. test d ≡ false) (take k cache)

IsFirst-cons :
    (test : NdEntry → Bool) (e : NdEntry) (cache : NdCache) (i : ℕ) (r : Option ℕ)
    → test e ≡ false
    → IsFirst test cache (i + 1) r
    → IsFirst test (e ∷ cache) i r
IsFirst-cons test e cache i none miss f = (miss, f)
IsFirst-cons test e cache i (some j) miss (k, d, at, got, hit, before) =
    (suc k, d, omega arith, got, hit, (miss, before))

first_index-IsFirst :
    (test : NdEntry → Bool) (cache : NdCache) (i : ℕ)
    → IsFirst test cache i (first_index test cache i)
unfolding first_index
first_index-IsFirst test [] i = tt
first_index-IsFirst test (e ∷ cache) i = elim (Bool-cases (test e)) [
  | inl hit ↦ rw hit (0, e, omega arith, refl, hit, tt)
  | inr miss ↦ rw miss (
      IsFirst-cons test e cache i (first_index test cache (i + 1)) miss
        (first_index-IsFirst test cache (i + 1)))
]

-- `lookupNDEntry` returns the first entry with the address, and NULL only if no entry has it. It
-- does not look at the state of an entry.
pub lookup_nd_entry-IsFirst :
    (cache : NdCache) (addr : List ℕ)
    → IsFirst (λ e. match addr e.ip_addr 16) cache 0 (lookup_nd_entry cache addr)
unfolding lookup_nd_entry
lookup_nd_entry-IsFirst cache addr = first_index-IsFirst (λ e. match addr e.ip_addr 16) cache 0

get_elem?-mark_processing :
    (cache : NdCache) (i : ℕ) {e : NdEntry}
    → get_elem? cache i ≡ some e
    → mark_processing cache i ≡ set cache i (record e { state = nd_processing })
unfolding mark_processing
get_elem?-mark_processing [] i h = cc
get_elem?-mark_processing (d ∷ cache) zero h =
    ap (λ (c : NdEntry). record c { state = nd_processing } ∷ cache) (eq_of_some h)
get_elem?-mark_processing (d ∷ cache) (suc i) h =
    ap (λ l. d ∷ l) (get_elem?-mark_processing cache i h)

-- How many entries are free.
unfoldable pub free_count : NdCache → ℕ
free_count [] = 0
free_count (e ∷ cache) = (if e.state == nd_no_entry then 1 else 0) + free_count cache

free_count-mark_processing :
    (cache : NdCache) (i : ℕ) {e : NdEntry}
    → get_elem? cache i ≡ some e
    → e.state ≡ nd_no_entry
    → suc (free_count (mark_processing cache i)) ≡ free_count cache
unfolding free_count mark_processing
free_count-mark_processing [] i h f = cc
free_count-mark_processing (d ∷ cache) zero {e} h f =
    let same : d.state ≡ e.state = ap (λ (c : NdEntry). c.state) (eq_of_some h) in ground arith
free_count-mark_processing (d ∷ cache) (suc i) {e} h f =
    omega (arith, free_count-mark_processing cache i h f)

free_count-zero :
    (cache : NdCache) → All (λ e. (e.state == nd_no_entry) ≡ false) cache → free_count cache ≡ 0
unfolding free_count
free_count-zero [] h = refl
free_count-zero (e ∷ cache) h = ground (arith, free_count-zero cache h.1)

-- What `getAvailNDEntry` returns: NULL and an unchanged cache without a free entry if none is
-- free, and otherwise a free entry, which alone is changed and no longer counts as free.
pub get_avail_nd_entry-cases :
    (cache : NdCache)
    → ((get_avail_nd_entry cache ≡ (none, cache)) × (free_count cache ≡ 0))
      ⊎ ((i : ℕ) × (e : NdEntry) × (get_elem? cache i ≡ some e)
          × (e.state ≡ nd_no_entry)
          × (get_avail_nd_entry cache ≡ (some i, set cache i (record e { state = nd_processing })))
          × (suc (free_count (get_avail_nd_entry cache).1) ≡ free_count cache))
unfolding get_avail_nd_entry
get_avail_nd_entry-cases cache =
    go (first_index (λ e. e.state == nd_no_entry) cache 0) refl
      (first_index-IsFirst (λ e. e.state == nd_no_entry) cache 0)
  where
    go :
        (r : Option ℕ)
        → first_index (λ e. e.state == nd_no_entry) cache 0 ≡ r
        → IsFirst (λ e. e.state == nd_no_entry) cache 0 r
        → ((get_avail_nd_entry cache ≡ (none, cache)) × (free_count cache ≡ 0))
          ⊎ ((i : ℕ) × (e : NdEntry) × (get_elem? cache i ≡ some e)
              × (e.state ≡ nd_no_entry)
              × (get_avail_nd_entry cache
                  ≡ (some i, set cache i (record e { state = nd_processing })))
              × (suc (free_count (get_avail_nd_entry cache).1) ≡ free_count cache))
    go none eq f = inl (rw (eq, get_avail_nd_entry) refl, free_count-zero cache f)
    go (some j) eq (k, e, at, got, hit, before) =
        let free : e.state ≡ nd_no_entry = (==_iff _ _).0 hit in
        let found = eq ∙ ap some (omega arith) in
        inr (
          k,
          e,
          got,
          free,
          rw (found, get_avail_nd_entry)
              (ap (λ c. (some k, c)) (get_elem?-mark_processing cache k got)),
          rw (found, get_avail_nd_entry) (free_count-mark_processing cache k got free),
        )
