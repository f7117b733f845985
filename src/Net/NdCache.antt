-- ===== src/Net/NdCache.antt =====
-- The neighbour cache of net/ndcache.c. `NDCache` is the list of the entries that its pointers lead
-- to; `NDCache_init` allocates each once, so no two share one. A result that is a pointer into the
-- cache is an index.
pub mod Laws
use internetworking_nat_box.Base.{
  ℕ, zero, suc, ◌+◌, ◌-◌, ◌*◌, ◌/◌, ◌%◌, ◌^◌, ◌≤◌, ◌<◌, min, max, ◌≡◌, refl, sym, ap, ap₂, ◌∙◌, ◌≢◌,
  ◌↔◌, ◌⊎◌, inl, inr, Bool, true, false, not, ◌&&◌, ◌||◌, Option, none, some, List, [], ◌∷◌, ◌++◌,
  map, arith, ltb, leb, ◌==◌, if◌then◌else◌, ltb→lt, lt→ltb, le→ltb, ==_iff, Bool-cases,
  Option-cases, eq_of_some, ◌>>=◌, length, get_elem?, get_or, set, take, drop, replicate, All,
  length-append, length-set, length-replicate, get_elem?-set_self, get_elem?-set_ne, All-append,
  All-set, All-get,
}
use internetworking_nat_box.Net.Bytes.{match}

pub record NdEntry : Type 0 where
  pub ttl : ℕ
  pub ip_addr : List ℕ
  pub mac_addr : List ℕ
  pub state : ℕ

abbrev pub NdCache : Type 0
NdCache = List NdEntry

abbrev pub max_nd_entry : ℕ
max_nd_entry = 30

abbrev pub max_nd_ttl : ℕ
max_nd_ttl = 900

abbrev pub nd_no_entry : ℕ
nd_no_entry = 0

abbrev pub nd_incomplete : ℕ
nd_incomplete = 1

abbrev pub nd_reachable : ℕ
nd_reachable = 2

abbrev pub nd_processing : ℕ
nd_processing = 10

-- The loops of `lookupMACNDEntry`, `lookupNDEntry` and `getAvailNDEntry`: the index of the first
-- entry that passes the test.
unfoldable pub first_index : (NdEntry → Bool) → NdCache → ℕ → Option ℕ
first_index test [] i = none
first_index test (e ∷ cache) i =
    let rest = first_index test cache (i + 1) in if test e then some i else rest

unfoldable pub lookup_mac_nd_entry : NdCache → List ℕ → Option ℕ
unfolding first_index
lookup_mac_nd_entry cache mac = first_index (λ e. match mac e.mac_addr 6) cache 0

unfoldable pub lookup_nd_entry : NdCache → List ℕ → Option ℕ
unfolding first_index
lookup_nd_entry cache addr = first_index (λ e. match addr e.ip_addr 16) cache 0

mark_processing : NdCache → ℕ → NdCache
mark_processing [] i = []
mark_processing (e ∷ cache) zero = record e { state = nd_processing } ∷ cache
mark_processing (e ∷ cache) (suc i) = e ∷ mark_processing cache i

-- The index of the entry, which is marked as taken, and the cache after that.
unfoldable pub get_avail_nd_entry : NdCache → Option ℕ × NdCache
unfolding first_index mark_processing
get_avail_nd_entry cache = elim (first_index (λ e. e.state == nd_no_entry) cache 0) [
  | none ↦ (none, cache)
  | some i ↦ (some i, mark_processing cache i)
]

unfoldable pub nd_cache_init : NdCache
nd_cache_init =
    replicate max_nd_entry
      (record { ttl = 0; ip_addr = replicate 16 0; mac_addr = replicate 6 0; state = nd_no_entry })
