-- ===== src/Net/Icmp/Learn.antt =====
-- What a solicitation leaves in the neighbour cache.
use internetworking_nat_box.Base.{
  ℕ, zero, suc, ◌+◌, ◌≤◌, ◌<◌, ◌≡◌, refl, ap, ◌∙◌, ◌⊎◌, inl, inr, Bool, true, false, Option, none,
  some, List, [], ◌∷◌, arith, Option-cases, eq_of_some, Ensures, Ensures-bind, Ensures-some, length,
  get_elem?, set, All, length-set, get_elem?-set_self, All-set, All-get, Succeeds,
}
use native.Mathlib.Nat.{zero-add}
use internetworking_nat_box.Net.Bytes.{match, match_refl}
use internetworking_nat_box.Net.Packet.{Packet}
use internetworking_nat_box.Net.NdCache.{
  NdEntry, NdCache, first_index, lookup_nd_entry, get_avail_nd_entry, nd_reachable,
}
use internetworking_nat_box.Net.NdCache.Laws.{
  IsFirst, free_count, lookup_nd_entry-IsFirst, get_avail_nd_entry-cases,
}
use internetworking_nat_box.Net.Forward.{Globals}
use internetworking_nat_box.Net.Neighbor.{getmac}
use internetworking_nat_box.Net.Icmp.{
  NetState, Outcome, refresh, update, claim_entry, answer, nsolicit_handler,
}
use internetworking_nat_box.Net.Icmp.Answer.{nsolicit_handler-Succeeds}

module _ (test : NdEntry → Bool) (f : NdEntry → NdEntry) where
  -- An update that the test does not see.
  first_index-update :
      (cache : NdCache) (k i : ℕ)
      → ((e : NdEntry) → test (f e) ≡ test e)
      → first_index test (update cache k f) i ≡ first_index test cache i
  unfolding first_index update
  first_index-update [] k i same = refl
  first_index-update (e ∷ cache) zero i same = rw (same e) refl
  first_index-update (e ∷ cache) (suc k) i same = rw (first_index-update cache k (i + 1) same) refl

  -- The only entry that passes the test.
  first_index-update_hit :
      (cache : NdCache) (k i : ℕ)
      → All (λ e. test e ≡ false) cache
      → ((e : NdEntry) → test (f e) ≡ true)
      → k < length cache
      → first_index test (update cache k f) i ≡ some (i + k)
  unfolding first_index update
  first_index-update_hit [] k i miss hit h = absurd (omega arith)
  first_index-update_hit (e ∷ cache) zero i miss hit h =
      let start : i + 0 ≡ i = omega arith in rw (hit e, start) refl
  first_index-update_hit (e ∷ cache) (suc k) i miss hit h =
      let next : i + suc k ≡ i + 1 + k = omega arith in
      rw (miss.0, next) (first_index-update_hit cache k (i + 1) miss.1 hit (omega arith))

get_elem?-update :
    (cache : NdCache) (k : ℕ) (f : NdEntry → NdEntry) {e : NdEntry}
    → get_elem? cache k ≡ some e
    → get_elem? (update cache k f) k ≡ some (f e)
unfolding update
get_elem?-update [] k f got = cc
get_elem?-update (d ∷ cache) zero f got = ap (λ x. some (f x)) (eq_of_some got)
get_elem?-update (d ∷ cache) (suc k) f got = get_elem?-update cache k f got

-- The sender is in the cache, with its MAC, and is reachable.
pub record Learned (src mac : List ℕ) (cache : NdCache) : Type 0 where
  pub index : ℕ
  pub entry : NdEntry
  pub found : lookup_nd_entry cache src ≡ some index
  pub at : get_elem? cache index ≡ some entry
  pub mac_addr : entry.mac_addr ≡ mac
  pub state : entry.state ≡ nd_reachable

abbrev LearnedFrom : Packet → List ℕ → ℕ × Bool × NdCache → Type 0
LearnedFrom pkt mac (k, _, cache) = Learned pkt.src mac (update cache k (refresh (some mac)))

-- The entry that a sender has is refreshed.
known-Learned :
    (src mac : List ℕ) (cache : NdCache) (k : ℕ) {e : NdEntry}
    → lookup_nd_entry cache src ≡ some k
    → get_elem? cache k ≡ some e
    → Learned src mac (update cache k (refresh (some mac)))
unfolding lookup_nd_entry refresh
known-Learned src mac cache k {e} found got = record {
  index = k;
  entry = refresh (some mac) e;
  found =
      first_index-update (λ e. match src e.ip_addr 16) (refresh (some mac)) cache k 0 (λ e. refl)
      ∙ found;
  at = get_elem?-update cache k (refresh (some mac)) got;
  mac_addr = refl;
  state = refl;
}

-- A free entry becomes that of the sender.
new-Learned :
    (src mac : List ℕ) (cache : NdCache) (k : ℕ) {e : NdEntry}
    → 16 ≤ length src
    → All (λ e. match src e.ip_addr 16 ≡ false) cache
    → k < length cache
    → get_elem? cache k ≡ some e
    → Learned src mac
        (update (update cache k (λ e. record e { ip_addr = src })) k (refresh (some mac)))
unfolding lookup_nd_entry
new-Learned src mac cache k long miss inside got =
    known-Learned src mac (update cache k (λ e. record e { ip_addr = src })) k
      (first_index-update_hit (λ e. match src e.ip_addr 16) (λ e. record e { ip_addr = src }) cache
          k 0 miss (λ e. match_refl 16 src long) inside
        ∙ ap some (zero-add k))
      (get_elem?-update cache k (λ e. record e { ip_addr = src }) got)

index-lt : (cache : NdCache) (k : ℕ) {e : NdEntry} → get_elem? cache k ≡ some e → k < length cache
index-lt [] k got = cc
index-lt (d ∷ cache) zero got = omega arith
index-lt (d ∷ cache) (suc k) got = omega (arith, index-lt cache k got)

claim_entry-Learned :
    (pkt : Packet) (mac : List ℕ) (cache : NdCache)
    → 16 ≤ length pkt.src
    → Ensures (LearnedFrom pkt mac) (claim_entry pkt cache)
unfolding claim_entry
claim_entry-Learned pkt mac cache long =
    go (lookup_nd_entry cache pkt.src) refl (lookup_nd_entry-IsFirst cache pkt.src)
  where
    fresh :
        All (λ e. match pkt.src e.ip_addr 16 ≡ false) cache
        → lookup_nd_entry cache pkt.src ≡ none
        → Ensures (LearnedFrom pkt mac) (claim_entry pkt cache)
    fresh miss eq = elim (get_avail_nd_entry-cases cache) [
      | inl (full, _) ↦ rw (eq, claim_entry) (rw full tt)
      | inr (i, e, got, free, taken, _) ↦
          let inside = index-lt cache i got in
          rw (eq, claim_entry)
            (rw taken (
              rw taken (
                new-Learned pkt.src mac (set cache i (record e { state = 10 })) i long
                  (All-set (λ e. match pkt.src e.ip_addr 16 ≡ false) cache i
                    (record e { state = 10 }) miss
                    (All-get (λ e. match pkt.src e.ip_addr 16 ≡ false) cache i miss got))
                  (omega (arith, inside, length-set cache i (record e { state = 10 })))
                  (get_elem?-set_self cache i (record e { state = 10 }) inside))))
    ]

    go :
        (r : Option ℕ)
        → lookup_nd_entry cache pkt.src ≡ r
        → IsFirst (λ e. match pkt.src e.ip_addr 16) cache 0 r
        → Ensures (LearnedFrom pkt mac) (claim_entry pkt cache)
    go none eq miss = fresh miss eq
    go (some j) eq (k, e, at, got, hit, before) =
        let here : j ≡ k = at ∙ zero-add k in
        rw (eq, claim_entry)
          (known-Learned pkt.src mac cache j eq (ap (get_elem? cache) here ∙ got))

claim_entry-known :
    (pkt : Packet) (cache : NdCache) {k : ℕ}
    → lookup_nd_entry cache pkt.src ≡ some k
    → claim_entry pkt cache ≡ some (k, true, cache)
unfolding claim_entry
claim_entry-known pkt cache eq = rw (eq, claim_entry) refl

claim_entry-new :
    (pkt : Packet) (cache : NdCache) {i : ℕ}
    → lookup_nd_entry cache pkt.src ≡ none
    → (get_avail_nd_entry cache).0 ≡ some i
    → claim_entry pkt cache
      ≡ some (i, false, update (get_avail_nd_entry cache).1 i (λ e. record e { ip_addr = pkt.src }))
unfolding claim_entry
claim_entry-new pkt cache eq got = rw (eq, claim_entry) (rw (got, claim_entry) refl)

-- There is no entry for a sender only if it has none and none is free.
claim_entry-none :
    (pkt : Packet) (cache : NdCache)
    → claim_entry pkt cache ≡ none
    → (lookup_nd_entry cache pkt.src ≡ none) × (free_count cache ≡ 0)
claim_entry-none pkt cache refused = elim (Option-cases (lookup_nd_entry cache pkt.src)) [
  | inl unknown ↦ elim (get_avail_nd_entry-cases cache) [
    | inl (_, zero_free) ↦ (unknown, zero_free)
    | inr (i, e, got, free, taken, _) ↦ cc (claim_entry-new pkt cache unknown (ap (λ p. p.0) taken))
  ]
  | inr (k, known) ↦ cc (claim_entry-known pkt cache known)
]

-- The outcomes of a solicitation: the cache is full and nothing changes, or the sender is learned.
abbrev pub Answered : Packet → List ℕ → NetState → Outcome → Type 0
Answered pkt mac st (st', events) =
    ((st' ≡ st) × (lookup_nd_entry st.nd_cache pkt.src ≡ none) × (free_count st.nd_cache ≡ 0))
    ⊎ Learned pkt.src mac st'.nd_cache

-- On a solicitation with a link-layer option and a whole source address, `nsolicit_handler` ends and
-- leaves a neighbour cache in which a lookup of the sender's address finds a reachable entry with the
-- MAC of the option. Only if the cache has no entry for the sender and none is free, nothing changes instead.
pub nsolicit_handler-Learned :
    (g : Globals) (pkt : Packet) (st : NetState) (mac : List ℕ)
    → 16 ≤ length pkt.src
    → getmac pkt.payload ≡ some mac
    → Succeeds (nsolicit_handler g pkt st)
      × Ensures (Answered pkt mac st) (nsolicit_handler g pkt st)
unfolding nsolicit_handler
nsolicit_handler-Learned g pkt st mac long option = (
  nsolicit_handler-Succeeds g pkt st,
  elim (Option-cases (claim_entry pkt st.nd_cache)) [
    | inl full ↦
        let (unknown, zero_free) = claim_entry-none pkt st.nd_cache full in
        rw (full, nsolicit_handler) (inl (refl, unknown, zero_free))
    | inr ((k, exists, cache), claimed) ↦
        let learned =
          Ensures-some (LearnedFrom pkt mac) (claim_entry-Learned pkt mac st.nd_cache long)
            claimed in
        rw (claimed, nsolicit_handler)
          (rw (option, nsolicit_handler)
            (Ensures-bind (Answered pkt mac st) (answer g pkt exists) _
              (λ events e. inr (rw option learned))))
  ],
)
