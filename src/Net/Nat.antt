-- ===== src/Net/Nat.antt =====
-- Address translation of net/nat.c. The state is the table, the counter of translated identifiers
-- (a `uint16`), and the forwarding table, into which `outPktRW` inserts a route back.
-- `none` as a whole result is a run that C does not define: an access to `natTab` out of range.
pub mod Invariant
pub mod Roundtrip
pub mod Safe
pub mod Session
use internetworking_nat_box.Base.{
  ℕ, zero, suc, ◌+◌, ◌-◌, ◌*◌, ◌/◌, ◌%◌, ◌^◌, ◌≤◌, ◌<◌, min, max, ◌≡◌, refl, sym, ap, ap₂, ◌∙◌, ◌≢◌,
  ◌↔◌, ◌⊎◌, inl, inr, Bool, true, false, not, ◌&&◌, ◌||◌, Option, none, some, List, [], ◌∷◌, ◌++◌,
  map, arith, ltb, leb, ◌==◌, if◌then◌else◌, ltb→lt, lt→ltb, le→ltb, ==_iff, Bool-cases,
  Option-cases, eq_of_some, ◌>>=◌, length, get_elem?, get_or, set, take, drop, replicate, All,
  length-append, length-set, length-replicate, get_elem?-set_self, get_elem?-set_ne, All-append,
  All-set, All-get,
}
use internetworking_nat_box.Net.Bytes.{match}
use internetworking_nat_box.Net.Packet.{
  Packet, identifier, set_identifier, echoreqsize, recompute_checksum,
}
use internetworking_nat_box.Net.Fwd.{FwdTab, insert_new_fwd_tab_entry}

pub record NatEntry : Type 0 where
  pub src : List ℕ
  pub dest : List ℕ
  pub iface : ℕ
  pub src_id : ℕ
  pub trans_id : ℕ

abbrev pub max_nat_entries : ℕ
max_nat_entries = 30

pub record NatState : Type 0 where
  pub nat_tab : List NatEntry
  pub nat_id_counter : ℕ
  pub fwd_tab : FwdTab

-- An `int16` is kept as its bit pattern.
abbrev pub minus_one : ℕ
minus_one = 2 ^ 16 - 1

-- The new counter and the identifier.
unfoldable pub get_new_id : ℕ → ℕ × ℕ
get_new_id counter =
    let next = (counter + 1) % 2 ^ 16 in
    (next, if next == max_nat_entries then minus_one else (next + (2 ^ 16 - 1)) % 2 ^ 16)

-- The loop of `incPktRW`, up to the first entry that fits.
unfoldable pub find_entry : List NatEntry → ℕ → List ℕ → Option NatEntry
find_entry [] id from = none
find_entry (e ∷ tab) id from =
    let rest = find_entry tab id from in
    if (e.trans_id == id) && match e.dest from 16 then some e else rest

-- The interface, or `none` for -1, and the packet after the rewriting.
unfoldable pub inc_pkt_rw : List NatEntry → Packet → Option (Option ℕ × Packet)
inc_pkt_rw tab pkt = elim (find_entry tab (identifier pkt.payload) pkt.src) [
  | none ↦ some (none, pkt)
  | some e ↦
      recompute_checksum pkt.src e.src echoreqsize (set_identifier pkt.payload e.src_id) >>= λ msg.
      some (some e.iface, record pkt { dest = e.src; payload = msg })
]

-- The body of `outPktRW` for an identifier that is not -1.
unfoldable pub translate : List ℕ → ℕ → Packet → NatState → ℕ → Option (Bool × NatState × Packet)
translate ipv6_addr interface pkt st id =
    if leb max_nat_entries id
    then none
    else recompute_checksum ipv6_addr pkt.dest echoreqsize (set_identifier pkt.payload id)
      >>= λ msg. some (
        true,
        record st {
          nat_tab = set st.nat_tab id (record {
            src = pkt.src;
            dest = pkt.dest;
            iface = interface;
            src_id = identifier pkt.payload;
            trans_id = id;
          });
          fwd_tab = (insert_new_fwd_tab_entry pkt.src 128 pkt.src interface st.fwd_tab).1;
        },
        record pkt { src = ipv6_addr; payload = msg },
      )

-- The result is `true` for 0 and `false` for 1, the table without a free entry.
unfoldable pub out_pkt_rw : List ℕ → ℕ → Packet → NatState → Option (Bool × NatState × Packet)
out_pkt_rw ipv6_addr interface pkt st =
    let (counter, id) = get_new_id st.nat_id_counter in
    let counted = record st { nat_id_counter = counter } in
    if id == minus_one
    then some (false, counted, pkt)
    else translate ipv6_addr interface pkt counted id

unfoldable pub nat_tab_init : List NatEntry × ℕ
nat_tab_init = (
  replicate max_nat_entries
      (record { src = replicate 16 0; dest = replicate 16 0; iface = 0; src_id = 0; trans_id = 0 }),
  0,
)
