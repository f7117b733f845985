-- ===== src/Shell.antt =====
-- The commands of the NAT box: lib/char2Hex.c, lib/atoi.c and shell/addfwdentry.c, addndentry.c,
-- sendecho.c, sendnadvert.c, sendradvert.c, sendrsolicit.c, xsh_sendnsolicit.c. A string is the list
-- of its character codes without the final 0, and `args` the words after the command's name.
pub mod Hex
mod Tests
use internetworking_nat_box.Base.{
  ℕ, zero, suc, ◌+◌, ◌-◌, ◌*◌, ◌/◌, ◌%◌, ◌^◌, ◌≤◌, ◌<◌, min, max, ◌≡◌, refl, sym, ap, ap₂, ◌∙◌, ◌≢◌,
  ◌↔◌, ◌⊎◌, inl, inr, Bool, true, false, not, ◌&&◌, ◌||◌, Option, none, some, List, [], ◌∷◌, ◌++◌,
  map, arith, ltb, leb, ◌==◌, if◌then◌else◌, ltb→lt, lt→ltb, le→ltb, ==_iff, Bool-cases,
  Option-cases, eq_of_some, ◌>>=◌, Ensures, Ensures-bind, Ensures-some, length, get_elem?, get_or,
  set, take, drop, replicate, All, length-append, length-set, length-replicate, get_elem?-set_self,
  get_elem?-set_ne, All-append, All-set, All-get, set-append_right, get_or-append_right, take-set,
  length-take, All-take, get_or-set_self, get_or-set_ne, All-mem, get_elem?-mem, bind-inv,
  take_append, drop_append, set-append_left, Ensures, Ensures-bind, Ensures-some, Succeeds,
  Succeeds-bind, take_all, take-take, take_all, drop_all, length-take_le, take-append_take-drop,
}
use Prim.Native.Nat.{bit_or}
use internetworking_nat_box.Net.Packet.{Packet}
use internetworking_nat_box.Net.Forward.{Globals}
use internetworking_nat_box.Net.Fwd.{FwdTab, insert_new_fwd_tab_entry}
use internetworking_nat_box.Net.NdCache.{
  NdEntry, NdCache, get_avail_nd_entry, max_nd_ttl, nd_reachable,
}
use internetworking_nat_box.Net.Neighbor.{neighba, send_nsol}
use internetworking_nat_box.Net.Icmp.{Event, wrote, slept, update, echoreq}
use internetworking_nat_box.Net.Router.{Config, macbcast}
use internetworking_nat_box.Net.Router.Send.{routers, sendipv6pkt}
use internetworking_nat_box.Net.Router.Receive.{sent_event, relay_advert}

-- The value of a character as a digit. The letters after F count too.
unfoldable pub hex_digit : ℕ → Option ℕ
hex_digit c =
    if leb 48 c && leb c 57
    then some (c - 48)
    else if leb 65 c && leb c 90
    then some (c - 55)
    else if leb 97 c && leb c 122
    then some (c - 87)
    else none

-- The bytes that are written, and `none` for the status 1. A string that ends within a byte has the
-- status 1 too.
unfoldable pub char_to_hex : List ℕ → Option (List ℕ)
unfolding hex_digit
char_to_hex [] = some []
char_to_hex (c ∷ []) = if c == 58 then some [] else none
char_to_hex (c ∷ d ∷ string) =
    let skip = char_to_hex (d ∷ string) in
    let rest = char_to_hex string in
    if c == 58
    then skip
    else (hex_digit c >>= λ high.
        hex_digit d >>= λ low. rest >>= λ bytes. some (bit_or (high * 16 % 256) low ∷ bytes))

-- An array of `size` bytes after `charToHex`; `none` is a write past its end. What the string does
-- not reach stays.
unfoldable pub fill_bytes : ℕ → List ℕ → List ℕ → Option (List ℕ)
fill_bytes size before bytes =
    if leb (length bytes) size then some (bytes ++ drop (length bytes) before) else none

-- The digits that `atoi` adds up, as a 32-bit number.
unfoldable pub atoi_digits : List ℕ → ℕ → ℕ
atoi_digits [] n = n
atoi_digits (c ∷ string) n =
    let rest = atoi_digits string ((n * 10 + (c - 48)) % 2 ^ 32) in
    if leb 48 c && leb c 57 then rest else n

-- After the blanks, a sign may stand in front of the digits.
unfoldable pub atoi_signed : List ℕ → ℕ
unfolding atoi_digits
atoi_signed [] = 0
atoi_signed (c ∷ string) =
    if c == 45
    then (2 ^ 32 - atoi_digits string 0) % 2 ^ 32
    else if c == 43
    then atoi_digits string 0
    else atoi_digits (c ∷ string) 0

unfoldable pub atoi : List ℕ → ℕ
unfolding atoi_signed
atoi [] = 0
atoi (c ∷ string) =
    let rest = atoi string in if (c == 32) || (c == 9) then rest else atoi_signed (c ∷ string)

-- A command's status and the events or the table that it leaves. The outer `none` is a write past
-- an array or through a null pointer, or a checksum loop that does not end. `stack` gives what the
-- arrays of the command hold before; a word that is refused is taken to be no longer than its array.
unfoldable pub add_fwd_entry : List ℕ → List (List ℕ) → FwdTab → Option (ℕ × FwdTab)
unfolding char_to_hex fill_bytes atoi
add_fwd_entry stack (ip_addr ∷ prefix_len ∷ next_hop ∷ iface ∷ []) tab =
    let len = atoi prefix_len % 256 in
    if ltb len 1 || ltb 128 len then some (1, tab) else elim (char_to_hex ip_addr) [
      | none ↦ some (1, tab)
      | some ip ↦ fill_bytes 16 (take 16 stack) ip >>= λ addr. elim (char_to_hex next_hop) [
        | none ↦ some (1, tab)
        | some hop ↦ fill_bytes 16 (take 16 (drop 16 stack)) hop >>= λ next.
            some (0, (insert_new_fwd_tab_entry addr len next (atoi iface % 256) tab).1)
      ]
    ]
add_fwd_entry stack args tab = some (0, tab)

-- The entry is taken before the words are read, and stays taken where one of them is refused.
unfoldable pub add_nd_entry : List ℕ → List (List ℕ) → NdCache → Option (ℕ × NdCache)
unfolding char_to_hex fill_bytes
add_nd_entry stack (ip_addr ∷ mac_addr ∷ []) cache =
    let (entry, taken) = get_avail_nd_entry cache in
    elim (char_to_hex ip_addr) [
      | none ↦ some (1, taken)
      | some ip ↦ fill_bytes 16 (take 16 stack) ip >>= λ addr. elim (char_to_hex mac_addr) [
        | none ↦ some (1, taken)
        | some hex ↦ fill_bytes 6 (take 6 (drop 16 stack)) hex >>= λ mac. entry >>= λ k. some (
          0,
          update taken k (λ e. record e {
            ttl = max_nd_ttl;
            ip_addr = addr;
            mac_addr = mac;
            state = nd_reachable;
          }),
        )
      ]
    ]
add_nd_entry stack args cache = some (0, cache)

-- A destination of 39 characters, which is zeroed before it is read. The inner `none` is an address
-- that is refused.
unfoldable pub read_dest : List ℕ → Option (Option (List ℕ))
unfolding char_to_hex fill_bytes
read_dest word = if not (length word == 39) then some none else elim (char_to_hex word) [
  | none ↦ some none
  | some bytes ↦ fill_bytes 16 (replicate 16 0) bytes >>= λ dest. some (some dest)
]

unfoldable pub sendecho : Config → List (List ℕ) → Option (List Event)
unfolding read_dest
sendecho cfg (word ∷ []) = read_dest word >>= λ dest. elim dest [
  | none ↦ some []
  | some addr ↦
      sendipv6pkt cfg [] echoreq cfg.router.router_mac_addr addr cfg.globals.ifprime >>= λ sent.
      some (sent_event sent)
]
sendecho cfg args = some []

-- Two solicitations, a second apart, to the multicast MAC of the destination.
unfoldable pub sendnsolicit : Config → List (List ℕ) → Option (List Event)
unfolding read_dest
sendnsolicit cfg (word ∷ []) =
    let g = cfg.globals in
    read_dest word >>= λ dest. elim dest [
      | none ↦ some []
      | some addr ↦
          let mac = 0x33 ∷ 0x33 ∷ take 4 (drop 12 addr) in
          send_nsol g g.link_local mac addr addr g.ifprime >>= λ first.
          send_nsol g g.ipv6_addr mac addr addr g.ifprime >>= λ second.
          some (wrote first ∷ slept 1 ∷ wrote second ∷ [])
    ]
sendnsolicit cfg args = some []

unfoldable pub sendnadvert : Config → List (List ℕ) → Option (List Event)
sendnadvert cfg [] =
    sendipv6pkt cfg [] neighba (0x33 ∷ 0x33 ∷ 0xFF ∷ 0xDC ∷ 0xCB ∷ 0xC0 ∷ [])
      (0xFF ∷ 0x02 ∷ replicate 9 0 ++ (0x01 ∷ 0xFF ∷ 0xDC ∷ 0xCB ∷ 0xC0 ∷ [])) cfg.globals.ifprime
    >>= λ sent. some (sent_event sent)
sendnadvert cfg args = some []

-- `stack` gives the bytes that each advertisement finds behind its array of types.
unfoldable pub sendradvert : Config → (ℕ → List ℕ) → List (List ℕ) → Option (List Event)
sendradvert cfg stack [] =
    if not cfg.globals.has_ipv6_addr
    then some []
    else if cfg.globals.host
    then some []
    else relay_advert cfg stack
sendradvert cfg stack args = some []

unfoldable pub sendrsolicit : Config → List (List ℕ) → Option (List Event)
sendrsolicit cfg [] =
    let dest =
      if cfg.globals.host
      then macbcast cfg.router cfg.globals.ifprime
      else cfg.router.allr_mac_multi in
    sendipv6pkt cfg [] routers dest [] cfg.globals.ifprime >>= λ sent. some (sent_event sent)
sendrsolicit cfg args = some []
