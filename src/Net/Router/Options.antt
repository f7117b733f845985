-- ===== src/Net/Router/Options.antt =====
-- Reading a router advertisement: `radvert_handler` of net/radvert.c with its three option readers.
-- `none` stands for a read behind the bytes that were delivered, for a write past the end of
-- `router_mac_addr`, and for an option of length 0, at which the loop does not move.
use internetworking_nat_box.Base.{
  ℕ, zero, suc, ◌+◌, ◌-◌, ◌*◌, ◌%◌, ◌^◌, true, ◌&&◌, Option, none, some, List, ◌++◌, ltb, leb, ◌==◌,
  if◌then◌else◌, ◌>>=◌, length, get_elem?, get_or, take, drop,
}
use internetworking_nat_box.Net.Checksum.{read16}
use internetworking_nat_box.Net.Router.{Config}

-- `sizeof(struct radvert)`.
abbrev pub radvertsize : ℕ
radvertsize = 16

-- `*(option + 1)`, a signed `char` read into a `uint16`.
abbrev pub len_octets : List ℕ → ℕ
len_octets option =
    if ltb (get_or option 1 0) 128 then get_or option 1 0 else get_or option 1 0 + 65280

abbrev pub option_len : List ℕ → ℕ
option_len option = len_octets option * 8 % 2 ^ 16

abbrev pub read32 : List ℕ → ℕ → ℕ
read32 bs i = read16 bs i * 2 ^ 16 + read16 bs (i + 2)

-- `get_router_link_addr`, which copies as many bytes as the option says.
unfoldable pub get_router_link_addr : Config → List ℕ → Option (Config × ℕ)
get_router_link_addr cfg option =
    if (len_octets option == 1) && leb 8 (length option)
    then some (
      record cfg { router = record (cfg.router) { router_mac_addr = take 6 (drop 2 option) } },
      option_len option,
    )
    else none

unfoldable pub get_mtu : Config → List ℕ → Option (Config × ℕ)
get_mtu cfg option =
    if leb 8 (length option)
    then some
        (record cfg { router = record (cfg.router) { mtu = read32 option 4 } }, option_len option)
    else none

-- The address that a prefix and the link-local address give.
abbrev pub join_addr : List ℕ → List ℕ → List ℕ
join_addr prefix link_local = take 8 prefix ++ take 8 (drop 8 link_local)

unfoldable pub get_prefix_default : Config → List ℕ → Option (Config × ℕ)
get_prefix_default cfg option =
    let prefix = take 16 (drop 16 option) in
    if leb 32 (length option)
    then some (
      record {
        globals = record (cfg.globals) {
          ipv6_addr = join_addr prefix cfg.globals.link_local;
          has_ipv6_addr = true;
        };
        router = record (cfg.router) {
          prefix = prefix;
          prefix_length = get_or option 2 0;
          option_prefix_default = take 32 option;
        };
      },
      option_len option,
    )
    else none

-- One round of the loop: the globals and the step.
unfoldable pub read_option : Config → List ℕ → ℕ → Option (Config × ℕ)
unfolding get_router_link_addr get_mtu get_prefix_default
read_option cfg option options_len = elim (get_elem? option 0) [
  | none ↦ none
  | some type ↦
      if type == 1
      then get_router_link_addr cfg option
      else if type == 3
      then get_prefix_default cfg option
      else if type == 5
      then get_mtu cfg option
      else some (cfg, options_len % 2 ^ 16)
]

-- `options` starts at the `i`-th byte. Every round that moves moves by at least a byte, so one round
-- more than there are bytes is enough.
unfoldable pub options_loop : ℕ → Config → List ℕ → ℕ → ℕ → Option Config
options_loop zero cfg options i options_len = none
options_loop (suc rounds) cfg options i options_len =
    if ltb i options_len
    then (read_option cfg options options_len >>= λ (read, step).
        options_loop rounds read (drop step options) (i + step) options_len)
    else some cfg

unfoldable pub radvert_handler : Config → List ℕ → ℕ → Option Config
unfolding options_loop
radvert_handler cfg ad ip_payload_len =
    if leb radvertsize (length ad)
    then options_loop (suc (length ad))
        (record cfg { router = record (cfg.router) { radvert_from_router = take radvertsize ad } })
        (drop radvertsize ad) 0 ((ip_payload_len + (2 ^ 32 - radvertsize)) % 2 ^ 32)
    else none
