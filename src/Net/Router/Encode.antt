-- ===== src/Net/Router/Encode.antt =====
-- What `radvert_handler` reads: an advertisement written option by option.
use internetworking_nat_box.Base.{
  ℕ, zero, suc, ◌+◌, ◌-◌, ◌%◌, ◌^◌, ◌≤◌, ◌<◌, ◌≡◌, refl, true, some, List, [], ◌∷◌, ◌++◌, arith,
  leb, lt→ltb, le→ltb, length, take, drop, All, length-append, take_append, drop_append,
}
use mathlib.Core.List.{append_assoc}
use internetworking_nat_box.Net.Packet.{bytes32}
use internetworking_nat_box.Net.Router.{Config}
use internetworking_nat_box.Net.Router.Options.{
  read32, join_addr, get_router_link_addr, get_mtu, get_prefix_default, read_option, options_loop,
  radvert_handler,
}

-- The options that the code knows, by the fields of RFC 4861.
pub data RouterOption : Type 0 where
  link_addr : List ℕ → RouterOption
  mtu_option : ℕ → ℕ → ℕ → RouterOption
  prefix_option : ℕ → ℕ → List ℕ → List ℕ → RouterOption

-- The bytes of an option: the lifetimes and the reserved bytes of a prefix are `times`.
unfoldable pub encode_option : RouterOption → List ℕ
encode_option (link_addr mac) = 1 ∷ 1 ∷ mac
encode_option (mtu_option a b mtu) = 5 ∷ 1 ∷ a ∷ b ∷ bytes32 mtu
encode_option (prefix_option prefix_length flags times prefix) =
    3 ∷ 4 ∷ prefix_length ∷ flags ∷ times ++ prefix

abbrev pub IsOption : RouterOption → Type 0
IsOption (link_addr mac) = length mac ≡ 6
IsOption (mtu_option a b mtu) = mtu < 2 ^ 32
IsOption (prefix_option prefix_length flags times prefix) =
    (length times ≡ 12) × (length prefix ≡ 16)

unfoldable pub encode : List RouterOption → List ℕ
encode [] = []
encode (o ∷ os) = encode_option o ++ encode os

-- What an option means to the host that hears it.
unfoldable pub learn : RouterOption → Config → Config
unfolding encode_option
learn (link_addr mac) cfg = record cfg { router = record (cfg.router) { router_mac_addr = mac } }
learn (mtu_option a b mtu) cfg = record cfg { router = record (cfg.router) { mtu = mtu } }
learn (prefix_option prefix_length flags times prefix) cfg = record {
  globals = record (cfg.globals) {
    ipv6_addr = join_addr prefix cfg.globals.link_local;
    has_ipv6_addr = true;
  };
  router = record (cfg.router) {
    prefix = prefix;
    prefix_length = prefix_length;
    option_prefix_default = encode_option (prefix_option prefix_length flags times prefix);
  };
}

unfoldable pub learn_all : List RouterOption → Config → Config
learn_all [] cfg = cfg
learn_all (o ∷ os) cfg = learn_all os (learn o cfg)

abbrev pub option_size : RouterOption → ℕ
option_size (link_addr mac) = 8
option_size (mtu_option a b mtu) = 8
option_size (prefix_option prefix_length flags times prefix) = 32

pub length-encode_option :
    (o : RouterOption) → IsOption o → length (encode_option o) ≡ option_size o
unfolding encode_option
length-encode_option (link_addr mac) h = omega arith
length-encode_option (mtu_option a b mtu) h = omega arith
length-encode_option (prefix_option n flags times prefix) h =
    omega (arith, length-append times prefix, h.0, h.1)

read32-bytes32 : (v : ℕ) (rest : List ℕ) → v < 2 ^ 32 → read32 (bytes32 v ++ rest) 0 ≡ v
read32-bytes32 v rest h = omega arith

pub le→leb : (a b : ℕ) → a ≤ b → leb a b ≡ true
le→leb a b h = ground arith

fits :
    (o : RouterOption) (rest : List ℕ)
    → IsOption o
    → leb (option_size o) (length (encode_option o ++ rest)) ≡ true
fits o rest h =
    le→leb (option_size o) (length (encode_option o ++ rest))
      (omega (arith, length-append (encode_option o) rest, length-encode_option o h))

read_option-encode_option :
    (cfg : Config) (o : RouterOption) (rest : List ℕ) (len : ℕ)
    → IsOption o
    → read_option cfg (encode_option o ++ rest) len ≡ some (learn o cfg, option_size o)
unfolding encode_option read_option learn get_router_link_addr get_mtu get_prefix_default
read_option-encode_option cfg (link_addr mac) rest len h =
    rw (fits (link_addr mac) rest h, take_append 6 mac rest h) refl
read_option-encode_option cfg (mtu_option a b mtu) rest len h =
    rw (fits (mtu_option a b mtu) rest h, read32-bytes32 mtu rest h) refl
read_option-encode_option cfg (prefix_option n flags times prefix) rest len h =
    let tail : times ++ prefix ++ rest ≡ times ++ (prefix ++ rest) =
      append_assoc times prefix rest in
    let addr : take 16 (drop 12 ((times ++ prefix) ++ rest)) ≡ prefix =
      rw (tail, drop_append 12 times (prefix ++ rest) h.0) (take_append 16 prefix rest h.1) in
    let whole : take 28 ((times ++ prefix) ++ rest) ≡ times ++ prefix =
      take_append 28 (times ++ prefix) rest (omega (arith, length-append times prefix, h.0, h.1)) in
    rw (fits (prefix_option n flags times prefix) rest h, addr, whole) refl

options_loop-encode :
    (rounds : ℕ) (cfg : Config) (os : List RouterOption) (i len : ℕ)
    → All IsOption os
    → length (encode os) < rounds
    → len ≡ i + length (encode os)
    → options_loop rounds cfg (encode os) i len ≡ some (learn_all os cfg)
unfolding encode options_loop learn_all
options_loop-encode zero cfg os i len h r e = absurd (omega arith)
options_loop-encode (suc rounds) cfg [] i len h r e = rw (le→ltb i len (omega arith)) refl
options_loop-encode (suc rounds) cfg (o ∷ os) i len h r e =
    let size : length (encode_option o ++ encode os) ≡ option_size o + length (encode os) =
      omega (arith, length-append (encode_option o) (encode os), length-encode_option o h.0) in
    let some_bytes : 8 ≤ option_size o = option_size-le o in
    rw
      (
        lt→ltb i len (omega arith),
        read_option-encode_option cfg o (encode os) len h.0,
        drop_append (option_size o) (encode_option o) (encode os) (length-encode_option o h.0),
      )
      (options_loop-encode rounds (learn o cfg) os (i + option_size o) len h.1 (omega arith)
        (omega arith))
  where
    option_size-le : (o : RouterOption) → 8 ≤ option_size o
    option_size-le (link_addr mac) = omega arith
    option_size-le (mtu_option a b mtu) = omega arith
    option_size-le (prefix_option n flags times prefix) = omega arith

-- Reading an advertisement of well-formed options ends, and leaves the globals that the options
-- give one after the other, the header kept. The options take less than 64 KiB.
pub radvert_handler-encode :
    (cfg : Config) (header : List ℕ) (os : List RouterOption)
    → length header ≡ 16
    → All IsOption os
    → length (encode os) < 2 ^ 16
    → radvert_handler cfg (header ++ encode os) (16 + length (encode os))
      ≡ some (
          learn_all os
            (record cfg { router = record (cfg.router) { radvert_from_router = header } }))
unfolding radvert_handler
radvert_handler-encode cfg header os size ok small =
    let long : length (header ++ encode os) ≡ 16 + length (encode os) =
      omega (arith, length-append header (encode os)) in
    let enough : leb 16 (length (header ++ encode os)) ≡ true =
      le→leb 16 (length (header ++ encode os)) (omega arith) in
    let rest : (16 + length (encode os) + (2 ^ 32 - 16)) % 2 ^ 32 ≡ length (encode os) =
      omega arith in
    rw
      (enough, rest, take_append 16 header (encode os) size, drop_append 16 header (encode os) size)
      (options_loop-encode (suc (length (header ++ encode os))) _ os 0 (length (encode os)) ok
        (omega arith) (omega arith))
