-- ===== src/Net/Router/Advert.antt =====
-- The advertisement that a NAT box sends: `sendipv6pkt` with ROUTERA (net/sendipv6pkt.c).
use internetworking_nat_box.Base.{
  ℕ, ◌+◌, ◌/◌, ◌%◌, ◌^◌, ◌≤◌, ◌<◌, ◌≡◌, refl, sym, ap, ◌∙◌, inl, inr, Bool, true, false, Option,
  none, some, List, [], ◌∷◌, ◌++◌, arith, leb, Bool-cases, eq_of_some, ◌>>=◌, length, set, take,
  All, length-append, length-set, bind-inv, take_append, set-append_left, take_all, take_all,
}
use mathlib.Core.List.{append_assoc, append-nil}
use internetworking_nat_box.Net.Checksum.{cksum_valid, checksumv6}
use internetworking_nat_box.Net.Packet.{
  Packet, recompute_checksum, set_checksum, make_pseudo_hdr, fill_ip_datagram, fill_ethernet,
}
use internetworking_nat_box.Net.Packet.Rewrite.{length-write16}
use internetworking_nat_box.Net.Forward.{Globals, macucast}
use internetworking_nat_box.Net.Neighbor.{unswapped}
use internetworking_nat_box.Net.Router.{Config}
use internetworking_nat_box.Net.Router.Encode.{
  RouterOption, link_addr, mtu_option, prefix_option, encode_option, IsOption, encode,
  length-encode_option,
}
use internetworking_nat_box.Net.Router.Send.{
  fill_options, fill_option, fill_option_mtu, short_pseudo_hdr, write_header, radvert_valid,
  fill_icmp, send_checked, advert_options, advert_message, advert_fits, checked_advert,
  send_router_advert,
}

-- A validator whose header lands behind the message leaves the message alone.
radvert_valid-behind :
    (pkt : Packet)
    → length pkt.payload < unswapped pkt.payload_len
    → radvert_valid pkt ≡ (
        cksum_valid (short_pseudo_hdr pkt) pkt.payload pkt.payload_len 40 >>= λ valid.
        some (valid, pkt.payload))
unfolding radvert_valid write_header
radvert_valid-behind pkt h =
    let far : leb (unswapped pkt.payload_len) (length pkt.payload) ≡ false = ground arith in
    rw (far) refl

-- What `send_checked` lets through.
send_checked-sent :
    (pkt out : Packet) (m : Option Bool)
    → length pkt.payload ≤ pkt.payload_len
    → send_checked pkt (m >>= λ valid. some (valid, pkt.payload)) ≡ some (some out)
    → (out ≡ pkt) × (m ≡ some true)
unfolding send_checked
send_checked-sent pkt out none h e = cc
send_checked-sent pkt out (some false) h e = cc
send_checked-sent pkt out (some true) h e = (
  sym (eq_of_some (eq_of_some e))
      ∙ ap (λ p. record pkt { payload = p }) (take_all pkt.payload_len pkt.payload h),
  refl,
)

-- A checksum stored in the first of two parts leaves the second.
set_checksum-append :
    (header rest : List ℕ) (v : ℕ)
    → length header ≡ 16
    → set_checksum (header ++ rest) v ≡ set_checksum header v ++ rest
set_checksum-append header rest v h =
    rw (set-append_left header rest 2 (v / 256 % 256) (omega arith)) (
      set-append_left (set header 2 (v / 256 % 256)) rest 3 (v % 256)
        (omega (arith, length-set header 2 (v / 256 % 256))))

recompute_checksum-append :
    (src dest : List ℕ) (size : ℕ) (header rest out : List ℕ)
    → length header ≡ 16
    → recompute_checksum src dest size (header ++ rest) ≡ some out
    → (front : List ℕ) × (out ≡ front ++ rest) × (length front ≡ 16)
unfolding recompute_checksum
recompute_checksum-append src dest size header rest out h e =
    let (sum, summed, stored) =
      bind-inv
        (checksumv6 (make_pseudo_hdr src dest (set_checksum (header ++ rest) 0) size) (40 + size)) _
        e in
    (
      set_checksum (set_checksum header 0) sum,
      sym (eq_of_some stored)
          ∙ ap (λ l. set_checksum l sum) (set_checksum-append header rest 0 h)
          ∙ set_checksum-append (set_checksum header 0) rest sum (length-write16 header 2 0 ∙ h),
      length-write16 (set_checksum header 0) 2 sum ∙ length-write16 header 2 0 ∙ h,
    )

-- The fields of a filled packet.
record Filled (pkt : Packet) (sender msg : List ℕ) (size : ℕ) : Type 0 where
  payload : pkt.payload ≡ msg
  payload_len : pkt.payload_len ≡ size
  src : pkt.src ≡ sender

fill_icmp-inv :
    (g : Globals) (link_dest src dest : List ℕ) (size : ℕ) (msg : List ℕ) (iface : ℕ) (pkt : Packet)
    → fill_icmp g link_dest src dest size msg iface ≡ some pkt
    → (sent : List ℕ) × (recompute_checksum src dest size msg ≡ some sent)
      × Filled pkt src sent (size % 2 ^ 16)
unfolding fill_icmp fill_ip_datagram fill_ethernet
fill_icmp-inv g link_dest src dest size msg iface pkt e =
    let (sent, summed, built) = bind-inv (recompute_checksum src dest size msg) _ e in
    (
      sent,
      summed,
      record {
        payload = ap (λ p. p.payload) (sym (eq_of_some built));
        payload_len = ap (λ p. p.payload_len) (sym (eq_of_some built));
        src = ap (λ p. p.src) (sym (eq_of_some built));
      },
    )

send_checked-radvert :
    (pkt out : Packet)
    → length pkt.payload ≡ 64
    → pkt.payload_len ≡ 64
    → send_checked pkt (radvert_valid pkt) ≡ some (some out)
    → (out ≡ pkt) × (radvert_valid pkt ≡ some (true, pkt.payload))
send_checked-radvert pkt out long len e =
    let behind : length pkt.payload < unswapped pkt.payload_len = rw len (omega arith) in
    let result = radvert_valid-behind pkt behind in
    let sent =
      send_checked-sent pkt out (cksum_valid (short_pseudo_hdr pkt) pkt.payload pkt.payload_len 40)
        (omega arith) (ap (send_checked pkt) (sym result) ∙ e) in
    (sent.0, result ∙ ap (λ m. m >>= λ valid. some (valid, pkt.payload)) sent.1)

-- What a box has heard from its own router, with the sizes of its globals.
pub record HasHeard (box : Config) (n flags : ℕ) (times prefix : List ℕ) : Type 0 where
  pub prefix_heard :
      box.router.option_prefix_default ≡ encode_option (prefix_option n flags times prefix)
  pub prefix_size : IsOption (prefix_option n flags times prefix)
  pub header_size : length box.router.radvert_from_router ≡ 16
  pub mtu_size : box.router.mtu < 2 ^ 16

-- The options that it passes on.
abbrev pub passed_on : Config → List ℕ → ℕ → ℕ → List ℕ → List ℕ → List RouterOption
passed_on box mac n flags times prefix =
    link_addr mac ∷ mtu_option 0 0 box.router.mtu ∷ prefix_option n flags times prefix ∷ []

fill_option_mtu-encode_option :
    (mtu : ℕ) → mtu < 2 ^ 16 → fill_option_mtu mtu ≡ encode_option (mtu_option 0 0 mtu)
unfolding encode_option
fill_option_mtu-encode_option mtu h =
    let high : mtu / 2 ^ 24 % 256 ≡ 0 = omega arith in
    let low : mtu / 2 ^ 16 % 256 ≡ 0 = omega arith in
    let third : mtu / 2 ^ 8 % 256 ≡ mtu / 256 % 256 = omega arith in rw (high, low, third) refl

module _ (box : Config) (iface n flags : ℕ) (times prefix : List ℕ)
    (heard : HasHeard box n flags times prefix)
    (mac_size : length (macucast box.globals iface) ≡ 6) where
  abbrev pub options : List RouterOption
  options = passed_on box (macucast box.globals iface) n flags times prefix

  pub options-IsOption : All IsOption options
  options-IsOption = (mac_size, (omega (arith, heard.mtu_size), (heard.prefix_size, tt)))

  pub length-encode-options : length (encode options) ≡ 48
  unfolding encode
  length-encode-options = omega (
    arith,
    length-append (encode_option (link_addr (macucast box.globals iface))) (
        encode_option (mtu_option 0 0 box.router.mtu)
        ++ (encode_option (prefix_option n flags times prefix) ++ [])),
    length-append (encode_option (mtu_option 0 0 box.router.mtu))
        (encode_option (prefix_option n flags times prefix) ++ []),
    length-append (encode_option (prefix_option n flags times prefix)) [],
    length-encode_option (link_addr (macucast box.globals iface)) mac_size,
    length-encode_option (mtu_option 0 0 box.router.mtu) (omega (arith, heard.mtu_size)),
    length-encode_option (prefix_option n flags times prefix) heard.prefix_size,
  )

  joined : (a b c junk : List ℕ) → a ++ (b ++ (c ++ junk)) ≡ (a ++ (b ++ (c ++ []))) ++ junk
  joined a b c junk = simp (append_assoc, append-nil)

  -- Whatever stands behind the array of types, the options sent are the three.
  advert_options-encode : (stack : List ℕ) → advert_options box stack iface ≡ encode options
  unfolding advert_options fill_options fill_option encode encode_option
  advert_options-encode stack =
      let mac = macucast box.globals iface in
      let mtu = mtu_option 0 0 box.router.mtu in
      let heard_prefix = prefix_option n flags times prefix in
      let beyond =
        fill_options box.router mac (take 45 stack) (length box.router.option_prefix_default) in
      let parts : fill_options box.router mac (1 ∷ 5 ∷ 3 ∷ take 45 stack) 0
          ≡ encode options ++ beyond =
        ap (λ m. (1 ∷ 1 ∷ mac) ++ (m ++ (box.router.option_prefix_default ++ beyond)))
          (fill_option_mtu-encode_option box.router.mtu heard.mtu_size)
        ∙ ap (λ o. (1 ∷ 1 ∷ mac) ++ (encode_option mtu ++ (o ++ beyond))) heard.prefix_heard
        ∙ joined (1 ∷ 1 ∷ mac) (encode_option mtu) (encode_option heard_prefix) beyond in
      ap (take 48) parts ∙ take_append 48 (encode options) beyond length-encode-options

  -- An advertisement that is sent kept inside its buffer.
  checked_advert-fits :
      (stack link_dest : List ℕ) (pkt : Packet)
      → checked_advert box stack link_dest iface ≡ some (some pkt)
      → (fill_icmp box.globals link_dest box.globals.link_local box.globals.alln_ip_multi 64
            (advert_message box stack iface)
            iface
          >>= λ filled. send_checked filled (radvert_valid filled))
        ≡ some (some pkt)
  unfolding checked_advert
  checked_advert-fits stack link_dest pkt e = elim (Bool-cases (advert_fits box stack iface)) [
    | inl inside ↦ rw inside at e
    | inr behind ↦ cc (rw behind at e)
  ]

  -- What goes out: the heard header with a checksum, the three options, and a check that passed.
  pub send_router_advert-sent :
      (stack link_dest : List ℕ) (pkt : Packet)
      → send_router_advert box stack link_dest iface ≡ some (some pkt)
      → (header : List ℕ) × (pkt.payload ≡ header ++ encode options)
        × (length header ≡ 16)
        × (pkt.payload_len ≡ 64)
        × (pkt.src ≡ box.globals.link_local)
        × (radvert_valid pkt ≡ some (true, pkt.payload))
  unfolding send_router_advert checked_advert advert_message
  send_router_advert-sent stack link_dest pkt e = elim (Bool-cases box.globals.host) [
    | inl is_host ↦
        let silent : send_router_advert box stack link_dest iface ≡ some none = rw is_host refl in
        cc
    | inr is_box ↦
        let body : send_router_advert box stack link_dest iface
            ≡ checked_advert box stack link_dest iface =
          rw is_box refl in
        let (filled, from, sent) =
          bind-inv
            (fill_icmp box.globals link_dest box.globals.link_local box.globals.alln_ip_multi 64
              (advert_message box stack iface) iface)
            _ (checked_advert-fits stack link_dest pkt (sym body ∙ e)) in
        let (msg, stored, f) =
          fill_icmp-inv box.globals link_dest box.globals.link_local box.globals.alln_ip_multi 64
            (advert_message box stack iface) iface filled from in
        let (header, split, size) =
          recompute_checksum-append box.globals.link_local box.globals.alln_ip_multi 64
            box.router.radvert_from_router (advert_options box stack iface) msg heard.header_size
            stored in
        let whole : filled.payload ≡ header ++ encode options =
          f.payload ∙ split ∙ ap (λ o. header ++ o) (advert_options-encode stack) in
        let long : length filled.payload ≡ 64 =
          ap length whole
          ∙ omega (arith, length-append header (encode options), length-encode-options, size) in
        let (same, passed) = send_checked-radvert filled pkt long f.payload_len sent in
        (
          header,
          ap (λ p. p.payload) same ∙ whole,
          size,
          ap (λ p. p.payload_len) same ∙ f.payload_len,
          ap (λ p. p.src) same ∙ f.src,
          ap radvert_valid same ∙ passed ∙ ap (λ p. some (true, p.payload)) (sym same),
        )
  ]
