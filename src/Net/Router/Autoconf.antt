-- ===== src/Net/Router/Autoconf.antt =====
-- How a host gets its address from a NAT box: `ipv6_init` solicits, the box answers, the host reads
-- the answer.
use internetworking_nat_box.Base.{ℕ, ◌≡◌, ◌⊎◌, Option, none, some, List, [], ◌∷◌}
use internetworking_nat_box.Net.Packet.{Packet}
use internetworking_nat_box.Net.Icmp.{Event, wrote}
use internetworking_nat_box.Net.Router.{Config}
use internetworking_nat_box.Net.Router.Receive.{Layout, learn_router, router_advert_in}
use internetworking_nat_box.Net.Router.Relay.{Follows}

-- What the box does with a solicitation: nothing, or it sends an advertisement, and a host that
-- hears it follows the box.
abbrev pub Answered :
    Layout → Config → Config → ℕ → List ℕ → (ℕ → List ℕ) → ℕ → Option (List Event) → Type 0
Answered layout box host iface prefix there back none = ⊥
Answered layout box host iface prefix there back (some events) =
    (events ≡ [])
    ⊎ ((reply : Packet) × (events ≡ wrote reply ∷ [])
        × (read : Config) × (router_advert_in layout host there (record reply { net_iface = back })
            ≡ some (learn_router layout (record reply { net_iface = back }) read, []))
        × Follows box host iface prefix read)
