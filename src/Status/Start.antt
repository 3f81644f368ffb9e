-- ===== src/Status/Start.antt =====
-- `New` of pkg/status/status.go, which makes the table of the counters and collects the addresses of the router.
use gokrazy_router.Prelude.{Bool, true, List, [], ◌∷◌, Text, codes, Dict, insert}
use gokrazy_router.Prelude.Action.{Action, Outcome, failed, done, wrap, ◌>>=◌}
use gokrazy_router.Net.{Ip}
use gokrazy_router.Status.State.{Monitor}

-- what `New` sends to nftables; both chains count what is forwarded
pub data Setup : Type 0 where
  add_table : Text → Setup
  add_forward_chain : Text → Text → Setup

-- the calls of netlink, which leave the links as they are, the flush, and `String` of an IP
pub record Links (World Link : Type 0) : Type 0 where
  pub link_by_name : World → Text → Outcome Link
  pub addr_list : World → Link → Outcome (List Ip)
  pub flush : List Setup → Action World (Unit {0})
  pub ip_string : Ip → Text

-- the fields of `Monitor` that do not change
pub record Interfaces : Type 0 where
  pub wan_iface : Text
  pub lan_iface : Text
  pub lan_ports : List Text
  pub wifi_iface : Text

abbrev pub stats_table : Text
stats_table = codes "gokrazy_stats"

abbrev pub empty_monitor : Dict Bool → Monitor
empty_monitor ips = record {
  clients = [];
  gateway_ips = ips;
  prev_snapshot = [];
  rates = [];
  wifi_stations = [];
}

module _ {World Link : Type 0} (links : Links World Link) where
  -- the loop over the addresses of an interface
  unfoldable pub add_addresses : List Ip → Dict Bool → Dict Bool
  add_addresses [] ips = ips
  add_addresses (a ∷ rest) ips = add_addresses rest (insert (links.ip_string a) true ips)

  -- an interface whose addresses cannot be listed is passed over
  abbrev pub addresses_of : World → Text → List Ip
  addresses_of w name = elim (links.link_by_name w name) [
    | failed e ↦ []
    | done link ↦ elim (links.addr_list w link) [ failed e ↦ [] | done addrs ↦ addrs ]
  ]

  unfoldable pub gateway_addresses : World → List Text → Dict Bool → Dict Bool
  gateway_addresses w [] ips = ips
  gateway_addresses w (name ∷ names) ips =
      gateway_addresses w names (add_addresses (addresses_of w name) ips)

  unfoldable pub new : Text → Text → List Text → Text → Action World (Interfaces × Monitor)
  unfolding gateway_addresses
  new wan lan ports wifi = do
    _ ← (λ w. wrap (codes "status: create nftables table") (
        links.flush
          (add_table stats_table
            ∷ add_forward_chain stats_table (codes "client_rx")
            ∷ add_forward_chain stats_table (codes "client_tx")
            ∷ [])
          w))
    λ w. (
      done (
        record { wan_iface = wan; lan_iface = lan; lan_ports = ports; wifi_iface = wifi },
        empty_monitor (gateway_addresses w (lan ∷ wifi ∷ wan ∷ []) []),
      ),
      w,
    )
