-- ===== src/Status/Sample.antt =====
-- `extractIP`, `sample`, `pollWiFiStations` and the clients of `GetStatus` in pkg/status/status.go. The
-- rules are what `GetRules` returns for the two chains.
use gokrazy_router.Prelude.{
  ℕ, ◌-◌, not, Option, none, some, List, [], ◌∷◌, map, leb, if◌then◌else◌, length, take, drop, Text,
  codes, text_eq, is_empty, Dict, lookup, insert, lookup_or, pos,
}
use gokrazy_router.Status.State.{
  Counter, Rule, ClientEntry, CounterSnapshot, ClientRate, WifiStationInfo, WifiStation, Monitor,
  ClientInfo, add64,
}

unfoldable pub extract_ip : Text → Text → Text
extract_ip s suffix =
    let n = length s - length suffix in
    if leb (length s) (length suffix)
    then []
    else if not (text_eq (drop n s) suffix)
    then []
    else take n s

module _ {V : Type 0} (put : Text → Counter → Dict V → Dict V) where
  -- the loop over the expressions of a rule
  unfoldable pub put_counters : Text → List Counter → Dict V → Dict V
  put_counters ip [] out = out
  put_counters ip (c ∷ cs) out = put_counters ip cs (put ip c out)

  -- the loop over the rules of a chain
  unfoldable pub gather : Text → List Rule → Dict V → Dict V
  gather suffix [] out = out
  gather suffix (r ∷ rs) out =
      let ip = extract_ip r.user_data suffix in
      gather suffix rs (if is_empty ip then out else put_counters ip r.counters out)

abbrev pub no_snapshot : CounterSnapshot
no_snapshot = record { rx_bytes = 0; tx_bytes = 0; time = 0 }

abbrev pub snap_rx : ℕ → Text → Counter → Dict CounterSnapshot → Dict CounterSnapshot
snap_rx now ip c current =
    let snap = lookup_or ip no_snapshot current in
    insert ip (record snap { rx_bytes = c.bytes; time = now }) current

abbrev pub snap_tx : ℕ → Text → Counter → Dict CounterSnapshot → Dict CounterSnapshot
snap_tx now ip c current =
    let snap = lookup_or ip no_snapshot current in
    insert ip (record snap { tx_bytes = c.bytes; time = now }) current

-- a counter that went down starts again from 0
abbrev pub delta : ℕ → ℕ → ℕ
delta cur prev = if leb prev cur then cur - prev else 0

-- the body of the loop over the snapshot
unfoldable pub rate_of : Option CounterSnapshot → CounterSnapshot → Option ClientRate
rate_of none cur = none
rate_of (some prev) cur =
    if leb cur.time prev.time
    then none
    else some (record {
      rx_delta = delta cur.rx_bytes prev.rx_bytes;
      tx_delta = delta cur.tx_bytes prev.tx_bytes;
      elapsed = cur.time - prev.time;
    })

unfoldable pub new_rates : Dict CounterSnapshot → Dict CounterSnapshot → Dict ClientRate
new_rates prev [] = []
new_rates prev ((ip, cur) ∷ m) =
    let rest = new_rates prev m in
    elim (rate_of (lookup ip prev) cur) [ none ↦ rest | some rate ↦ (ip, rate) ∷ rest ]

unfoldable pub sample : ℕ → List Rule → List Rule → Monitor → Monitor
sample now rx_rules tx_rules m =
    let current =
      gather (snap_tx now) (codes "/tx") tx_rules
        (gather (snap_rx now) (codes "/rx") rx_rules []) in
    record m { prev_snapshot = current; rates = new_rates m.prev_snapshot current }

-- the loop of `pollWiFiStations`
unfoldable pub station_info : Dict WifiStationInfo → List WifiStation → Dict WifiStationInfo
station_info info [] = info
station_info info (sta ∷ stas) =
    station_info
      (insert sta.mac
        (record {
          link_tx_rate = sta.tx_bitrate;
          link_rx_rate = sta.rx_bitrate;
          signal = sta.signal;
        })
        info)
      stas

-- `pollWiFiStations`, where the source returns stations, or none for an error or nil
unfoldable pub poll_wifi_stations : Option (List WifiStation) → Monitor → Monitor
poll_wifi_stations none m = m
poll_wifi_stations (some stations) m = record m { wifi_stations = station_info [] stations }

abbrev pub no_counter : Counter
no_counter = record { bytes = 0; packets = 0 }

abbrev pub no_rate : ClientRate
no_rate = record { rx_delta = 0; tx_delta = 0; elapsed = 1 }

abbrev pub no_link : WifiStationInfo
no_link = record { link_tx_rate = pos 0; link_rx_rate = pos 0; signal = pos 0 }

-- the body of the loop over the clients in `GetStatus`
unfoldable pub client_info : Monitor → Dict Counter → Dict Counter → Text → ClientEntry → ClientInfo
client_info m rx_counters tx_counters ip entry =
    let live_rx = lookup_or ip no_counter rx_counters in
    let live_tx = lookup_or ip no_counter tx_counters in
    record {
      ip = ip;
      mac = entry.mac;
      via = entry.via;
      connected = entry.connected;
      tx_bytes = live_tx.bytes;
      rx_bytes = live_rx.bytes;
      tx_pkts = live_tx.packets;
      rx_pkts = live_rx.packets;
      rate = lookup_or ip no_rate m.rates;
      link =
          if text_eq entry.via (codes "W")
          then lookup_or entry.mac no_link m.wifi_stations
          else no_link;
      total_tx_bytes = add64 entry.hist_tx_bytes live_tx.bytes;
      total_rx_bytes = add64 entry.hist_rx_bytes live_rx.bytes;
      total_tx_pkts = add64 entry.hist_tx_pkts live_tx.packets;
      total_rx_pkts = add64 entry.hist_rx_pkts live_rx.packets;
      first_seen = entry.first_seen;
      last_seen = entry.last_seen;
    }

abbrev pub live_counters : Text → List Rule → Dict Counter
live_counters suffix rules = gather insert suffix rules []

unfoldable pub client_infos : Monitor → List Rule → List Rule → List ClientInfo
client_infos m rx_rules tx_rules =
    map
      (λ e.
        client_info m (live_counters (codes "/rx") rx_rules) (live_counters (codes "/tx") tx_rules)
          e.0 e.1)
      m.clients
