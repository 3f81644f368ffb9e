-- ===== src/Status/State.antt =====
-- The records of pkg/status/status.go that the monitor of clients keeps. A rule is what the code reads
-- of it: its user data and the counters among its expressions. Times are numbers, and a rate is kept
-- as its two parts, the bytes and the time they took.
use gokrazy_router.Prelude.{ℕ, ◌+◌, ◌%◌, ◌^◌, Bool, List, Text, Dict, ℤ}
use gokrazy_router.Net.{Ip}

pub record Counter : Type 0 where
  pub bytes : ℕ
  pub packets : ℕ

-- `nftables.Rule`
pub record Rule : Type 0 where
  pub user_data : Text
  pub counters : List Counter

pub data Chain : Type 0 where
  chain_rx chain_tx : Chain

-- a call of the `nftables` connection that changes the rules
pub data Command : Type 0 where
  add_rule : Chain → Text → Ip → Command
  del_rule : Rule → Command

pub record ClientEntry : Type 0 where
  pub mac : Text
  pub ip : Ip
  pub via : Text
  pub connected : Bool
  pub first_seen : ℕ
  pub last_seen : ℕ
  pub hist_tx_bytes : ℕ
  pub hist_rx_bytes : ℕ
  pub hist_tx_pkts : ℕ
  pub hist_rx_pkts : ℕ

pub record CounterSnapshot : Type 0 where
  pub rx_bytes : ℕ
  pub tx_bytes : ℕ
  pub time : ℕ

pub record ClientRate : Type 0 where
  pub rx_delta : ℕ
  pub tx_delta : ℕ
  pub elapsed : ℕ

pub record WifiStationInfo : Type 0 where
  pub link_tx_rate : ℤ
  pub link_rx_rate : ℤ
  pub signal : ℤ

-- what a `WiFiStationSource` returns for a station
pub record WifiStation : Type 0 where
  pub mac : Text
  pub signal : ℤ
  pub tx_bitrate : ℤ
  pub rx_bitrate : ℤ

-- the fields of `Monitor` that change
pub record Monitor : Type 0 where
  pub clients : Dict ClientEntry
  pub gateway_ips : Dict Bool
  pub prev_snapshot : Dict CounterSnapshot
  pub rates : Dict ClientRate
  pub wifi_stations : Dict WifiStationInfo

pub record ClientInfo : Type 0 where
  pub ip : Text
  pub mac : Text
  pub via : Text
  pub connected : Bool
  pub tx_bytes : ℕ
  pub rx_bytes : ℕ
  pub tx_pkts : ℕ
  pub rx_pkts : ℕ
  pub rate : ClientRate
  pub link : WifiStationInfo
  pub total_tx_bytes : ℕ
  pub total_rx_bytes : ℕ
  pub total_tx_pkts : ℕ
  pub total_rx_pkts : ℕ
  pub first_seen : ℕ
  pub last_seen : ℕ

-- a sum of `uint64`
abbrev pub add64 : ℕ → ℕ → ℕ
add64 a b = (a + b) % 2 ^ 64
