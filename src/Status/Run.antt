-- ===== src/Status/Run.antt =====
-- The monitor of pkg/status/status.go while the program runs: what the callbacks of the leases and of the access point
-- call, and `sampleLoop` with `SetWiFiSource` and `Stop`.
pub mod Gateways
use gokrazy_router.Prelude.{
  ℕ, Bool, true, false, not, Option, none, List, [], ◌∷◌, if◌then◌else◌, Text,
}
use gokrazy_router.Net.{Ip}
use gokrazy_router.Status.State.{Rule, WifiStation, Monitor}
use gokrazy_router.Status.Sample.{sample, poll_wifi_stations}
use gokrazy_router.Status.Track.{add_client, remove_client, remove_client_by_mac}

-- the monitor with its source of stations, `stopCh`, and the loop that samples
pub record Sampler : Type 0 where
  pub monitor : Monitor
  pub wifi_source : Bool
  pub stop_ch : Bool
  pub sampling : Bool

-- `go m.sampleLoop()` of `New`
abbrev pub sampler_of : Monitor → Sampler
sampler_of m = record { monitor = m; wifi_source = false; stop_ch = false; sampling = true }

-- the body of the loop, where `stations` is what the source returns, or none for an error or nil
unfoldable pub tick : ℕ → List Rule → List Rule → Option (List WifiStation) → Sampler → Sampler
unfolding sample poll_wifi_stations
tick now rx_rules tx_rules stations s = if not s.sampling then s else record s {
  monitor =
      poll_wifi_stations (if s.wifi_source then stations else none)
        (sample now rx_rules tx_rules s.monitor);
}

-- the loop returns once it sees that `stopCh` is closed; a tick that is due may come first
unfoldable pub leave_loop : Sampler → Sampler
leave_loop s = if s.stop_ch then record s { sampling = false } else s

unfoldable pub set_wifi_source : Sampler → Sampler
set_wifi_source s = record s { wifi_source = true }

-- `Stop`, which closes the channel once
unfoldable pub stop : Sampler → Sampler
stop s = if s.stop_ch then s else record s { stop_ch = true }

-- what happens to the monitor: a call, or a step of the loop
pub data Event : Type 0 where
  client_added : ℕ → Bool → Ip → Text → Text → Event
  client_removed : ℕ → Bool → Option (List Rule) → Option (List Rule) → Ip → Event
  mac_removed : ℕ → Bool → Option (List Rule) → Option (List Rule) → Text → Event
  ticked : ℕ → List Rule → List Rule → Option (List WifiStation) → Event
  loop_left : Event
  source_set : Event
  stop_called : Event

module _ (ip_string : Ip → Text) where
  unfoldable pub step : Event → Sampler → Sampler
  unfolding add_client remove_client remove_client_by_mac tick leave_loop set_wifi_source stop
  step (client_added now ok ip mac via) s = record s {
    monitor = (add_client ip_string now ok ip mac via s.monitor).0;
  }
  step (client_removed now ok rx tx ip) s = record s {
    monitor = (remove_client ip_string now ok rx tx ip s.monitor).0;
  }
  step (mac_removed now ok rx tx mac) s = record s {
    monitor = (remove_client_by_mac ip_string now ok rx tx mac s.monitor).0;
  }
  step (ticked now rx tx stations) s = tick now rx tx stations s
  step loop_left s = leave_loop s
  step source_set s = set_wifi_source s
  step stop_called s = stop s

  unfoldable pub run : List Event → Sampler → Sampler
  unfolding step
  run [] s = s
  run (e ∷ es) s = run es (step e s)
