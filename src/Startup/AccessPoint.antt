-- ===== src/Startup/AccessPoint.antt =====
-- The access point in the start of cmd/gokrazy-router/main.go: the wait for its interface, hostapd, and the address
-- and the NAT rule of routed mode.
pub mod Endings
use gokrazy_router.Prelude.{
  ℕ, ◌+◌, ◌/◌, ap, Bool, true, false, not, ◌&&◌, Option, none, some, List, [], ◌∷◌, ◌++◌,
  if◌then◌else◌, Text, codes, is_empty,
}
use gokrazy_router.Prelude.Action.{Action, Outcome, failed, done, wrap, and_then, ◌>>=◌, return}
use gokrazy_router.Prelude.Poll.{Clock, poll}
use gokrazy_router.Config.{Config, WifiConfig}
use gokrazy_router.Dhcp.State.{Cidr}
use gokrazy_router.Macmap.{MapFile}
use gokrazy_router.Nat.{Manager, Message, add_source}
use gokrazy_router.Vlan.{Netlink, allow_exist}
use gokrazy_router.Wifi
use gokrazy_router.Wifi.{Ap, write_config}
use gokrazy_router.Startup.Dhcp.{wifi_bridge}

-- the calls: netlink, nftables, the clock and `Duration.String`, `os.WriteFile`, `MkdirAll`, the pipe and the start of a process, `net.ParseCIDR` and
-- `macmap.Load`
pub record Radio (World Link Addr : Type 0) : Type 0 where
  pub net : Netlink World Link Addr
  pub flush : List Message → Action World (Unit {0})
  pub clock : Clock World
  pub duration : ℕ → Text
  pub write_file : Text → Text → Action World (Unit {0})
  pub mkdir_all : Text → Action World (Unit {0})
  pub stdout_pipe : Action World (Unit {0})
  pub start_process : Text → List Text → Action World (Unit {0})
  pub parse_cidr : Text → Option Cidr
  pub load_map : Text → Outcome MapFile

abbrev pub wifi_interface : Config → Text
wifi_interface cfg = if is_empty cfg.wifi.interface then codes "wlan0" else cfg.wifi.interface

-- the access point has an address of its own, and no MAC map
abbrev pub is_routed : Config → Ap → Bool
is_routed cfg ap =
    not (is_empty cfg.wifi.address) && (elim ap.mac_map [ none ↦ true | some _ ↦ false ])

module _ {World Link Addr : Type 0} (radio : Radio World Link Addr) where
  -- `waitForInterface`, whose loop sleeps a quarter of a second each time
  unfoldable pub wait_for_link : Text → ℕ → Action World (Unit {0})
  unfolding poll
  wait_for_link name timeout w =
      poll radio.clock (radio.net.link_by_name name) 250
        (codes "interface " ++ name ++ codes " did not appear within " ++ radio.duration timeout)
        (radio.clock.now w + timeout) (timeout / 250 + 1) w

  -- `assignIP`
  unfoldable pub assign_ip : Text → Text → Action World (Unit {0})
  assign_ip iface cidr = do
    link ← radio.net.link_by_name iface
    addr ← (λ w. (radio.net.parse_addr cidr, w))
    _ ← (λ w. allow_exist radio.net.is_exist (radio.net.addr_add link addr w))
    radio.net.link_set_up link

  -- `launch`, whose output another thread reads
  unfoldable pub launch : Action World (Unit {0})
  launch = do
    _ ← (λ w.
        wrap (codes "wifi: create ctrl interface dir") (radio.mkdir_all (codes "/tmp/hostapd") w))
    _ ← (λ w. wrap (codes "wifi: stdout pipe") (radio.stdout_pipe w))
    (λ w.
        wrap (codes "wifi: start hostapd")
          (radio.start_process (codes "/usr/local/bin/hostapd") (codes "/tmp/hostapd.conf" ∷ []) w))

  -- `Start` of the access point, whose supervisor is another thread
  unfoldable pub start_ap : Ap → Action World (Unit {0})
  unfolding write_config launch
  start_ap ap = do _ ← write_config radio.write_file ap; launch

  -- the NAT rule of routed mode
  unfoldable pub add_wifi_source : Config → Option Manager → Action World (Unit {0})
  unfolding add_source
  add_wifi_source cfg none = return tt
  add_wifi_source cfg (some m) = elim (radio.parse_cidr cfg.wifi.address) [
    | none ↦ λ w. (failed (codes "parse WiFi CIDR"), w)
    | some c ↦ λ w. wrap (codes "nat: add WiFi source") (add_source radio.flush m c.network w)
  ]

  -- the address and the NAT rule, in routed mode
  unfoldable pub route_wifi : Config → Option Manager → Ap → Action World (Unit {0})
  unfolding assign_ip add_wifi_source
  route_wifi cfg nat ap w =
      let assigned = assign_ip (wifi_interface cfg) cfg.wifi.address w in
      if not (is_routed cfg ap)
      then (done tt, w)
      else and_then (wrap (codes "wifi: assign IP to " ++ wifi_interface cfg) assigned)
          (λ _. add_wifi_source cfg nat)

  -- from the interface on: an error ends the program
  unfoldable pub run_ap : Config → Option Manager → Action World (Option Ap)
  unfolding start_ap route_wifi wifi_bridge
  run_ap cfg nat = do
    ap ← (λ w. wrap (codes "wifi") (Wifi.new radio.load_map cfg.wifi (wifi_bridge cfg), w))
    _ ← (λ w. wrap (codes "wifi: start") (start_ap ap w))
    _ ← route_wifi cfg nat ap
    return (some ap)

  -- what follows the wait, whose error is passed over
  abbrev pub after_wait :
      Config → Option Manager → Outcome (Unit {0}) × World → Outcome (Option Ap) × World
  after_wait cfg nat (failed e, w) = (done none, w)
  after_wait cfg nat (done u, w) = run_ap cfg nat w

  unfoldable pub start_access_point : Config → Option Manager → Action World (Option Ap)
  unfolding wait_for_link run_ap
  start_access_point cfg nat w =
      if not cfg.wifi.enabled
      then (done none, w)
      else after_wait cfg nat (wait_for_link (wifi_interface cfg) 120000 w)
