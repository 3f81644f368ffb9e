-- ===== src/Startup/Dhcp.antt =====
-- The DHCP servers that the start of cmd/gokrazy-router/main.go makes, one for each scope.
pub mod Entries
use gokrazy_router.Prelude.{
  ℕ, Bool, true, false, not, ◌&&◌, Option, none, some, List, [], ◌∷◌, ◌++◌, if◌then◌else◌, Text,
  codes, is_empty, Dict, pos, int_eq, ℤ,
}
use gokrazy_router.Prelude.Decimal.{print_int}
use gokrazy_router.Net.{Ip, to4}
use gokrazy_router.Config.{Config, DhcpConfig, VlanConfig, WifiConfig, PxeConfig}
use gokrazy_router.Dhcp.State.{
  Cidr, Result, ok, err, ◌>>=◌, Server, new, set_on_lease, set_on_lease_expired,
}
use gokrazy_router.Vlan.{bridge_name}
use gokrazy_router.Reload.Boot.{apply_dhcp_options}
use gokrazy_router.Reload.Run.{DhcpEntry}
use gokrazy_router.Startup.{vlan_mode}

-- the bridge of the access point: that of the default VLAN where there is a MAC map, else a given one
unfoldable pub wifi_bridge : Config → Text
unfolding vlan_mode bridge_name
wifi_bridge cfg =
    let default_vlan =
      if int_eq cfg.wifi.default_vlan (pos 0) then pos 1 else cfg.wifi.default_vlan in
    if vlan_mode cfg && not (is_empty cfg.wifi.mac_map_file)
    then bridge_name default_vlan
    else if not (is_empty cfg.wifi.bridge) && is_empty cfg.wifi.address
    then cfg.wifi.bridge
    else []

-- `time.ParseDuration`, where twelve hours stand for an error, as in `ParseLeaseDuration`
unfoldable pub parse_lease_duration : (Text → Option ℕ) → ℕ → DhcpConfig → ℕ
parse_lease_duration parse_duration twelve_hours d = elim (parse_duration d.lease_duration) [
  | none ↦ twelve_hours
  | some t ↦ t
]

-- the parameters from the Go library, and whether there is a status monitor
pub record Host : Type 0 where
  pub parse_ip : Text → Ip
  pub parse_cidr : Text → Option Cidr
  pub print_ip : Ip → Text
  pub parse_duration : Text → Option ℕ
  pub twelve_hours : ℕ
  pub monitored : Bool

-- `ifaceIPFromCIDR`
unfoldable pub iface_ip_from_cidr : Host → Text → Text
unfolding to4
iface_ip_from_cidr host cidr = elim (host.parse_cidr cidr) [
  | none ↦ []
  | some c ↦ if is_empty (to4 c.address) then [] else host.print_ip (to4 c.address)
]

-- the callbacks, where there is a monitor
unfoldable pub watch : Bool → Server → Server
unfolding set_on_lease set_on_lease_expired
watch false srv = srv
watch true srv = set_on_lease_expired (set_on_lease srv)

module _ (host : Host) (cfg : Config) where
  -- the server of one scope, with the scope of the base configuration
  unfoldable pub start_scope : Text → Text → Text → DhcpConfig → DhcpConfig → Result DhcpEntry
  unfolding new apply_dhcp_options iface_ip_from_cidr parse_lease_duration watch
  start_scope context iface address d base_scope =
      let pxe = cfg.services.pxe in
      let lease = parse_lease_duration host.parse_duration host.twelve_hours d in
      let addr = iface_ip_from_cidr host address in
      let made =
        new host.parse_ip host.parse_cidr iface address d.range_start d.range_end d.dns lease in
      let finish : Server → DhcpEntry = λ srv. record {
        srv =
            watch host.monitored
              (apply_dhcp_options host.parse_ip d pxe.enabled addr pxe.mac_images pxe srv);
        tftp_addr = addr;
        base_scope = base_scope;
      } in
      elim made [ err e ↦ err (context ++ codes ": " ++ e) | ok srv ↦ ok (finish srv) ]

  -- the loop over the VLANs; the base configuration has the same ones
  unfoldable pub start_vlans : List VlanConfig → List VlanConfig → Result (List DhcpEntry)
  unfolding start_scope bridge_name
  start_vlans [] base = ok []
  start_vlans (vc ∷ vcs) [] = ok []
  start_vlans (vc ∷ vcs) (b ∷ base) = if not vc.dhcp.enabled then start_vlans vcs base else (do
    entry ←
        start_scope (codes "dhcp vlan " ++ print_int vc.id) (bridge_name vc.id) vc.address vc.dhcp
          b.dhcp
    rest ← start_vlans vcs base
    ok (entry ∷ rest))

  -- the scope of the access point, in routed mode; `routed` says that it runs and has no MAC map
  unfoldable pub start_wifi : Bool → WifiConfig → Result (List DhcpEntry)
  unfolding start_scope
  start_wifi routed base =
      if routed && not (is_empty cfg.wifi.address) && cfg.wifi.dhcp.enabled
      then (do
        entry ←
            start_scope (codes "dhcp wifi")
              (if is_empty cfg.wifi.interface then codes "wlan0" else cfg.wifi.interface)
              cfg.wifi.address cfg.wifi.dhcp base.dhcp
        ok (entry ∷ []))
      else ok []

  -- the scope of the LAN, in flat mode
  unfoldable pub start_lan : DhcpConfig → Result (List DhcpEntry)
  unfolding start_scope
  start_lan base =
      if cfg.lan.dhcp.enabled
      then (do
        entry ← start_scope (codes "dhcp") cfg.lan.bridge cfg.lan.address cfg.lan.dhcp base
        ok (entry ∷ []))
      else ok []

  -- all servers
  unfoldable pub start_dhcp : Bool → Config → Result (List DhcpEntry)
  unfolding start_vlans start_lan start_wifi vlan_mode
  start_dhcp routed base = do
    entries ← (if vlan_mode cfg then start_vlans cfg.vlans base.vlans else start_lan base.lan.dhcp)
    wifi_entries ← start_wifi routed base.wifi
    ok (entries ++ wifi_entries)
