-- ===== src/Startup.antt =====
-- The start of cmd/gokrazy-router/main.go: the configuration in effect, the NAT rules and the isolation
-- of VLANs. `log.Fatalf` is the failure of the action.

pub mod Isolation
pub mod Masquerade
pub mod Hooks
pub mod Dhcp
pub mod AccessPoint
pub mod Network
use gokrazy_router.Prelude.{
  ℕ, ◌++◌, Bool, true, false, not, ◌&&◌, Option, none, some, List, [], ◌∷◌, map, if◌then◌else◌,
  Text, codes, text_eq, is_empty,
}
use gokrazy_router.Prelude.Action.{
  Action, Outcome, failed, done, wrap, wrap-eq-done, done_inj, and_then, ◌>>=◌, return,
}
use gokrazy_router.Prelude.Decimal.{print_int}
use gokrazy_router.Net.{Ip, IpNet}
use gokrazy_router.Config.{
  Config, LanConfig, VlanConfig, WifiConfig, DhcpConfig, ServicesConfig, SmbConfig, PxeConfig,
}
use gokrazy_router.Config.Apply.{vlan_dhcp, with_dns, expand_env, apply_extras}
use gokrazy_router.Reload.Run.{Loaded, Save, load_or_create_extras, clone_config}
use gokrazy_router.Dhcp.State.{Cidr}
use gokrazy_router.Nat.{Manager, Message, setup, add_source, add_isolation}
use gokrazy_router.Vlan.{bridge_name}

-- a scope without DNS servers gets the global ones
abbrev pub dns_or : List Text → DhcpConfig → DhcpConfig
dns_or dns d = if is_empty d.dns then with_dns dns d else d

unfoldable pub default_dns : Config → Config
default_dns cfg = if is_empty cfg.dns then cfg else record cfg {
  lan = record (cfg.lan) { dhcp = dns_or cfg.dns cfg.lan.dhcp };
  vlans = map (vlan_dhcp (dns_or cfg.dns)) cfg.vlans;
  wifi = record (cfg.wifi) { dhcp = dns_or cfg.dns cfg.wifi.dhcp };
}

-- the paths of the services that follow from the target of the mount; `join` is `filepath.Join`
unfoldable pub default_paths : (Text → Text → Text) → Config → Config
default_paths join cfg =
    let target = cfg.services.mount.target in
    let smb' : SmbConfig =
      if cfg.services.smb.enabled && is_empty cfg.services.smb.share_path
      then record (cfg.services.smb) { share_path = target }
      else cfg.services.smb in
    let pxe' : PxeConfig =
      if cfg.services.pxe.enabled && is_empty cfg.services.pxe.tftp_root
      then record (cfg.services.pxe) { tftp_root = join target (codes "tftpboot") }
      else cfg.services.pxe in
    record cfg { services = record (cfg.services) { smb = smb'; pxe = pxe' } }

-- The configuration that the program runs with, and the base that reloads start from: the environment,
-- the global DNS servers, the extras file and the default paths, in this order. `file` is what the extras
-- file has, and `save` says how the write of a new one ends.
unfoldable pub effective_config :
    (Text → Text)
    → (Text → Ip)
    → (Text → Option Cidr)
    → (Text → Text → Text)
    → Loaded
    → Save
    → Config
    → Config × Config
unfolding expand_env default_dns clone_config load_or_create_extras apply_extras default_paths
effective_config env parse_ip parse_cidr join file save loaded_cfg =
    let cfg = default_dns (expand_env env loaded_cfg) in
    let merged : Config =
      if is_empty cfg.services.extras_file
      then cfg
      else elim (load_or_create_extras file save cfg).0 [
        | none ↦ cfg
        | some extras ↦ apply_extras parse_ip parse_cidr extras cfg
      ] in
    (clone_config cfg, default_paths join merged)

unfoldable pub vlan_mode : Config → Bool
vlan_mode cfg = not (is_empty cfg.vlans)

-- the bridges of the VLANs that are not the isolated one
unfoldable pub other_bridges : Text → List VlanConfig → List Text
unfolding bridge_name
other_bridges isolated [] = []
other_bridges isolated (vc ∷ vcs) =
    let rest = other_bridges isolated vcs in
    if not (text_eq (bridge_name vc.id) isolated) then bridge_name vc.id ∷ rest else rest

module _ {World : Type 0} (flush : List Message → Action World (Unit {0}))
    (interface_by_name : Text → Action World ℕ) (parse_cidr : Text → Option Cidr) where
  -- the first network makes the manager, the others are added to it
  unfoldable pub add_nat_network :
      Text → Text → Option Manager → IpNet → Action World (Option Manager)
  unfolding setup add_source
  add_nat_network context out_iface none network = do
    m ← (λ w. wrap (codes "nat") (setup flush interface_by_name out_iface network w))
    return (some m)
  add_nat_network context out_iface (some m) network = do
    _ ← (λ w. wrap context (add_source flush m network w))
    return (some m)

  -- the loop over the VLANs
  unfoldable pub nat_vlans : Text → Option Manager → List VlanConfig → Action World (Option Manager)
  unfolding add_nat_network
  nat_vlans out_iface made [] = return made
  nat_vlans out_iface made (vc ∷ vcs) =
      if not vc.nat then nat_vlans out_iface made vcs else elim (parse_cidr vc.address) [
        | none ↦ nat_vlans out_iface made vcs
        | some c ↦ do
          made' ←
              add_nat_network (codes "nat: add VLAN " ++ print_int vc.id ++ codes " source")
                out_iface made c.network
          nat_vlans out_iface made' vcs
      ]

  unfoldable pub install_nat : Config → Action World (Option Manager)
  unfolding nat_vlans vlan_mode
  install_nat cfg =
      if not cfg.nat.enabled
      then return none
      else if vlan_mode cfg
      then nat_vlans cfg.nat.out_interface none cfg.vlans
      else elim (parse_cidr cfg.lan.address) [
        | none ↦ λ w. (failed (codes "parse LAN CIDR"), w)
        | some c ↦ add_nat_network (codes "nat") cfg.nat.out_interface none c.network
      ]

  -- the isolation of one VLAN
  unfoldable pub isolate_vlan : List VlanConfig → VlanConfig → Manager → Action World Manager
  unfolding add_isolation other_bridges bridge_name
  isolate_vlan all vc m w =
      let others = other_bridges (bridge_name vc.id) all in
      let result = add_isolation flush m (bridge_name vc.id) others w in
      if not vc.isolated
      then (done m, w)
      else if is_empty others
      then (done m, w)
      else and_then
          (wrap (codes "nat: isolation for VLAN " ++ print_int vc.id) (result.1, result.2))
          (λ _. return result.0)

  unfoldable pub isolate_vlans : List VlanConfig → List VlanConfig → Manager → Action World Manager
  unfolding isolate_vlan
  isolate_vlans all [] m = return m
  isolate_vlans all (vc ∷ vcs) m = do m' ← isolate_vlan all vc m; isolate_vlans all vcs m'

  unfoldable pub install_isolation : Config → Option Manager → Action World (Option Manager)
  unfolding isolate_vlans vlan_mode
  install_isolation cfg none = return none
  install_isolation cfg (some m) =
      if vlan_mode cfg
      then (do m' ← isolate_vlans cfg.vlans cfg.vlans m; return (some m'))
      else return (some m)

  -- the NAT rules and the isolation, in the order of `main`
  unfoldable pub install_rules : Config → Action World (Option Manager)
  unfolding install_nat install_isolation
  install_rules cfg = do m ← install_nat cfg; install_isolation cfg m
