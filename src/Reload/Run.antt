-- ===== src/Reload/Run.antt =====
-- `reloader` of cmd/gokrazy-router/main.go: the reload of the extras file. The file system is what
-- `config.LoadExtras` and `Save` find there; a DHCP server is its state, and the PXE server the part of
-- it that a reload writes.
pub mod Laws
use gokrazy_router.Prelude.{
  Bool, false, not, ◌||◌, Option, none, some, List, [], ◌∷◌, map, if◌then◌else◌, Text, text_eq,
  is_empty, Dict, ℤ, int_eq,
}
use gokrazy_router.Net.{Ip}
use gokrazy_router.Config.{
  Config, DhcpConfig, VlanConfig, PxeConfig, SmbUser, ExtrasConfig, empty_extras,
}
use gokrazy_router.Config.Apply.{apply_extras, extras_from_config, copy_onto}
use gokrazy_router.Dhcp.State.{Cidr, Server, set_reservations}
use gokrazy_router.Pxe.Image.{ImageServer, set_mac_images, set_default_image}
use gokrazy_router.Reload.Boot.{apply_pxe_boot_options}
use gokrazy_router.Reload.Users.{equal_smb_users}

pub record DhcpEntry : Type 0 where
  pub srv : Server
  pub tftp_addr : Text
  pub base_scope : DhcpConfig

pub record Reloader : Type 0 where
  pub cfg : Config
  pub base : Config
  pub extras_path : Text
  pub dhcp_entries : List DhcpEntry
  pub pxe_srv : Option ImageServer
  pub applied_smb_users : List SmbUser

-- what `config.LoadExtras` finds
pub data Loaded : Type 0 where
  loaded : ExtrasConfig → Loaded
  not_exist unreadable : Loaded

-- how the write of a new file ends: with all of it, or with an error, which leaves something or nothing
pub data Save : Type 0 where
  written : Save
  write_failed : Loaded → Save

pub data ReloadError : Type 0 where
  no_extras_file restart_required : ReloadError

-- `loadOrCreateExtras`; `none` is an error. The second part is what the file has afterwards.
unfoldable pub load_or_create_extras : Loaded → Save → Config → Option ExtrasConfig × Loaded
load_or_create_extras (loaded e) save cfg = (some e, loaded e)
load_or_create_extras not_exist written cfg =
    (some (extras_from_config cfg), loaded (extras_from_config cfg))
load_or_create_extras not_exist (write_failed left) cfg = (none, left)
load_or_create_extras unreadable save cfg = (none, unreadable)

-- the inner loop of `checkRestartRequired`: the first VLAN with the ID has another address
unfoldable pub address_changed : ℤ → Text → List VlanConfig → Bool
address_changed id addr [] = false
address_changed id addr (v ∷ vs) =
    let rest = address_changed id addr vs in
    if not (int_eq v.id id) then rest else not (text_eq addr v.address)

unfoldable pub addresses_changed : List (ℤ × Text) → List VlanConfig → Bool
addresses_changed [] vs = false
addresses_changed ((id, addr) ∷ m) vs = address_changed id addr vs || addresses_changed m vs

unfoldable pub check_restart_required : Reloader → ExtrasConfig → Option ReloadError
check_restart_required r e =
    if addresses_changed e.vlan_addresses r.cfg.vlans
    then some restart_required
    else if not (equal_smb_users r.applied_smb_users e.smb_users)
    then some restart_required
    else none

-- `mergedReservations`
unfoldable pub merged_reservations : Dict Text → Dict Text → Dict Text
merged_reservations base extras = copy_onto (copy_onto [] base) extras

-- the extras that a reload works with: an error falls back to empty extras
abbrev pub reload_extras : Loaded → Save → Config → ExtrasConfig
reload_extras file save cfg = elim (load_or_create_extras file save cfg).0 [
  | none ↦ empty_extras
  | some e ↦ e
]

module _ (parse_ip : Text → Ip) (parse_cidr : Text → Option Cidr) where
  -- the body of the loop over the DHCP servers
  unfoldable pub reload_entry : Config → ExtrasConfig → DhcpEntry → DhcpEntry
  reload_entry cfg e entry =
      let res = merged_reservations entry.base_scope.reservations e.reservations in
      let pxe = cfg.services.pxe in
      let bs = if pxe.enabled then entry.tftp_addr else [] in
      record entry {
        srv =
            apply_pxe_boot_options parse_ip pxe.enabled bs pxe.mac_images pxe
              (set_reservations parse_ip entry.srv res);
      }

  -- `Reload` behind the check
  unfoldable pub apply_reload : Reloader → ExtrasConfig → Reloader
  apply_reload r e =
      let cfg' = apply_extras parse_ip parse_cidr e r.cfg in
      record r {
        cfg = cfg';
        dhcp_entries = map (reload_entry cfg' e) r.dhcp_entries;
        pxe_srv = elim r.pxe_srv [
          | none ↦ none
          | some s ↦ some (set_default_image e.default_image (set_mac_images e.mac_images s))
        ];
      }

  -- `Reload`: the reloader and the error, and what the extras file has afterwards
  unfoldable pub reload : Loaded → Save → Reloader → Reloader × Option ReloadError × Loaded
  reload file save r =
      let e = reload_extras file save r.cfg in
      let file' = (load_or_create_extras file save r.cfg).1 in
      if is_empty r.extras_path
      then (r, some no_extras_file, file)
      else (elim (check_restart_required r e) [
        | some error ↦ (r, some error, file')
        | none ↦ (apply_reload r e, none, file')
      ])

abbrev pub clone_scope : DhcpConfig → DhcpConfig
clone_scope d = record d { reservations = copy_onto [] d.reservations }

abbrev pub clone_vlan : VlanConfig → VlanConfig
clone_vlan v = record v { dhcp = clone_scope v.dhcp }

abbrev pub clone_pxe : PxeConfig → PxeConfig
clone_pxe pxe = record pxe { mac_images = copy_onto [] pxe.mac_images }

-- `cloneConfig`
unfoldable pub clone_config : Config → Config
clone_config c = record c {
  lan = record (c.lan) { dhcp = clone_scope c.lan.dhcp };
  wifi = record (c.wifi) { dhcp = clone_scope c.wifi.dhcp };
  vlans = map clone_vlan c.vlans;
  services = record (c.services) { pxe = clone_pxe c.services.pxe };
}
