-- ===== src/Config/Apply.antt =====
-- `ApplyExtras`, `ExtrasFromConfig`, `cloneStringMap` and `ExpandEnv` of pkg/config/config.go.
-- `net.ParseIP`, `net.ParseCIDR` and `os.ExpandEnv` are parameters. A range over a map runs in the
-- order of its list.
pub mod Laws
pub mod Scopes
pub mod Seed
use gokrazy_router.Prelude.{
  Bool, false, not, ◌&&◌, Option, none, some, List, [], ◌∷◌, map, if◌then◌else◌, Text, is_empty,
  Dict, insert, ℤ, int_eq,
}
use gokrazy_router.Mac.{normalize_mac}
use gokrazy_router.Net.{Ip, to4, subnet_contains}
use gokrazy_router.Dhcp.State.{Cidr}
use gokrazy_router.Config.{
  Config, DhcpConfig, LanConfig, VlanConfig, WifiConfig, ServicesConfig, PxeConfig, ExtrasConfig,
  empty_extras,
}

-- the loop of `cloneStringMap`, onto the entries already made
unfoldable pub clone_onto : Dict Text → Dict Text → Dict Text
clone_onto out [] = out
clone_onto out ((k, v) ∷ m) = clone_onto (insert (normalize_mac k) v out) m

unfoldable pub clone_string_map : Dict Text → Dict Text
clone_string_map m = clone_onto [] m

abbrev pub with_reservation : Text → Text → DhcpConfig → DhcpConfig
with_reservation mac ip d = record d { reservations = insert (normalize_mac mac) ip d.reservations }

abbrev pub with_boot_file : Text → DhcpConfig → DhcpConfig
with_boot_file file d = record d { pxe_boot_file = file }

abbrev pub with_dns : List Text → DhcpConfig → DhcpConfig
with_dns dns d = record d { dns = dns }

-- a change of the DHCP part of a VLAN
abbrev pub vlan_dhcp : (DhcpConfig → DhcpConfig) → VlanConfig → VlanConfig
vlan_dhcp f v = record v { dhcp = f v.dhcp }

module _ (parse_ip : Text → Ip) (parse_cidr : Text → Option Cidr) where
  -- the address parses as a CIDR whose subnet contains the IP
  unfoldable pub in_subnet_of : Text → Ip → Bool
  in_subnet_of address ip = elim (parse_cidr address) [
    | none ↦ false
    | some cidr ↦ subnet_contains cidr.network ip
  ]

  -- the reservation goes to the VLANs whose subnet contains it
  unfoldable pub reserve_in_vlan : Text → Text → Ip → VlanConfig → VlanConfig
  reserve_in_vlan mac ip parsed v =
      if in_subnet_of v.address parsed then vlan_dhcp (with_reservation mac ip) v else v

  unfoldable pub reserve_in_lan : Text → Text → Ip → LanConfig → LanConfig
  reserve_in_lan mac ip parsed l =
      if not (is_empty l.address) && in_subnet_of l.address parsed
      then record l { dhcp = with_reservation mac ip l.dhcp }
      else l

  -- one round of the loop over `extras.Reservations`
  unfoldable pub apply_reservation : Text → Text → Config → Config
  apply_reservation mac ip c =
      let parsed = to4 (parse_ip ip) in
      if is_empty (parse_ip ip) then c else if is_empty parsed then c else record c {
        lan = reserve_in_lan mac ip parsed c.lan;
        vlans = map (reserve_in_vlan mac ip parsed) c.vlans;
      }

  unfoldable pub apply_reservations : Dict Text → Config → Config
  apply_reservations [] c = c
  apply_reservations ((mac, ip) ∷ m) c = apply_reservations m (apply_reservation mac ip c)

-- the assignments to `c.Services.PXE` and to `PXEBootFile` of every scope
unfoldable pub apply_pxe : ExtrasConfig → Config → Config
apply_pxe e c =
    let pxe' : PxeConfig = record (c.services.pxe) {
      mac_images = clone_string_map e.mac_images;
      default_image = e.default_image;
      legacy_boot_file = e.legacy_boot_file;
      uefi_boot_file = e.uefi_boot_file;
      ipxe_script = e.ipxe_script;
    } in
    record c {
      services = record (c.services) { pxe = pxe' };
      vlans = map (vlan_dhcp (with_boot_file e.pxe_boot_file)) c.vlans;
      wifi = record (c.wifi) { dhcp = with_boot_file e.pxe_boot_file c.wifi.dhcp };
      lan = record (c.lan) { dhcp = with_boot_file e.pxe_boot_file c.lan.dhcp };
    }

-- the inner loop over the VLANs, which stops at the first with the ID
unfoldable pub set_vlan_address : ℤ → Text → List VlanConfig → List VlanConfig
set_vlan_address id addr [] = []
set_vlan_address id addr (v ∷ vs) =
    if int_eq v.id id then record v { address = addr } ∷ vs else v ∷ set_vlan_address id addr vs

unfoldable pub apply_vlan_addresses : List (ℤ × Text) → List VlanConfig → List VlanConfig
apply_vlan_addresses [] vs = vs
apply_vlan_addresses ((id, addr) ∷ m) vs = apply_vlan_addresses m (set_vlan_address id addr vs)

unfoldable pub apply_dns : List Text → Config → Config
apply_dns [] c = c
apply_dns dns c = record c {
  vlans = map (vlan_dhcp (with_dns dns)) c.vlans;
  wifi = record (c.wifi) { dhcp = with_dns dns c.wifi.dhcp };
  lan = record (c.lan) { dhcp = with_dns dns c.lan.dhcp };
}

module _ (parse_ip : Text → Ip) (parse_cidr : Text → Option Cidr) where
  -- `ApplyExtras` on extras that are not nil: the four parts in the order of the code
  unfoldable pub apply_extras : ExtrasConfig → Config → Config
  apply_extras e c =
      let reserved = apply_pxe e (apply_reservations parse_ip parse_cidr e.reservations c) in
      apply_dns e.dns
        (record reserved { vlans = apply_vlan_addresses e.vlan_addresses reserved.vlans })

-- one map copied into another, entry by entry
unfoldable pub copy_onto : Dict Text → Dict Text → Dict Text
copy_onto out [] = out
copy_onto out ((k, v) ∷ m) = copy_onto (insert k v out) m

-- the same for a map with `int` keys
unfoldable pub insert_int : ℤ → Text → List (ℤ × Text) → List (ℤ × Text)
insert_int k v [] = (k, v) ∷ []
insert_int k v ((j, w) ∷ m) = if int_eq j k then (k, v) ∷ m else (j, w) ∷ insert_int k v m

unfoldable pub vlan_reservations : Dict Text → List VlanConfig → Dict Text
vlan_reservations out [] = out
vlan_reservations out (v ∷ vs) = vlan_reservations (copy_onto out v.dhcp.reservations) vs

unfoldable pub vlan_addresses : List (ℤ × Text) → List VlanConfig → List (ℤ × Text)
vlan_addresses out [] = out
vlan_addresses out (v ∷ vs) = vlan_addresses (insert_int v.id v.address out) vs

-- `ExtrasFromConfig`
unfoldable pub extras_from_config : Config → ExtrasConfig
extras_from_config c = record empty_extras {
  reservations =
      copy_onto (copy_onto (vlan_reservations [] c.vlans) c.lan.dhcp.reservations)
        c.wifi.dhcp.reservations;
  mac_images = copy_onto [] c.services.pxe.mac_images;
  default_image = c.services.pxe.default_image;
  pxe_boot_file = c.services.pxe.boot_file;
  legacy_boot_file = c.services.pxe.legacy_boot_file;
  uefi_boot_file = c.services.pxe.uefi_boot_file;
  ipxe_script = c.services.pxe.ipxe_script;
  vlan_addresses = vlan_addresses [] c.vlans;
}

-- `ExpandEnv`, with the expansion of one text given; a write of a key that is being ranged over
-- replaces the value of that entry.
module _ (expand : Text → Text) where
  unfoldable pub expand_values : Dict Text → Dict Text
  expand_values [] = []
  expand_values ((k, v) ∷ m) = (k, expand v) ∷ expand_values m

  unfoldable pub expand_env : Config → Config
  expand_env c =
      let s = c.services in
      record c {
        services = record {
          mount = record (s.mount) {
            device = expand s.mount.device;
            target = expand s.mount.target;
            fs_type = expand s.mount.fs_type;
            options = expand s.mount.options;
          };
          smb = record (s.smb) {
            bin_path = expand s.smb.bin_path;
            listen = expand s.smb.listen;
            share_name = expand s.smb.share_name;
            share_path = expand s.smb.share_path;
            user = expand s.smb.user;
            password = expand s.smb.password;
          };
          pxe = record (s.pxe) {
            listen = expand s.pxe.listen;
            tftp_root = expand s.pxe.tftp_root;
            default_image = expand s.pxe.default_image;
            boot_file = expand s.pxe.boot_file;
            legacy_boot_file = expand s.pxe.legacy_boot_file;
            uefi_boot_file = expand s.pxe.uefi_boot_file;
            ipxe_script = expand s.pxe.ipxe_script;
            mac_images = expand_values s.pxe.mac_images;
          };
          extras_file = expand s.extras_file;
          admin_api = record (s.admin_api) {
            listen = expand s.admin_api.listen;
            token = expand s.admin_api.token;
          };
        };
      }
