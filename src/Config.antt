-- ===== src/Config.antt =====
-- pkg/config/config.go: the configuration, the runtime extras file and how the two are merged. The
-- values are those that the JSON and TOML decoders give; a nil map is an empty one.
pub mod Extras
pub mod Apply
use gokrazy_router.Prelude.{◌-◌, ◌/◌, Bool, true, false, List, [], ◌∷◌, Text, codes, Dict, ℤ, pos}

-- `DHCPConfig`
pub record DhcpConfig : Type 0 where
  pub enabled : Bool
  pub range_start : Text
  pub range_end : Text
  pub lease_duration : Text
  pub dns : List Text
  pub reservations : Dict Text
  pub pxe_boot_server : Text
  pub pxe_boot_file : Text

pub record WanConfig : Type 0 where
  pub interface : Text
  pub mode : Text

pub record LanConfig : Type 0 where
  pub bridge : Text
  pub interfaces : List Text
  pub address : Text
  pub dhcp : DhcpConfig

pub record VlanConfig : Type 0 where
  pub id : ℤ
  pub name : Text
  pub ports : List Text
  pub address : Text
  pub dhcp : DhcpConfig
  pub nat : Bool
  pub isolated : Bool

pub record NatConfig : Type 0 where
  pub enabled : Bool
  pub out_interface : Text

pub record WifiConfig : Type 0 where
  pub enabled : Bool
  pub interface : Text
  pub bridge : Text
  pub address : Text
  pub dhcp : DhcpConfig
  pub mac_map_file : Text
  pub default_vlan : ℤ
  pub ssid : Text
  pub passphrase : Text
  pub channel : ℤ
  pub hw_mode : Text
  pub ht_capab : Text
  pub country_code : Text
  pub wpa : ℤ

pub record MountConfig : Type 0 where
  pub enabled : Bool
  pub device : Text
  pub fs_type : Text
  pub target : Text
  pub options : Text

pub record SmbConfig : Type 0 where
  pub enabled : Bool
  pub bin_path : Text
  pub listen : Text
  pub share_name : Text
  pub share_path : Text
  pub user : Text
  pub password : Text
  pub use_portable_server : Bool

pub record PxeConfig : Type 0 where
  pub enabled : Bool
  pub listen : Text
  pub bind_interface : Text
  pub tftp_root : Text
  pub default_image : Text
  pub mac_images : Dict Text
  pub boot_file : Text
  pub legacy_boot_file : Text
  pub uefi_boot_file : Text
  pub ipxe_script : Text

pub record AdminApiConfig : Type 0 where
  pub listen : Text
  pub token : Text
  pub allow_unauthenticated_reload : Bool

pub record ServicesConfig : Type 0 where
  pub mount : MountConfig
  pub smb : SmbConfig
  pub pxe : PxeConfig
  pub extras_file : Text
  pub admin_api : AdminApiConfig

pub record Config : Type 0 where
  pub wan : WanConfig
  pub lan : LanConfig
  pub vlans : List VlanConfig
  pub nat : NatConfig
  pub wifi : WifiConfig
  pub services : ServicesConfig
  pub dns : List Text

-- `SMBUser`
pub record SmbUser : Type 0 where
  pub name : Text
  pub password : Text

pub record ExtrasConfig : Type 0 where
  pub reservations : Dict Text
  pub mac_images : Dict Text
  pub default_image : Text
  pub pxe_boot_file : Text
  pub legacy_boot_file : Text
  pub uefi_boot_file : Text
  pub ipxe_script : Text
  pub smb_users : List SmbUser
  pub vlan_addresses : List (ℤ × Text)
  pub dns : List Text

-- the zero value, `&config.ExtrasConfig{}`
abbrev pub empty_extras : ExtrasConfig
empty_extras = record {
  reservations = [];
  mac_images = [];
  default_image = [];
  pxe_boot_file = [];
  legacy_boot_file = [];
  uefi_boot_file = [];
  ipxe_script = [];
  smb_users = [];
  vlan_addresses = [];
  dns = [];
}

abbrev pub empty_dhcp : DhcpConfig
empty_dhcp = record {
  enabled = false;
  range_start = [];
  range_end = [];
  lease_duration = [];
  dns = [];
  reservations = [];
  pxe_boot_server = [];
  pxe_boot_file = [];
}

abbrev pub empty_wifi : WifiConfig
empty_wifi = record {
  enabled = false;
  interface = [];
  bridge = [];
  address = [];
  dhcp = empty_dhcp;
  mac_map_file = [];
  default_vlan = pos 0;
  ssid = [];
  passphrase = [];
  channel = pos 0;
  hw_mode = [];
  ht_capab = [];
  country_code = [];
  wpa = pos 0;
}

abbrev pub empty_pxe : PxeConfig
empty_pxe = record {
  enabled = false;
  listen = [];
  bind_interface = [];
  tftp_root = [];
  default_image = [];
  mac_images = [];
  boot_file = [];
  legacy_boot_file = [];
  uefi_boot_file = [];
  ipxe_script = [];
}

abbrev pub empty_services : ServicesConfig
empty_services = record {
  mount = record { enabled = false; device = []; fs_type = []; target = []; options = [] };
  smb = record {
    enabled = false;
    bin_path = [];
    listen = [];
    share_name = [];
    share_path = [];
    user = [];
    password = [];
    use_portable_server = false;
  };
  pxe = empty_pxe;
  extras_file = [];
  admin_api = record { listen = []; token = []; allow_unauthenticated_reload = false };
}

-- `Default`
abbrev pub default_config : Config
default_config = record {
  wan = record { interface = codes "wan"; mode = codes "dhcp" };
  lan = record {
    bridge = codes "br-lan";
    interfaces = codes "lan1" ∷ codes "lan2" ∷ codes "lan3" ∷ codes "lan4" ∷ [];
    address = codes "10.0.0.1/24";
    dhcp = record empty_dhcp {
      enabled = true;
      range_start = codes "10.0.0.100";
      range_end = codes "10.0.0.250";
      lease_duration = codes "12h";
    };
  };
  vlans = [];
  nat = record { enabled = true; out_interface = codes "wan" };
  wifi = empty_wifi;
  services = empty_services;
  dns = codes "1.1.1.1" ∷ codes "8.8.8.8" ∷ [];
}
