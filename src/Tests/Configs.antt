-- ===== src/Tests/Configs.antt =====
-- A configuration with a LAN and one VLAN, and an extras file.
use gokrazy_router.Prelude.{
  ◌≡◌, refl, true, false, [], ◌∷◌, map, Text, codes, text_eq, lower, to_lower, replace_byte,
  trim_left, trim_space, lookup, insert, pos,
}
use gokrazy_router.Mac.{normalize_mac}
use gokrazy_router.Net.{to4, subnet_contains, mask_ip, mask_bytes, ip_equal}
use gokrazy_router.Config.{
  Config, VlanConfig, ExtrasConfig, empty_extras, default_config, empty_dhcp,
}
use gokrazy_router.Config.Apply.{apply_extras, in_subnet_of}
use gokrazy_router.Config.Apply.Scopes.{
  belongs, reserve_all, reservations_of, reservations-apply_extras,
}
use gokrazy_router.Tests.Addresses.{parse_ip, parse_cidr, printer_text, router_text}

abbrev printer : Text
printer = codes "aa:0b"

abbrev pub extras : ExtrasConfig
extras = record empty_extras {
  reservations = (codes "AA-0B", printer_text) ∷ [];
  mac_images = (codes "AA-0B", codes "memtest.efi") ∷ [];
  default_image = codes "ipxe.efi";
  pxe_boot_file = codes "snp.efi";
}

abbrev vlan : VlanConfig
vlan = record {
  id = pos 20;
  name = codes "iot";
  ports = [];
  nat = true;
  address = router_text;
  isolated = false;
  dhcp = empty_dhcp;
}

abbrev pub config : Config
config = record default_config { vlans = vlan ∷ [] }

program : Unit {0}
unfolding normalize_mac to_lower replace_byte lower trim_space trim_left lookup insert text_eq to4
    subnet_contains mask_ip mask_bytes ip_equal in_subnet_of
program = tt

-- the address is in the subnet of the VLAN
belongs_run : belongs parse_ip parse_cidr router_text printer_text ≡ true
unfolding program
belongs_run = refl

reservations-apply_extras_example :
    reservations_of parse_ip parse_cidr (apply_extras parse_ip parse_cidr extras config).vlans
    ≡ map
        (λ v. (reserve_all parse_ip parse_cidr extras.reservations v).dhcp.reservations)
        config.vlans
reservations-apply_extras_example = reservations-apply_extras parse_ip parse_cidr extras config
