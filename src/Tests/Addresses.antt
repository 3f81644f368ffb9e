-- ===== src/Tests/Addresses.antt =====
-- The addresses of the tests, and texts that parse as them.
use gokrazy_router.Prelude.{
  ◌≡◌, refl, Option, none, some, [], ◌∷◌, arith, if◌then◌else◌, Text, codes, text_eq, lower,
  to_lower, replace_byte, trim_left, trim_space,
}
use gokrazy_router.Mac.{normalize_mac}
use gokrazy_router.Net.{Ip, IpNet, to4, ip_equal, inc_ip, ip_greater, subnet_contains}
use gokrazy_router.Net.Value.{IsIp4, value, value_from}
use gokrazy_router.Dhcp.State.{Cidr}

abbrev pub router_ip : Ip
router_ip = 10 ∷ 0 ∷ 0 ∷ 1 ∷ []

abbrev pub first_ip : Ip
first_ip = 10 ∷ 0 ∷ 0 ∷ 5 ∷ []

abbrev pub last_ip : Ip
last_ip = 10 ∷ 0 ∷ 0 ∷ 6 ∷ []

abbrev pub printer_ip : Ip
printer_ip = 10 ∷ 0 ∷ 0 ∷ 9 ∷ []

-- a parser that knows one address
abbrev pub printer_text : Text
printer_text = codes "10.0.0.9"

abbrev pub parse_ip : Text → Ip
parse_ip t = if text_eq t printer_text then printer_ip else []

abbrev pub network : IpNet
network = record { ip = 10 ∷ 0 ∷ 0 ∷ 0 ∷ []; mask = 255 ∷ 255 ∷ 255 ∷ 0 ∷ [] }

abbrev pub router_text : Text
router_text = codes "10.0.0.1/24"

abbrev pub parse_cidr : Text → Option Cidr
parse_cidr t =
    if text_eq t router_text then some (record { address = router_ip; network = network }) else none

pub router_ip-IsIp4 : IsIp4 router_ip
router_ip-IsIp4 = record {
  four = refl;
  bytes = (omega arith, (omega arith, (omega arith, (omega arith, tt))));
}

pub first_ip-IsIp4 : IsIp4 first_ip
first_ip-IsIp4 = record {
  four = refl;
  bytes = (omega arith, (omega arith, (omega arith, (omega arith, tt))));
}

pub last_ip-IsIp4 : IsIp4 last_ip
last_ip-IsIp4 = record {
  four = refl;
  bytes = (omega arith, (omega arith, (omega arith, (omega arith, tt))));
}

pub printer_ip-IsIp4 : IsIp4 printer_ip
printer_ip-IsIp4 = record {
  four = refl;
  bytes = (omega arith, (omega arith, (omega arith, (omega arith, tt))));
}

program : Unit {0}
unfolding normalize_mac to_lower replace_byte lower trim_space trim_left to4 ip_equal inc_ip
    ip_greater subnet_contains value value_from
program = tt

normalize_mac_run : normalize_mac (codes " AA-0b:0C ") ≡ codes "aa:0b:0c"
unfolding program
normalize_mac_run = refl
