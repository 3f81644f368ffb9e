-- ===== src/Tests/Radios.antt =====
-- The start of an access point in routed mode, whose interface appears after half a second: the world is the time.
use gokrazy_router.Prelude.{
  ℕ, ◌+◌, ◌≡◌, refl, true, Option, none, some, [], ltb, if◌then◌else◌, length, codes, text_eq,
}
use gokrazy_router.Prelude.Action.{Action, Outcome, failed, done}
use gokrazy_router.Prelude.Poll.{Clock, poll}
use gokrazy_router.Prelude.Decimal.{print_int, print_nat, digits_onto}
use gokrazy_router.Config.{Config, default_config, empty_wifi}
use gokrazy_router.Nat.{Manager, masquerade, add_source}
use gokrazy_router.Startup
use gokrazy_router.Startup.Dhcp.{wifi_bridge}
use gokrazy_router.Startup.Masquerade.{nat_manager}
use gokrazy_router.Vlan.{Netlink, bridge_name}
use gokrazy_router.Wifi
use gokrazy_router.Wifi.{
  Ap, config_error, with_defaults, write_config, write_vlan_files, dynamic_vlan_lines,
  vlan_file_lines,
}
use gokrazy_router.Startup.AccessPoint.{
  Radio, wait_for_link, assign_ip, launch, start_ap, add_wifi_source, route_wifi, run_ap,
  start_access_point,
}
use gokrazy_router.Tests.Addresses.{parse_cidr, router_text}

abbrev finish : Action ℕ (Unit {0})
finish w = (done tt, w)

abbrev net : Netlink ℕ (Unit {0}) (Unit {0})
net = record {
  parse_addr = λ t. done tt;
  link_add_bridge = λ name. finish;
  link_by_name = λ name w. (if ltb w 500 then failed (codes "Link not found") else done tt, w);
  link_set_master = λ a b. finish;
  link_set_up = λ a. finish;
  addr_add = λ a b w. (failed (codes "file exists"), w);
  is_exist = λ e. text_eq e (codes "file exists");
}

abbrev clock : Clock ℕ
clock = record { now = λ w. w; sleep = λ n w. w + n }

abbrev radio : Radio ℕ (Unit {0}) (Unit {0})
radio = record {
  net = net;
  flush = λ batch w. (done tt, w + length batch);
  clock = clock;
  duration = λ n. codes "2m0s";
  write_file = λ path text. finish;
  mkdir_all = λ path. finish;
  stdout_pipe = finish;
  start_process = λ path args. finish;
  parse_cidr = parse_cidr;
  load_map = λ path. failed [];
}

abbrev config : Config
config = record default_config {
  wifi = record empty_wifi {
    enabled = true;
    address = router_text;
    ssid = codes "home";
    passphrase = codes "password";
  };
}

program : Unit {0}
unfolding poll print_int print_nat digits_onto masquerade add_source Startup.vlan_mode wifi_bridge
    bridge_name Wifi.new config_error with_defaults write_config write_vlan_files dynamic_vlan_lines
    vlan_file_lines Wifi.conf_lines wait_for_link assign_ip launch start_ap add_wifi_source
    route_wifi run_ap start_access_point text_eq
program = tt

abbrev manager : Option Manager
manager = some (nat_manager (codes "wan"))

abbrev end : Outcome (Option Ap) × ℕ
end = start_access_point radio config manager 0

abbrev point : Option Ap
point = elim end.0 [ done p ↦ p | failed e ↦ none ]

-- the rule is one message
start_run : end.1 ≡ 501
unfolding program
start_run = refl
