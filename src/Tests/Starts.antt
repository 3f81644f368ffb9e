-- ===== src/Tests/Starts.antt =====
-- The DHCP servers of a configuration with one VLAN.
use gokrazy_router.Prelude.{
  ℕ, ◌≡◌, refl, true, false, none, List, [], ◌∷◌, arith, length, codes, text_eq, pos,
}
use gokrazy_router.Net.{to4}
use gokrazy_router.Net.Value.{value, value_from}
use gokrazy_router.Config.{Config, DhcpConfig, VlanConfig, default_config, empty_dhcp}
use gokrazy_router.Dhcp.State.{new, parse_dns, Result, ok, err}
use gokrazy_router.Reload.Run.{DhcpEntry, clone_config}
use gokrazy_router.Startup.{default_dns, default_paths, vlan_mode}
use gokrazy_router.Startup.Dhcp.{
  Host, start_dhcp, start_vlans, start_wifi, start_scope, wifi_bridge,
}
use gokrazy_router.Startup.Dhcp.Entries.{HasRange, Entries, start_dhcp-Entries}
use gokrazy_router.Tests.Addresses.{parse_ip, parse_cidr, printer_text, router_text}
use gokrazy_router.Tests.Leases.{parses}

abbrev host : Host
host = record {
  parse_ip = parse_ip;
  parse_cidr = parse_cidr;
  print_ip = λ ip. printer_text;
  parse_duration = λ t. none;
  twelve_hours = 43200;
  monitored = true;
}

abbrev scope : DhcpConfig
scope = record empty_dhcp { enabled = true; range_start = printer_text; range_end = printer_text }

abbrev vlan : VlanConfig
vlan = record {
  id = pos 20;
  name = codes "iot";
  ports = [];
  address = router_text;
  dhcp = scope;
  nat = true;
  isolated = false;
}

abbrev config : Config
config = record default_config { vlans = vlan ∷ [] }

program : Unit {0}
unfolding to4 value value_from text_eq start_dhcp start_vlans start_wifi start_scope new parse_dns
    default_dns clone_config default_paths vlan_mode wifi_bridge
program = tt

one_range : HasRange parse_ip scope
unfolding program
one_range = (omega arith, omega arith)

no_range : HasRange parse_ip empty_dhcp
unfolding program
no_range = (omega arith, omega arith)

lan_range : HasRange parse_ip config.lan.dhcp
unfolding program
lan_range = (omega arith, omega arith)

start_dhcp-Entries_example : Entries (start_dhcp host config false (clone_config config))
start_dhcp-Entries_example =
    start_dhcp-Entries host parses config false (clone_config config) lan_range no_range
      (one_range, tt)

abbrev entry_count : Result (List DhcpEntry) → ℕ
entry_count (err e) = 0
entry_count (ok es) = length es

-- the start has one entry, for the VLAN
entry_run : entry_count (start_dhcp host config false (clone_config config)) ≡ 1
unfolding program
entry_run = refl

dns_run : (default_dns config).lan.dhcp.dns ≡ config.dns
unfolding program
dns_run = refl
