-- ===== src/Tests/Monitors.antt =====
-- A monitor from its start on, to which a client and the router itself are announced, and the ports of its status.
use gokrazy_router.Prelude.{
  ℕ, ◌≡◌, refl, true, false, none, some, List, [], ◌∷◌, ◌++◌, map, arith, if◌then◌else◌, Text,
  codes, text_eq, has_prefix, lookup, insert, pos,
}
use gokrazy_router.Prelude.Action.{failed, done}
use gokrazy_router.Prelude.Decimal.{print_nat, digits_onto}
use gokrazy_router.Net.{Ip, to4}
use gokrazy_router.Status.State.{ClientEntry, Monitor}
use gokrazy_router.Status.Track.{add_client}
use gokrazy_router.Status.Start.{Links, Interfaces, add_addresses, gateway_addresses, new}
use gokrazy_router.Status.Ports.{
  System, Attrs, read_sysfs_int, read_sysfs_string, get_port_info, get_status,
}
use gokrazy_router.Status.Ports.Sysfs.{rows, get_status-rows}
use gokrazy_router.Status.Run.{
  Sampler, sampler_of, Event, client_added, loop_left, source_set, stop_called, step, run,
  leave_loop, stop, set_wifi_source,
}
use gokrazy_router.Status.Run.Gateways.{is_own, new-run-gateways}
use gokrazy_router.Tests.Addresses.{first_ip, router_ip}

-- the world is nothing, and a link its name; the texts of the addresses are their bytes
abbrev links : Links (Unit {0}) Text
links = record {
  link_by_name = λ w name. done name;
  addr_list = λ w link.
      if text_eq link (codes "br-lan")
      then done (router_ip ∷ [])
      else failed (codes "no such device");
  flush = λ batch w. (done tt, w);
  ip_string = λ ip. ip;
}

abbrev interfaces : Interfaces
interfaces = record {
  wan_iface = codes "wan";
  lan_iface = codes "br-lan";
  lan_ports = codes "lan1" ∷ [];
  wifi_iface = codes "wlan0";
}

abbrev monitor : Monitor
monitor = record {
  clients = [];
  gateway_ips = (router_ip, true) ∷ [];
  prev_snapshot = [];
  rates = [];
  wifi_stations = [];
}

abbrev events : List Event
events =
    client_added 10 true first_ip (codes "aa:aa") (codes "L")
    ∷ source_set
    ∷ stop_called
    ∷ client_added 11 true router_ip (codes "bb:bb") (codes "L")
    ∷ loop_left
    ∷ []

abbrev end : Sampler
end = run links.ip_string events (sampler_of monitor)

abbrev entry_of : Ip → Text → Text → ℕ → ClientEntry
entry_of ip mac via now = record {
  mac = mac;
  ip = ip;
  via = via;
  connected = true;
  first_seen = now;
  last_seen = now;
  hist_tx_bytes = 0;
  hist_rx_bytes = 0;
  hist_tx_pkts = 0;
  hist_rx_pkts = 0;
}

program : Unit {0}
unfolding to4 text_eq lookup insert add_client add_addresses gateway_addresses new step run
    leave_loop stop set_wifi_source read_sysfs_int read_sysfs_string get_port_info get_status
    print_nat digits_onto
program = tt

new_run :
    new links (codes "wan") (codes "br-lan") (codes "lan1" ∷ []) (codes "wlan0") tt
    ≡ (done (interfaces, monitor), tt)
unfolding program
new_run = refl

router_found :
    lookup router_ip end.monitor.clients ≡ some (entry_of router_ip (codes "bb:bb") (codes "G") 11)
unfolding program
router_found = refl

loop_run : end.sampling ≡ false
unfolding program
loop_run = refl

plain : text_eq (codes "L") (codes "G") ≡ false
unfolding text_eq
plain = refl

new-run-gateways_example :
    text_eq (codes "G") (codes "G")
    ≡ is_own links tt (codes "br-lan" ∷ codes "wlan0" ∷ codes "wan" ∷ []) router_ip
new-run-gateways_example =
    new-run-gateways links (codes "wan") (codes "br-lan") (codes "lan1" ∷ []) (codes "wlan0") tt tt
      interfaces monitor new_run events (plain, (tt, (tt, (plain, (tt, tt))))) router_ip
      (entry_of router_ip (codes "bb:bb") (codes "G") 11) router_found

abbrev attrs : Attrs
attrs = record { hardware_addr = []; flag_up = true; oper_up = true; statistics = none }

abbrev speeds : Text → ℕ
speeds name = if text_eq name (codes "wan") then 2500 else 1000

abbrev system : System (Unit {0})
system = record {
  link_attrs = λ w name. done attrs;
  read_file = λ w path.
      done (
        print_nat (if has_prefix (codes "/sys/class/net/wan/") path then 2500 else 1000)
        ++ 10 ∷ []);
  hardware_string = λ a. a;
}

get_status-rows_example :
    map (rows system tt) (get_status system tt interfaces [] [] monitor).ports
    ≡ ((codes "wan", pos (speeds (codes "wan"))), [])
      ∷ (
        (codes "lan", pos (speeds (codes "br-lan"))),
        map (λ name. (name, pos (speeds name))) (codes "lan1" ∷ []),
      )
      ∷ ((codes "wifi", pos (speeds (codes "wlan0"))), [])
      ∷ []
unfolding program has_prefix
get_status-rows_example =
    get_status-rows system tt speeds interfaces [] [] monitor ((attrs, refl), omega arith, refl)
      ((attrs, refl), omega arith, refl) ((attrs, refl), omega arith, refl)
      (((attrs, refl), omega arith, refl), tt)
