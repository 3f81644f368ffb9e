-- ===== src/Tests/Tools.antt =====
-- `router-cli`: an edit of a file that is not there, and an export of two clients.
use gokrazy_router.Prelude.{
  ℕ, ◌≡◌, refl, ◌↔◌, true, none, some, [], ◌∷◌, codes, text_eq, lower, to_lower, replace_byte,
  is_space, trim_left, trim_space, lookup, insert, pos, int_lt,
}
use gokrazy_router.Mac.{normalize_mac}
use gokrazy_router.Config.Extras.{set_entry, set_reservation}
use gokrazy_router.Reload.Run.{not_exist}
use gokrazy_router.Macmap.{
  MapFile, ok, err, duplicate_mac, validate, validate_clients, out_of_range,
}
use gokrazy_router.Macmap.Lookup.{AreDistinct}
use gokrazy_router.Cli.{
  Command, set_reservation_command, saved, unchanged, run_command, run_extras, edit_file,
  load_extras, split_file, parse_subcommand,
}
use gokrazy_router.Cli.Report.{ClientInfo}
use gokrazy_router.Cli.Report
use gokrazy_router.Cli.Export.{
  exported_clients, exported_client, client_name, export_mac_map, export_mac_map-validate,
}
use gokrazy_router.Tests.Addresses.{printer_text}

abbrev command : Command
command = set_reservation_command (codes "AA-0B") printer_text

program : Unit {0}
unfolding run_command edit_file load_extras set_reservation set_entry normalize_mac to_lower lower
    replace_byte trim_space trim_left is_space lookup insert text_eq split_file parse_subcommand
    run_extras exported_clients exported_client client_name export_mac_map validate validate_clients
    out_of_range int_lt
program = tt

-- the file is made, and the second edit finds it as it is
edit_run :
    ((run_extras
        (codes "set-reservation" ∷ codes "AA-0B" ∷ printer_text ∷ [])
        true
        (λ p. not_exist)).1
      ≡ saved)
    × ((run_command command true (run_command command true not_exist).0).1 ≡ unchanged)
unfolding program
edit_run = (refl, refl)

abbrev phone : ClientInfo ℕ
phone = record {
  ip = codes "10.0.0.9";
  mac = codes "aa:0b";
  via = codes "L";
  connected = true;
  tx_bytes = 0;
  rx_bytes = 0;
  tx_pkts = 0;
  rx_pkts = 0;
  tx_rate = 0;
  rx_rate = 0;
  link_tx_rate = pos 0;
  link_rx_rate = pos 0;
  signal = pos 0;
  total_tx_bytes = 0;
  total_rx_bytes = 0;
  total_tx_pkts = 0;
  total_rx_pkts = 0;
  first_seen = [];
  last_seen = [];
}

abbrev status : Report.Status ℕ
status = record { summary = []; ports = []; clients = phone ∷ [] }

abbrev existing : MapFile
existing = record { default_vlan = pos 1; clients = [] }

export_mac_map-validate_example :
    ((validate (export_mac_map status none) ≡ ok tt)
      ↔ AreDistinct (exported_clients status.clients))
    × (validate (export_mac_map status (some existing)) ≡ ok tt)
export_mac_map-validate_example =
    export_mac_map-validate status existing (unfold program in refl) (unfold program in refl, tt)

-- the same device under two addresses: the exported file is refused when it is read
twice_run :
    validate (
      export_mac_map
        (record status { clients = phone ∷ record phone { ip = codes "10.0.0.10" } ∷ [] })
        none)
    ≡ err (duplicate_mac 1)
unfolding program
twice_run = refl
