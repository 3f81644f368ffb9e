-- ===== src/Tests/Accounts.antt =====
-- A client that has been counted and disconnects.
use gokrazy_router.Prelude.{
  ◌≡◌, refl, true, false, some, [], ◌∷◌, ◌++◌, Text, codes, text_eq, lookup,
}
use gokrazy_router.Net.{Ip, to4}
use gokrazy_router.Status.State.{Counter, del_rule, ClientEntry, Monitor}
use gokrazy_router.Status.Sample.{client_info, live_counters}
use gokrazy_router.Status.Track.{add_client, remove_client}
use gokrazy_router.Status.Accounts.{history, add_client_lem}
use gokrazy_router.Status.Disconnect.{counting, remove_client_lem}
use gokrazy_router.Tests.Addresses.{first_ip}

-- the texts of the addresses: here their bytes
abbrev ip_string : Ip → Text
ip_string ip = ip

abbrev laptop : ClientEntry
laptop = record {
  mac = codes "aa:aa";
  ip = first_ip;
  via = codes "L";
  connected = true;
  first_seen = 10;
  last_seen = 10;
  hist_tx_bytes = 1000;
  hist_rx_bytes = 500;
  hist_tx_pkts = 10;
  hist_rx_pkts = 5;
}

abbrev monitor : Monitor
monitor = record {
  clients = (first_ip, laptop) ∷ [];
  gateway_ips = [];
  prev_snapshot = [];
  rates = [];
  wifi_stations = [];
}

abbrev sent : Counter
sent = record { bytes = 70; packets = 2 }

abbrev received : Counter
received = record { bytes = 900; packets = 3 }

add_client_lem_example :
    ((e : ClientEntry)
      → lookup (ip_string (to4 first_ip)) monitor.clients ≡ some e
      → e.connected ≡ true
      → add_client ip_string 20 true first_ip (codes "bb:bb") (codes "W") monitor
        ≡ (monitor, [], true))
    × (history first_ip
          (add_client ip_string 20 true first_ip (codes "bb:bb") (codes "W") monitor).0.clients
        ≡ history first_ip monitor.clients)
add_client_lem_example =
    add_client_lem ip_string 20 true first_ip (codes "bb:bb") (codes "W") first_ip monitor

remove_client_lem_example :
    let key = ip_string (to4 first_ip) in
    let rx_rule = counting key (codes "/rx") sent in
    let tx_rule = counting key (codes "/tx") received in
    let r =
      remove_client ip_string 30 true
        (some ([] ++ rx_rule ∷ []))
        (some ([] ++ tx_rule ∷ []))
        first_ip
        monitor in
    let was =
      client_info monitor
        (live_counters (codes "/rx") ([] ++ rx_rule ∷ []))
        (live_counters (codes "/tx") ([] ++ tx_rule ∷ []))
        key
        laptop in
    (r.1 ≡ del_rule rx_rule ∷ del_rule tx_rule ∷ [])
    × ((later : ClientEntry) × (lookup key r.0.clients ≡ some later)
        × (let now_is =
              client_info r.0
                (live_counters (codes "/rx") ([] ++ []))
                (live_counters (codes "/tx") ([] ++ []))
                key
                later in
            (now_is.total_rx_bytes ≡ was.total_rx_bytes)
            × (now_is.total_tx_bytes ≡ was.total_tx_bytes)
            × (now_is.total_rx_pkts ≡ was.total_rx_pkts)
            × (now_is.total_tx_pkts ≡ was.total_tx_pkts)
            × (now_is.mac ≡ laptop.mac)
            × (now_is.rx_bytes ≡ 0)
            × (now_is.connected ≡ false)))
remove_client_lem_example =
    remove_client_lem ip_string 30 first_ip monitor laptop sent received [] [] [] []
      (unfold to4 in refl) (unfold to4 lookup text_eq in refl) refl tt tt tt tt
