-- ===== src/Status/Track.antt =====
-- `AddClient`, `RemoveClient`, `RemoveClientByMAC` and `readAndDeleteRules` of pkg/status/status.go. An
-- operation returns the monitor after it, the rules it adds and deletes, and whether the flush, which
-- is told, leaves it without an error. `ip_string` is the `String` of an IPv4 address.
use gokrazy_router.Prelude.{
  ℕ, Bool, true, false, not, ◌&&◌, Option, none, some, List, [], ◌∷◌, ◌++◌, if◌then◌else◌, Text,
  codes, text_eq, is_empty, Dict, lookup, insert, lookup_or,
}
use gokrazy_router.Net.{Ip, to4}
use gokrazy_router.Status.State.{
  Counter, Rule, chain_rx, chain_tx, Command, add_rule, del_rule, ClientEntry, Monitor, add64,
}

-- the sum over the expressions of a rule
unfoldable pub add_counters : Counter → List Counter → Counter
add_counters sum [] = sum
add_counters sum (c ∷ cs) =
    add_counters (record { bytes = add64 sum.bytes c.bytes; packets = add64 sum.packets c.packets })
      cs

-- the loop of `readAndDeleteRules`
unfoldable pub read_and_delete : Text → Counter → List Rule → Counter × List Command
read_and_delete tag sum [] = (sum, [])
read_and_delete tag sum (r ∷ rs) =
    let skipped = read_and_delete tag sum rs in
    let (total, commands) = read_and_delete tag (add_counters sum r.counters) rs in
    if not (text_eq r.user_data tag) then skipped else (total, del_rule r ∷ commands)

-- `none` is an error of `GetRules`
unfoldable pub read_and_delete_rules : Option (List Rule) → Text → Counter × List Command
read_and_delete_rules none tag = (record { bytes = 0; packets = 0 }, [])
read_and_delete_rules (some rules) tag =
    read_and_delete tag (record { bytes = 0; packets = 0 }) rules

module _ (ip_string : Ip → Text) where
  abbrev pub gateway_via : Monitor → Text → Text → Text
  gateway_via m key via = if lookup_or key false m.gateway_ips then codes "G" else via

  abbrev pub new_entry : ℕ → Ip → Text → Text → ClientEntry
  new_entry now ip mac via = record {
    mac = mac;
    ip = to4 ip;
    via = via;
    connected = true;
    first_seen = now;
    last_seen = now;
    hist_tx_bytes = 0;
    hist_rx_bytes = 0;
    hist_tx_pkts = 0;
    hist_rx_pkts = 0;
  }

  -- the rules for a client that (re)connects
  abbrev pub counter_rules : Text → Ip → List Command
  counter_rules key ip =
      add_rule chain_rx (key ++ codes "/rx") (to4 ip)
      ∷ add_rule chain_tx (key ++ codes "/tx") (to4 ip)
      ∷ []

  unfoldable pub add_client : ℕ → Bool → Ip → Text → Text → Monitor → Monitor × List Command × Bool
  add_client now flush_ok ip mac via m =
      let key = ip_string (to4 ip) in
      let via' = gateway_via m key via in
      elim (lookup key m.clients) [
        | none ↦ (
          record m { clients = insert key (new_entry now ip mac via') m.clients },
          counter_rules key ip,
          flush_ok,
        )
        | some entry ↦ if entry.connected then (m, [], true) else (
          record m {
            clients =
                insert key
                  (record entry { connected = true; last_seen = now; mac = mac; via = via' })
                  m.clients;
          },
          counter_rules key ip,
          flush_ok,
        )
      ]

  -- the accumulation of a session into the history of a client
  abbrev pub disconnected : ℕ → Counter → Counter → ClientEntry → ClientEntry
  disconnected now rx tx entry = record entry {
    hist_rx_bytes = add64 entry.hist_rx_bytes rx.bytes;
    hist_rx_pkts = add64 entry.hist_rx_pkts rx.packets;
    hist_tx_bytes = add64 entry.hist_tx_bytes tx.bytes;
    hist_tx_pkts = add64 entry.hist_tx_pkts tx.packets;
    connected = false;
    last_seen = now;
  }

  unfoldable pub remove_client :
      ℕ
      → Bool
      → Option (List Rule)
      → Option (List Rule)
      → Ip
      → Monitor
      → Monitor × List Command × Bool
  remove_client now flush_ok rx_rules tx_rules ip m =
      let key = ip_string (to4 ip) in
      let (rx, rx_commands) = read_and_delete_rules rx_rules (key ++ codes "/rx") in
      let (tx, tx_commands) = read_and_delete_rules tx_rules (key ++ codes "/tx") in
      elim (lookup key m.clients) [
        | none ↦ (m, [], true)
        | some entry ↦ if not entry.connected then (m, [], true) else (
          record m { clients = insert key (disconnected now rx tx entry) m.clients },
          rx_commands ++ tx_commands,
          flush_ok,
        )
      ]

  -- the loop of `RemoveClientByMAC`
  unfoldable pub find_connected : Text → Dict ClientEntry → Option Ip
  find_connected mac [] = none
  find_connected mac ((key, entry) ∷ m) =
      if text_eq entry.mac mac && entry.connected then some entry.ip else find_connected mac m

  unfoldable pub remove_client_by_mac :
      ℕ
      → Bool
      → Option (List Rule)
      → Option (List Rule)
      → Text
      → Monitor
      → Monitor × List Command × Bool
  remove_client_by_mac now flush_ok rx_rules tx_rules mac m = elim (find_connected mac m.clients) [
    | none ↦ (m, [], true)
    | some ip ↦
        if is_empty ip then (m, [], true) else remove_client now flush_ok rx_rules tx_rules ip m
  ]
