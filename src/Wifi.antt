-- ===== src/Wifi.antt =====
-- pkg/wifi/wifi.go: the access point. hostapd, the files and the regular expressions are parameters.
pub mod Clients
pub mod Backoff
pub mod Control
pub mod Stations
use gokrazy_router.Prelude.{
  ◌+◌, ◌-◌, ◌/◌, ap, Bool, true, false, not, ◌||◌, Option, none, some, List, [], ◌∷◌, ◌++◌, map,
  ltb, if◌then◌else◌, length, Text, codes, is_empty, to_lower, Dict, insert, ℤ, pos, int_eq,
}
use gokrazy_router.Prelude.Action.{Action, Outcome, failed, done, wrap, and_then, ◌>>=◌, return}
use gokrazy_router.Prelude.Decimal.{print_int}
use gokrazy_router.Prelude.Template.{Line, fixed, render_lines}
use gokrazy_router.Config.{WifiConfig}
use gokrazy_router.Macmap.{MapFile, vlans, hostapd_accept_mac_file}

-- `ClientEvent`
pub record ClientEvent : Type 0 where
  pub mac : Text
  pub associated : Bool

-- `AP`
pub record Ap : Type 0 where
  pub cfg : WifiConfig
  pub bridge : Text
  pub mac_map : Option MapFile
  pub clients : Dict Bool

abbrev or_default : Text → Text → Text
or_default t d = if is_empty t then d else t

abbrev or_number : ℤ → ℤ → ℤ
or_number n d = if int_eq n (pos 0) then d else n

-- the checks of `New`
unfoldable pub config_error : WifiConfig → Option Text
config_error cfg =
    if is_empty cfg.ssid
    then some (codes "wifi: SSID must not be empty")
    else if is_empty cfg.passphrase
    then some (codes "wifi: passphrase must not be empty")
    else if ltb (length cfg.passphrase) 8 || ltb 63 (length cfg.passphrase)
    then some (codes "wifi: WPA2 passphrase must be 8-63 characters")
    else none

unfoldable pub with_defaults : WifiConfig → WifiConfig
with_defaults cfg = record cfg {
  interface = or_default cfg.interface (codes "wlan0");
  hw_mode = or_default cfg.hw_mode (codes "g");
  channel = or_number cfg.channel (pos 6);
  wpa = or_number cfg.wpa (pos 2);
}

abbrev ap_of : WifiConfig → Text → Option MapFile → Ap
ap_of cfg bridge mm = record {
  cfg = with_defaults cfg;
  bridge = bridge;
  mac_map = mm;
  clients = [];
}

-- `New`, where `load` is `macmap.Load`
unfoldable pub new : (Text → Outcome MapFile) → WifiConfig → Text → Outcome Ap
unfolding config_error with_defaults
new load cfg bridge = elim (config_error cfg) [
  | some e ↦ failed e
  | none ↦
      if is_empty cfg.mac_map_file
      then done (ap_of cfg bridge none)
      else elim (load cfg.mac_map_file) [
        | failed e ↦ failed (codes "wifi: load mac map: " ++ e)
        | done mm ↦ done (ap_of cfg bridge (some mm))
      ]
]

-- the lines of `writeVLANFile`
unfoldable pub vlan_file_lines : Text → List ℤ → Text
vlan_file_lines iface [] = []
vlan_file_lines iface (vid ∷ vids) =
    let rest = vlan_file_lines iface vids in
    if int_eq vid (pos 0)
    then rest
    else print_int vid ++ b' ' ∷ (iface ++ b'.' ∷ (print_int vid ++ 10 ∷ rest))

abbrev when : Bool → List Line → List Line
when b lines = if b then lines else []

-- the part of `confTemplate` for dynamic VLANs
unfoldable pub dynamic_vlan_lines : Bool → List Line
dynamic_vlan_lines dynamic = when dynamic (
    fixed ""
    ∷ fixed "# Dynamic VLAN assignment based on MAC address"
    ∷ fixed "dynamic_vlan=1"
    ∷ (codes "vlan_file=", codes "/tmp/hostapd.vlan")
    ∷ (codes "accept_mac_file=", codes "/tmp/hostapd.accept")
    ∷ (codes "vlan_bridge=", codes "br-vlan")
    ∷ [])

-- `confTemplate`
unfoldable pub conf_lines : WifiConfig → Text → Bool → List Line
unfolding dynamic_vlan_lines
conf_lines cfg bridge dynamic =
    let head : List Line =
      fixed "# Generated by gokrazy-router" ∷ (codes "interface=", cfg.interface) ∷ [] in
    let radio : List Line =
      fixed "driver=nl80211"
      ∷ (codes "ctrl_interface=", codes "/tmp/hostapd")
      ∷ (codes "ssid=", cfg.ssid)
      ∷ (codes "hw_mode=", cfg.hw_mode)
      ∷ (codes "channel=", print_int cfg.channel)
      ∷ [] in
    let country : List Line =
      (codes "country_code=", cfg.country_code) ∷ fixed "ieee80211d=1" ∷ [] in
    let security : List Line =
      fixed "wmm_enabled=1"
      ∷ fixed ""
      ∷ fixed "# WPA2-PSK"
      ∷ (codes "wpa=", print_int cfg.wpa)
      ∷ (codes "wpa_passphrase=", cfg.passphrase)
      ∷ fixed "wpa_key_mgmt=WPA-PSK"
      ∷ fixed "rsn_pairwise=CCMP"
      ∷ [] in
    let logging : List Line =
      fixed ""
      ∷ fixed "# Logging: enable all module messages to stdout"
      ∷ fixed "logger_stdout=-1"
      ∷ fixed "logger_stdout_level=2"
      ∷ [] in
    let with_bridge = when (not (is_empty bridge)) ((codes "bridge=", bridge) ∷ []) in
    let with_country = when (not (is_empty cfg.country_code)) country in
    let with_ht = when (not (is_empty cfg.ht_capab)) ((codes "ht_capab=", cfg.ht_capab) ∷ []) in
    head
    ++ (with_bridge
        ++ (radio
            ++ (with_country
                ++ (fixed "ieee80211n=1"
                    ∷ (with_ht ++ (security ++ (dynamic_vlan_lines dynamic ++ logging)))))))

module _ {World : Type 0} (write_file : Text → Text → Action World (Unit {0})) where
  -- the files for dynamic VLANs, where there is a map
  unfoldable pub write_vlan_files : Text → Option MapFile → Action World (Unit {0})
  unfolding vlan_file_lines
  write_vlan_files iface none = return tt
  write_vlan_files iface (some mm) = do
    _ ← (λ w.
        wrap (codes "wifi: write vlan file")
          (write_file (codes "/tmp/hostapd.vlan") (vlan_file_lines iface (vlans mm)) w))
    (λ w.
        wrap (codes "wifi: write accept mac file")
          (write_file (codes "/tmp/hostapd.accept") (hostapd_accept_mac_file mm) w))

  -- `writeConfig`
  unfoldable pub write_config : Ap → Action World (Unit {0})
  unfolding write_vlan_files conf_lines
  write_config ap = do
    _ ← write_vlan_files ap.cfg.interface ap.mac_map
    let dynamic : Bool = elim ap.mac_map [ none ↦ false | some _ ↦ true ]
    (λ w. wrap (codes "wifi: write config") (
        write_file (codes "/tmp/hostapd.conf") (render_lines (conf_lines ap.cfg ap.bridge dynamic))
          w))

-- the regular expressions, each with the address that it finds in a line
pub record Patterns : Type 0 where
  pub connected : Text → Option Text
  pub disconnected : Text → Option Text
  pub associated : Text → Option Text
  pub disassociated : Text → Option Text

abbrev event : Bool → Text → ClientEvent
event up mac = record { mac = to_lower mac; associated = up }

-- the events of a line, in `parseOutput`
unfoldable pub line_events : Patterns → Text → List ClientEvent
line_events re line =
    let first : List ClientEvent = elim (re.connected line) [
      | some m ↦ event true m ∷ []
      | none ↦ elim (re.disconnected line) [
        | some m ↦ event false m ∷ []
        | none ↦ elim (re.associated line) [
          | none ↦ []
          | some m ↦ elim (re.disassociated line) [ some _ ↦ [] | none ↦ event true m ∷ [] ]
        ]
      ]
    ] in
    first ++ (elim (re.disassociated line) [ none ↦ [] | some m ↦ event false m ∷ [] ])

-- `handleEvent`, without the callback
unfoldable pub handle_event : ClientEvent → Ap → Ap
handle_event ev ap = record ap { clients = insert ev.mac ev.associated ap.clients }

unfoldable pub handle_events : List ClientEvent → Ap → Ap
unfolding handle_event
handle_events [] ap = ap
handle_events (ev ∷ evs) ap = handle_events evs (handle_event ev ap)

unfoldable pub parse_output : Patterns → List Text → Ap → Ap
unfolding line_events handle_events
parse_output re [] ap = ap
parse_output re (line ∷ lines) ap = parse_output re lines (handle_events (line_events re line) ap)

-- `Clients`
unfoldable pub clients_of : Dict Bool → List Text
clients_of [] = []
clients_of ((mac, up) ∷ rest) = let others = clients_of rest in if up then mac ∷ others else others
