-- ===== src/Status/Ports.antt =====
-- `getPortInfo` with the two readers of sysfs, and `GetStatus` in pkg/status/status.go.
pub mod Sysfs
use gokrazy_router.Prelude.{
  ℕ, ◌+◌, ◌/◌, Bool, false, Option, none, some, List, [], ◌∷◌, ◌++◌, map, if◌then◌else◌, Text,
  codes, text_eq, is_empty, trim_space, ℤ, pos, int_lt,
}
use gokrazy_router.Prelude.Action.{Outcome, failed, done}
use gokrazy_router.Prelude.Decimal.{atoi}
use gokrazy_router.Status.State.{Rule, Monitor, ClientInfo}
use gokrazy_router.Status.Sample.{client_infos}
use gokrazy_router.Status.Start.{Interfaces}

pub record Statistics : Type 0 where
  pub tx_bytes : ℕ
  pub rx_bytes : ℕ
  pub tx_packets : ℕ
  pub rx_packets : ℕ

-- what the code reads of `Attrs` of a link
pub record Attrs : Type 0 where
  pub hardware_addr : List ℕ
  pub flag_up : Bool
  pub oper_up : Bool
  pub statistics : Option Statistics

-- `netlink.LinkByName` with `Attrs`, `os.ReadFile`, and `String` of a hardware address
pub record System (World : Type 0) : Type 0 where
  pub link_attrs : World → Text → Outcome Attrs
  pub read_file : World → Text → Outcome Text
  pub hardware_string : List ℕ → Text

-- `PortInfo` but for the ports below it
pub record SubPort : Type 0 where
  pub name : Text
  pub mac : Text
  pub up : Bool
  pub carrier : Bool
  pub speed : ℤ
  pub duplex : Text
  pub tx_bytes : ℕ
  pub rx_bytes : ℕ
  pub tx_pkts : ℕ
  pub rx_pkts : ℕ

-- `PortInfo`; `GetStatus` gives the ports below one none below them
pub record PortInfo : Type 0 where
  pub port : SubPort
  pub sub : List SubPort

pub record SummaryInfo : Type 0 where
  pub name : Text
  pub tx_bytes : ℕ
  pub rx_bytes : ℕ
  pub tx_pkts : ℕ
  pub rx_pkts : ℕ

pub record Status : Type 0 where
  pub summary : List SummaryInfo
  pub ports : List PortInfo
  pub clients : List ClientInfo

abbrev pub no_statistics : Statistics
no_statistics = record { tx_bytes = 0; rx_bytes = 0; tx_packets = 0; rx_packets = 0 }

abbrev pub statistics_of : Attrs → Statistics
statistics_of attrs = elim attrs.statistics [ none ↦ no_statistics | some st ↦ st ]

-- the port of an interface that is not there
abbrev pub no_port : Text → SubPort
no_port name = record {
  name = name;
  mac = [];
  up = false;
  carrier = false;
  speed = pos 0;
  duplex = [];
  tx_bytes = 0;
  rx_bytes = 0;
  tx_pkts = 0;
  rx_pkts = 0;
}

-- the number of a file of sysfs
abbrev pub sysfs_int : Option ℤ → ℤ
sysfs_int none = pos 0
sysfs_int (some v) = if int_lt v (pos 0) then pos 0 else v

module _ {World : Type 0} (sys : System World) (w : World) where
  unfoldable pub read_sysfs_int : Text → ℤ
  read_sysfs_int path = elim (sys.read_file w path) [
    | failed e ↦ pos 0
    | done text ↦ sysfs_int (atoi (trim_space text))
  ]

  unfoldable pub read_sysfs_string : Text → Text
  read_sysfs_string path = elim (sys.read_file w path) [
    | failed e ↦ []
    | done text ↦ let s = trim_space text in if text_eq s (codes "unknown") then [] else s
  ]

  unfoldable pub get_port_info : Text → SubPort
  unfolding read_sysfs_int read_sysfs_string
  get_port_info name = elim (sys.link_attrs w name) [
    | failed e ↦ no_port name
    | done attrs ↦
        let stats = statistics_of attrs in
        record {
          name = name;
          mac =
              if is_empty attrs.hardware_addr then [] else sys.hardware_string attrs.hardware_addr;
          up = attrs.flag_up;
          carrier = attrs.oper_up;
          speed = read_sysfs_int (codes "/sys/class/net/" ++ name ++ codes "/speed");
          duplex = read_sysfs_string (codes "/sys/class/net/" ++ name ++ codes "/duplex");
          tx_bytes = stats.tx_bytes;
          rx_bytes = stats.rx_bytes;
          tx_pkts = stats.tx_packets;
          rx_pkts = stats.rx_packets;
        }
  ]

  abbrev pub summary_of : Text → SubPort → SummaryInfo
  summary_of name p = record {
    name = name;
    tx_bytes = p.tx_bytes;
    rx_bytes = p.rx_bytes;
    tx_pkts = p.tx_pkts;
    rx_pkts = p.rx_pkts;
  }

  -- `GetStatus`, which never fails, where an error of `GetRules` gives no rules
  unfoldable pub get_status : Interfaces → List Rule → List Rule → Monitor → Status
  unfolding get_port_info client_infos
  get_status ifaces rx_rules tx_rules m =
      let wan_port = get_port_info ifaces.wan_iface in
      let lan_port = record (get_port_info ifaces.lan_iface) { name = codes "lan" } in
      let wifi_port = record (get_port_info ifaces.wifi_iface) { name = codes "wifi" } in
      record {
        summary =
            summary_of (codes "wan") wan_port
            ∷ summary_of (codes "lan") lan_port
            ∷ summary_of (codes "wifi") wifi_port
            ∷ [];
        ports =
            record { port = wan_port; sub = [] }
            ∷ record { port = lan_port; sub = map get_port_info ifaces.lan_ports }
            ∷ record { port = wifi_port; sub = [] }
            ∷ [];
        clients = client_infos m rx_rules tx_rules;
      }
