-- ===== src/Cli/Report.antt =====
-- cmd/router-cli/main.go, the `status` subcommand: what it prints of the status API. Numbers of floating
-- point and their printing are parameters; a row goes through a tab writer.
use gokrazy_router.Prelude.{
  ℕ, ◌^◌, Bool, true, false, ◌&&◌, ◌||◌, List, [], ◌∷◌, ◌++◌, map, leb, if◌then◌else◌, Text, codes,
  text_eq, is_empty, ℤ, pos, int_eq, int_lt,
}
use gokrazy_router.Prelude.Decimal.{print_nat, print_int}

pub record SubPort : Type 0 where
  pub name : Text
  pub mac : Text
  pub up : Bool
  pub carrier : Bool
  pub speed : ℤ
  pub duplex : Text
  pub tx_bytes : ℕ
  pub rx_bytes : ℕ
  pub tx_pkts : ℕ
  pub rx_pkts : ℕ

-- `PortInfo`, whose ports below it have none below them
pub record PortInfo : Type 0 where
  pub port : SubPort
  pub sub : List SubPort

-- `ClientInfo`
pub record ClientInfo (Rate : Type 0) : Type 0 where
  pub ip : Text
  pub mac : Text
  pub via : Text
  pub connected : Bool
  pub tx_bytes : ℕ
  pub rx_bytes : ℕ
  pub tx_pkts : ℕ
  pub rx_pkts : ℕ
  pub tx_rate : Rate
  pub rx_rate : Rate
  pub link_tx_rate : ℤ
  pub link_rx_rate : ℤ
  pub signal : ℤ
  pub total_tx_bytes : ℕ
  pub total_rx_bytes : ℕ
  pub total_tx_pkts : ℕ
  pub total_rx_pkts : ℕ
  pub first_seen : Text
  pub last_seen : Text

-- `SummaryInfo`
pub record SummaryInfo : Type 0 where
  pub name : Text
  pub tx_bytes : ℕ
  pub rx_bytes : ℕ
  pub tx_pkts : ℕ
  pub rx_pkts : ℕ

-- `Status`
pub record Status (Rate : Type 0) : Type 0 where
  pub summary : List SummaryInfo
  pub ports : List PortInfo
  pub clients : List (ClientInfo Rate)

-- comparison and printing of floating-point numbers
pub record Floats (Rate : Type 0) : Type 0 where
  pub below_one : Rate → Bool
  pub at_least : Rate → ℕ → Bool
  -- `%.1f` of a quotient, and `%.0f`
  pub quotient : ℕ → ℕ → Text
  pub rate_quotient : Rate → ℕ → Text
  pub rate_whole : Rate → Text
  -- thousandths of an integer
  pub thousandth : ℤ → Text
  pub same_thousandth : ℤ → ℤ → Bool

pub data Line : Type 0 where
  text : Text → Line
  row : List Text → Line

unfoldable pub format_speed : ℤ → Text → Text
format_speed speed duplex =
    let s = print_int speed ++ codes " Mbps" in
    if int_lt speed (pos 1)
    then codes "-"
    else if is_empty duplex
    then s
    else s ++ codes "/" ++ duplex

unfoldable pub format_signal : ℤ → Text
format_signal dbm = if int_eq dbm (pos 0) then codes "-" else print_int dbm ++ codes " dBm"

module _ {Rate : Type 0} (floats : Floats Rate) where
  unfoldable pub human_bytes : ℕ → Text
  human_bytes b =
      if leb (2 ^ 30) b
      then floats.quotient b (2 ^ 30) ++ codes " GiB"
      else if leb (2 ^ 20) b
      then floats.quotient b (2 ^ 20) ++ codes " MiB"
      else if leb (2 ^ 10) b
      then floats.quotient b (2 ^ 10) ++ codes " KiB"
      else print_nat b ++ codes " B"

  unfoldable pub human_rate : Rate → Text
  human_rate r =
      if floats.below_one r
      then codes "0 B/s"
      else if floats.at_least r (2 ^ 30)
      then floats.rate_quotient r (2 ^ 30) ++ codes " GiB/s"
      else if floats.at_least r (2 ^ 20)
      then floats.rate_quotient r (2 ^ 20) ++ codes " MiB/s"
      else if floats.at_least r (2 ^ 10)
      then floats.rate_quotient r (2 ^ 10) ++ codes " KiB/s"
      else floats.rate_whole r ++ codes " B/s"

  unfoldable pub format_link_rate : ℤ → ℤ → Text
  format_link_rate tx rx =
      if int_lt tx (pos 1) && int_lt rx (pos 1)
      then codes "-"
      else if floats.same_thousandth tx rx
      then floats.thousandth tx ++ codes " Mbps"
      else floats.thousandth tx ++ codes "/" ++ floats.thousandth rx ++ codes " Mbps"

  abbrev port_row : SubPort → Line
  port_row p = row (
      p.name
      ∷ p.mac
      ∷ format_speed p.speed p.duplex
      ∷ human_bytes p.rx_bytes
      ∷ human_bytes p.tx_bytes
      ∷ print_nat p.rx_pkts
      ∷ print_nat p.tx_pkts
      ∷ [])

  unfoldable pub port_rows : List PortInfo → List Line
  unfolding human_bytes format_speed
  port_rows [] = []
  port_rows (p ∷ ps) =
      (if is_empty p.sub then port_row p.port ∷ [] else map port_row p.sub) ++ port_rows ps

  -- the loop that parts the clients, in their order
  unfoldable pub connected_of : Bool → List (ClientInfo Rate) → List (ClientInfo Rate)
  connected_of up [] = []
  connected_of up (c ∷ cs) =
      let rest = connected_of up cs in
      if c.connected then (if up then c ∷ rest else rest) else if up then rest else c ∷ rest

  abbrev via_of : ClientInfo Rate → Text
  via_of c = if is_empty c.via then codes "?" else c.via

  unfoldable pub connected_row : ClientInfo Rate → Line
  unfolding human_bytes human_rate format_link_rate format_signal
  connected_row c = row (
      via_of c
      ∷ c.ip
      ∷ c.mac
      ∷ human_rate c.rx_rate
      ∷ human_rate c.tx_rate
      ∷ format_link_rate c.link_tx_rate c.link_rx_rate
      ∷ format_signal c.signal
      ∷ human_bytes c.rx_bytes
      ∷ human_bytes c.tx_bytes
      ∷ human_bytes c.total_rx_bytes
      ∷ human_bytes c.total_tx_bytes
      ∷ [])

  unfoldable pub disconnected_row : ClientInfo Rate → Line
  unfolding human_bytes
  disconnected_row c = row (
      via_of c
      ∷ c.ip
      ∷ c.mac
      ∷ human_bytes c.total_rx_bytes
      ∷ human_bytes c.total_tx_bytes
      ∷ c.last_seen
      ∷ [])

  -- some connected client came in through the WiFi scope
  unfoldable pub has_wifi : List (ClientInfo Rate) → Bool
  has_wifi [] = false
  has_wifi (c ∷ cs) = text_eq c.via (codes "W") || has_wifi cs

  abbrev wifi_note : List Line
  wifi_note =
      text []
      ∷ text (codes "NOTE: WiFi is in routed mode (separate subnet). LAN and WiFi")
      -- the dash is three bytes
      ∷ text (
          codes "      clients can reach each other "
          ++ 226 ∷ 128 ∷ 148 ∷ codes " no inter-subnet firewall")
      ∷ text (codes "      rules are configured.")
      ∷ []

  unfoldable pub connected_section : List (ClientInfo Rate) → List Line
  unfolding connected_row has_wifi
  connected_section connected =
      text []
      ∷ text (codes "CONNECTED CLIENTS")
      ∷ (if is_empty connected
          then text (codes "  (none)") ∷ []
          else row (
              map codes (
                "VIA" ∷ "IP" ∷ "MAC" ∷ "UL RATE" ∷ "DL RATE" ∷ "LINK" ∷ "SIGNAL" ∷ "UL" ∷ "DL"
                ∷ "TOTAL UL" ∷ "TOTAL DL" ∷ []))
            ∷ (map connected_row connected ++ (if has_wifi connected then wifi_note else [])))

  unfoldable pub disconnected_section : List (ClientInfo Rate) → List Line
  unfolding disconnected_row
  disconnected_section gone =
      if is_empty gone
      then []
      else text []
        ∷ text (codes "DISCONNECTED CLIENTS (historical)")
        ∷ row (map codes ("VIA" ∷ "IP" ∷ "MAC" ∷ "TOTAL UL" ∷ "TOTAL DL" ∷ "LAST SEEN" ∷ []))
        ∷ map disconnected_row gone

  -- what `runStatus` prints
  unfoldable pub report : Status Rate → List Line
  unfolding port_rows connected_of connected_section disconnected_section
  report s =
      row (map codes ("IFACE" ∷ "MAC" ∷ "SPEED" ∷ "RX" ∷ "TX" ∷ "RX PKTS" ∷ "TX PKTS" ∷ []))
      ∷ (port_rows s.ports
          ++ (if is_empty s.clients
              then text [] ∷ text (codes "No clients connected.") ∷ []
              else connected_section (connected_of true s.clients)
                ++ disconnected_section (connected_of false s.clients)))
