-- ===== src/Wifi/Stations.antt =====
-- `parseStationResponse` and `parseBitrate` of pkg/wifi/hostapd_ctrl.go: a reply of hostapd on a station. The
-- numbers of floating point are a parameter, and an index out of range is `none`.
pub mod Parsing
use gokrazy_router.Prelude.{
  ℕ, suc, ◌+◌, ◌-◌, ◌*◌, ◌/◌, ◌%◌, ◌^◌, Option, none, some, List, [], ◌∷◌, ltb, leb, ◌==◌,
  if◌then◌else◌, Text, codes, text_eq, trim_space, contains, ℤ, pos, negsuc,
}
use gokrazy_router.Prelude.Decimal.{read_digits, negated, atoi}
use gokrazy_router.Prelude.Space.{fields, trim_suffix}
use gokrazy_router.Prelude.Template.{split_lines}

-- `StationInfo`; the time is in nanoseconds
pub record Station : Type 0 where
  pub mac : Text
  pub signal : ℤ
  pub tx_bitrate : ℤ
  pub rx_bitrate : ℤ
  pub connected : ℤ

-- the number of a pattern of 64 bits
abbrev signed : ℕ → ℤ
signed w = if ltb w (2 ^ 63) then pos w else negsuc (2 ^ 64 - 1 - w)

-- a product of integers of 64 bits, which wraps around
unfoldable pub int_times : ℕ → ℤ → ℤ
int_times k (pos n) = signed ((k * n) % 2 ^ 64)
int_times k (negsuc n) = signed ((2 ^ 64 - (k * suc n) % 2 ^ 64) % 2 ^ 64)

-- the magnitude that `strconv.Atoi` returns: the limit where the numeral is above it, and 0 where the
-- text is none
abbrev bounded : ℕ → Text → ℕ
bounded limit [] = 0
bounded limit (c ∷ cs) = elim (read_digits 0 (c ∷ cs)) [
  | none ↦ 0
  | some n ↦ if leb n limit then n else limit
]

-- the first result of `strconv.Atoi`, where its error is not looked at
unfoldable pub atoi_value : Text → ℤ
unfolding read_digits
atoi_value [] = pos 0
atoi_value (c ∷ cs) =
    if c == b'-'
    then negated (bounded (2 ^ 63) cs)
    else if c == b'+'
    then pos (bounded (2 ^ 63 - 1) cs)
    else pos (bounded (2 ^ 63 - 1) (c ∷ cs))

-- a number in units of 100 Kbps
unfoldable pub plain_bitrate : Text → ℤ
unfolding atoi int_times
plain_bitrate t = elim (atoi t) [ none ↦ pos 0 | some v ↦ int_times 100 v ]

-- `strings.SplitN(line, "=", 2)`, where it has two parts
unfoldable pub cut_at : ℕ → Text → Option (Text × Text)
cut_at b [] = none
cut_at b (c ∷ cs) =
    let rest = cut_at b cs in
    if c == b then some ([], cs) else elim rest [ none ↦ none | some p ↦ some (c ∷ p.0, p.1) ]

abbrev pub first_line : Text → Text
first_line t = elim (split_lines t) [ [] ↦ [] | line ∷ lines ↦ line ]

abbrev pub other_lines : Text → List Text
other_lines t = elim (split_lines t) [ [] ↦ [] | line ∷ lines ↦ lines ]

abbrev pub unnamed : Text → Station
unnamed mac = record {
  mac = mac;
  signal = pos 0;
  tx_bitrate = pos 0;
  rx_bitrate = pos 0;
  connected = pos 0;
}

-- `read_mbit` is `strconv.ParseFloat` and the conversion `int(f * 1000)`
module _ (read_mbit : Text → Option ℤ) where
  -- `parseBitrate` on the first field of a text with a unit
  unfoldable pub unit_bitrate : List Text → Option ℤ
  unfolding plain_bitrate
  unit_bitrate [] = none
  unit_bitrate (field ∷ rest) = elim (read_mbit field) [
    | some kbps ↦ some kbps
    | none ↦ some (plain_bitrate field)
  ]

  -- `parseBitrate`
  unfoldable pub parse_bitrate : Text → Option ℤ
  unfolding unit_bitrate fields trim_suffix plain_bitrate
  parse_bitrate s =
      let t = trim_space s in
      if contains (codes "MBit/s") t
      then unit_bitrate (fields (trim_suffix (codes " MBit/s") t))
      else some (plain_bitrate t)

  -- the `switch` of `parseStationResponse`
  unfoldable pub set_field : Text → Text → Station → Option Station
  unfolding atoi_value parse_bitrate int_times
  set_field key val st =
      if text_eq key (codes "signal")
      then some (record st { signal = atoi_value val })
      else if text_eq key (codes "tx_bitrate")
      then (elim (parse_bitrate val) [ none ↦ none | some v ↦ some (record st { tx_bitrate = v }) ])
      else if text_eq key (codes "rx_bitrate")
      then (elim (parse_bitrate val) [ none ↦ none | some v ↦ some (record st { rx_bitrate = v }) ])
      else if text_eq key (codes "connected_time")
      then some (record st { connected = int_times 1000000000 (atoi_value val) })
      else some st

  -- a line of the loop
  unfoldable pub read_line : Text → Station → Option Station
  unfolding cut_at set_field
  read_line line st = elim (cut_at b'=' line) [ none ↦ some st | some p ↦ set_field p.0 p.1 st ]

  -- the loop of `parseStationResponse`
  unfoldable pub read_station : List Text → Station → Option Station
  unfolding read_line
  read_station [] st = some st
  read_station (line ∷ lines) st = elim (read_line line st) [
    | none ↦ none
    | some st' ↦ read_station lines st'
  ]

  -- `parseStationResponse`
  unfoldable pub parse_station_response : Text → Option Station
  unfolding read_station split_lines
  parse_station_response resp =
      read_station (other_lines resp) (unnamed (trim_space (first_line resp)))
