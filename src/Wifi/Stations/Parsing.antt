-- ===== src/Wifi/Stations/Parsing.antt =====
-- `parseStationResponse` of pkg/wifi/hostapd_ctrl.go: which replies it reads, and its index.
use gokrazy_router.Prelude.{
  ◌≡◌, refl, ap, ◌∙◌, inl, inr, false, Option, some, List, [], ◌∷◌, arith, Bool-cases, Option-cases,
  Text, codes, text_eq, is_empty, is_space, trim_space, has_prefix, contains, ℤ,
}
use gokrazy_router.Prelude.Space.{
  Starts, fields-Starts, trim_suffix-Starts, trim_space-cases, trim_space-Starts,
}
use gokrazy_router.Prelude.Template.{split_lines, split_lines-cons}
use gokrazy_router.Wifi.Stations.{
  Station, unnamed, plain_bitrate, atoi_value, int_times, first_line, other_lines, unit_bitrate,
  parse_bitrate, set_field, read_line, read_station, parse_station_response, cut_at,
}

module _ (read_mbit : Text → Option ℤ) where
  unit_bitrate-some :
      (fs : List Text) (f : Text) (rest : List Text)
      → fs ≡ f ∷ rest
      → (v : ℤ) × (unit_bitrate read_mbit fs ≡ some v)
  unfolding unit_bitrate
  unit_bitrate-some fs f rest e = elim (Option-cases (read_mbit f)) [
    | inl n ↦ (plain_bitrate f, rw e (rw (n, unit_bitrate) refl))
    | inr (v, s) ↦ (v, rw e (rw (s, unit_bitrate) refl))
  ]

  -- The index of the first field is never out of range.
  pub parse_bitrate-some : (s : Text) → (v : ℤ) × (parse_bitrate read_mbit s ≡ some v)
  unfolding parse_bitrate contains has_prefix
  parse_bitrate-some s = elim (Bool-cases (contains (codes "MBit/s") (trim_space s))) [
    | inr e ↦ (plain_bitrate (trim_space s), rw e refl)
    | inl e ↦ elim (trim_space-cases s) [
      | inl z ↦ absurd cc
      | inr st ↦
          (let (f, rest, q) =
              fields-Starts _ (trim_suffix-Starts b' ' (codes "MBit/s") (trim_space s) refl st) in
            let (v, p) = unit_bitrate-some _ f rest q in (v, rw e p))
    ]
  ]

  -- a line is read, and the address of the station stays
  abbrev Reads : Option Station → Station → Type 0
  Reads o st = (st' : Station) × (o ≡ some st') × (st'.mac ≡ st.mac)

  set_field-Reads : (key val : Text) (st : Station) → Reads (set_field read_mbit key val st) st
  unfolding set_field
  set_field-Reads key val st =
      let (v, q) = parse_bitrate-some val in
      elim (Bool-cases (text_eq key (codes "signal"))) [
        | inl a ↦ (record st { signal = atoi_value val }, rw a refl, refl)
        | inr a ↦ elim (Bool-cases (text_eq key (codes "tx_bitrate"))) [
          | inl b ↦ (record st { tx_bitrate = v }, rw (a, b, q) refl, refl)
          | inr b ↦ elim (Bool-cases (text_eq key (codes "rx_bitrate"))) [
            | inl c ↦ (record st { rx_bitrate = v }, rw (a, b, c, q) refl, refl)
            | inr c ↦ elim (Bool-cases (text_eq key (codes "connected_time"))) [
              | inl d ↦ (
                record st { connected = int_times 1000000000 (atoi_value val) },
                rw (a, b, c, d) refl,
                refl,
              )
              | inr d ↦ (st, rw (a, b, c, d) refl, refl)
            ]
          ]
        ]
      ]

  read_line-Reads : (line : Text) (st : Station) → Reads (read_line read_mbit line st) st
  unfolding read_line
  read_line-Reads line st = elim (Option-cases (cut_at b'=' line)) [
    | inl n ↦ (st, rw (n, read_line) refl, refl)
    | inr (p, s) ↦ (let (st', q, m) = set_field-Reads p.0 p.1 st in (st', rw (s, read_line) q, m))
  ]

  read_station-Reads :
      (lines : List Text) (st : Station) → Reads (read_station read_mbit lines st) st
  unfolding read_station
  read_station-Reads [] st = (st, refl, refl)
  read_station-Reads (line ∷ lines) st =
      let (st1, q, m) = read_line-Reads line st in
      let (st2, q2, m2) = read_station-Reads lines st1 in (st2, rw (q, read_station) q2, m2 ∙ m)

  first_line-Starts : (t : Text) → Starts t → Starts (first_line t)
  unfolding split_lines is_space
  first_line-Starts t (c, cs, e, h) =
      let (line, lines, q) = split_lines-cons c cs (ground (arith, h)) in
      (c, line, rw e (ap (λ (ls : List Text). elim ls [ [] ↦ [] | l ∷ more ↦ l ]) q), h)

  -- A reply that is no white space gives a station with an address.
  pub parse_station_response-some :
      (t : Text)
      → Starts t
      → (st : Station) × (parse_station_response read_mbit t ≡ some st) × (is_empty st.mac ≡ false)
  unfolding parse_station_response
  parse_station_response-some t s =
      let (st, q, m) = read_station-Reads (other_lines t) (unnamed (trim_space (first_line t))) in
      let (c, cs, e, h) = trim_space-Starts (first_line t) (first_line-Starts t s) in
      (st, q, rw (m, e) refl)
