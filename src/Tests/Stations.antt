-- ===== src/Tests/Stations.antt =====
-- hostapd with one station: the world is the last command.
use gokrazy_router.Prelude.{
  ◌-◌, ◌^◌, ◌≡◌, refl, ◌≢◌, Option, none, some, [], ◌∷◌, ◌++◌, arith, if◌then◌else◌, Text, codes,
  text_eq, is_space, trim_left, trim_space, has_prefix, contains, ℤ, pos, negsuc,
}
use gokrazy_router.Prelude.Action.{done}
use gokrazy_router.Prelude.Decimal.{atoi, read_digits, read_magnitude}
use gokrazy_router.Prelude.Space.{fields, trim_suffix}
use gokrazy_router.Prelude.Template.{split_lines}
use gokrazy_router.Wifi.Stations.{
  Station, parse_station_response, parse_bitrate, read_station, read_line, cut_at, set_field,
  atoi_value, int_times, plain_bitrate, unit_bitrate,
}
use gokrazy_router.Wifi.Control.{
  Socket, ended, out_of_range, is_last, request, stations, stations_from, station_info_all,
  query_client, new_ctrl_client, close_client,
}
use gokrazy_router.Wifi.Control.Replies.{
  Answers, station_of, stations-Answers, stations-ne-out_of_range,
}

abbrev reply : Text
reply =
    codes "aa"
    ++ 10
      ∷ (codes "signal=-42" ++ 10 ∷ (codes "tx_bitrate=72.2 MBit/s" ++ 10 ∷ codes "rx_bitrate=65"))

-- the only number with a point
abbrev mbit : Text → Option ℤ
mbit t = if text_eq t (codes "72.2") then some (pos 72200) else none

abbrev hostapd : Socket Text
hostapd = record {
  resolve = λ path. done path;
  dial = λ mine theirs w. (done tt, w);
  write = λ cmd w. (done tt, cmd);
  read = λ w. (done (if text_eq w (codes "STA-FIRST") then reply else codes "FAIL"), w);
  close = λ w. w;
  remove = λ path w. w;
}

program : Unit {0}
unfolding fields trim_suffix split_lines trim_space trim_left is_space contains has_prefix text_eq
    parse_station_response parse_bitrate read_station read_line cut_at set_field atoi_value
    int_times plain_bitrate unit_bitrate atoi read_digits read_magnitude is_last request stations
    stations_from station_info_all query_client new_ctrl_client close_client
program = tt

abbrev found : Station
found = record {
  mac = codes "aa";
  signal = negsuc 41;
  tx_bitrate = pos 72200;
  rx_bitrate = pos 6500;
  connected = pos 0;
}

stations_run :
    (station_info_all hostapd mbit 5 (codes "7") (codes "wlan0") []).0 ≡ done (ended (found ∷ []))
unfolding program
stations_run = refl

one_answer : Answers hostapd mbit (codes "STA-FIRST") [] (reply ∷ [])
unfolding program
one_answer = (refl, refl, (codes "FAIL", refl, refl))

stations-Answers_example :
    (stations hostapd mbit 2 []).0 ≡ done (ended (station_of mbit reply ∷ []))
stations-Answers_example = stations-Answers hostapd mbit (reply ∷ []) [] 2 (omega arith) one_answer

stations-ne-out_of_range_example : (stations hostapd mbit 2 []).0 ≢ done out_of_range
stations-ne-out_of_range_example = stations-ne-out_of_range hostapd mbit 2 []

-- a numeral above the limit is the limit, and a product wraps around
limits_run :
    (atoi_value (codes "99999999999999999999") ≡ pos (2 ^ 63 - 1))
    × (int_times 2 (pos (2 ^ 62)) ≡ negsuc (2 ^ 63 - 1))
    × (int_times 100 (negsuc 6) ≡ negsuc 699)
unfolding program
limits_run = (refl, refl, refl)
