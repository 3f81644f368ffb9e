-- ===== src/Wifi/Control.antt =====
-- pkg/wifi/hostapd_ctrl.go: the client of hostapd's control socket, which asks for the stations. The socket is a
-- parameter.
pub mod Replies
use gokrazy_router.Prelude.{
  ℕ, zero, suc, ◌+◌, ◌-◌, ◌/◌, Bool, ◌||◌, Option, none, some, List, [], ◌∷◌, ◌++◌, if◌then◌else◌,
  take, Text, codes, text_eq, is_empty, trim_space, ℤ,
}
use gokrazy_router.Prelude.Action.{Action, Outcome, failed, done, and_then, ◌>>=◌, return}
use gokrazy_router.Wifi.Stations.{Station, parse_station_response}

-- the calls on the control socket: `ResolveUnixAddr`, `DialUnix`, the write of a command, the read of a
-- datagram, `Close` of the connection, and `os.Remove`
pub record Socket (World : Type 0) : Type 0 where
  pub resolve : Text → Outcome Text
  pub dial : Text → Text → Action World (Unit {0})
  pub write : Text → Action World (Unit {0})
  pub read : Action World Text
  pub close : World → World
  pub remove : Text → World → World

-- how a query of the stations ends: with a list, with an index out of range, or not within the fuel
pub data Query : Type 0 where
  ended : List Station → Query
  out_of_range : Query
  running : Query

abbrev onto : Station → Query → Query
onto st (ended sts) = ended (if is_empty st.mac then sts else st ∷ sts)
onto st out_of_range = out_of_range
onto st running = running

-- the replies that end the loop of `Stations`
unfoldable pub is_last : Text → Bool
is_last resp = is_empty resp || text_eq resp (codes "FAIL")

-- what follows a request for the next station
abbrev pub after_next :
    {World : Type 0} → Outcome Text × World → (Text → World → Query × World) → Query × World
after_next (failed e, w) next = (ended [], w)
after_next (done resp, w) next = next resp w

module _ {World : Type 0} (sock : Socket World) where
  -- `request`; the buffer has 4096 bytes
  unfoldable pub request : Text → Action World Text
  request cmd = do _ ← sock.write cmd; resp ← sock.read; return (take 4096 resp)

  abbrev pub local_path : Text → Text
  local_path pid = codes "/tmp/hostapd_ctrl_" ++ pid

  -- what follows `DialUnix`
  abbrev pub after_dial : Text → Text → Outcome (Unit {0}) × World → Outcome (Unit {0}) × World
  after_dial remote mine (done u, w) = (done u, w)
  after_dial remote mine (failed e, w) =
      (failed (codes "connect to hostapd ctrl " ++ remote ++ codes ": " ++ e), sock.remove mine w)

  -- `NewCtrlClient`, with the number of the process
  unfoldable pub new_ctrl_client : Text → Text → Action World (Unit {0})
  new_ctrl_client pid iface w =
      let remote = codes "/tmp/hostapd/" ++ iface in
      let w1 = sock.remove (local_path pid) w in
      elim (sock.resolve (local_path pid)) [
        | failed e ↦ (failed e, w1)
        | done mine ↦ elim (sock.resolve remote) [
          | failed e ↦ (failed e, w1)
          | done theirs ↦ after_dial remote (local_path pid) (sock.dial mine theirs w1)
        ]
      ]

  -- `Close`
  unfoldable pub close_client : Text → World → World
  close_client pid w = sock.remove (local_path pid) (sock.close w)

module _ {World : Type 0} (sock : Socket World) (read_mbit : Text → Option ℤ) where
  -- what follows the parse of a reply
  abbrev pub after_parse : Option Station → World → (Text → World → Query × World) → Query × World
  after_parse none w next = (out_of_range, w)
  after_parse (some st) w next =
      let rest = after_next (request sock (codes "STA-NEXT " ++ st.mac) w) next in
      (onto st rest.0, rest.1)

  -- the loop of `Stations`
  unfoldable pub stations_from : ℕ → Text → World → Query × World
  unfolding is_last request parse_station_response
  stations_from zero resp w = (running, w)
  stations_from (suc fuel) resp w =
      let t = trim_space resp in
      if is_last t
      then (ended [], w)
      else after_parse (parse_station_response read_mbit t) w (stations_from fuel)

  -- `Stations`
  unfoldable pub stations : ℕ → World → Outcome Query × World
  unfolding stations_from
  stations fuel = do
    resp ← request sock (codes "STA-FIRST")
    (λ w. (let r = stations_from fuel resp w in (done r.0, r.1)))

  -- what `StationInfoAll` does with a client
  unfoldable pub query_client : ℕ → Text → Outcome (Unit {0}) × World → Outcome Query × World
  unfolding stations close_client
  query_client fuel pid (failed e, w) = (done (ended []), w)
  query_client fuel pid (done u, w) = let r = stations fuel w in (r.0, close_client sock pid r.1)

  -- `StationInfoAll`
  unfoldable pub station_info_all : ℕ → Text → Text → World → Outcome Query × World
  unfolding query_client new_ctrl_client
  station_info_all fuel pid iface w = query_client fuel pid (new_ctrl_client sock pid iface w)
