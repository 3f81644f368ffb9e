-- ===== src/Tests/AccessPoints.antt =====
-- An access point whose hostapd crashes, and the output of one that runs.
use gokrazy_router.Prelude.{
  ℕ, ◌≡◌, refl, true, false, Option, none, some, List, [], ◌∷◌, ◌==◌, if◌then◌else◌, Text, codes,
  text_eq, lower, to_lower, insert,
}
use gokrazy_router.Config.{empty_wifi}
use gokrazy_router.Prelude.Action.{failed}
use gokrazy_router.Wifi.{
  Ap, Patterns, new, config_error, clients_of, parse_output, handle_events, handle_event,
  line_events,
}
use gokrazy_router.Wifi.Backoff.{
  Running, stop, Exit, supervise, supervise_from, waits, current_backoff, next_backoff, Restarts,
  supervise-Restarts,
}

abbrev crash : Exit
crash = record { ran_for = 2; stopped = false; stopped_waiting = false; launched = true }

abbrev crashes : List Exit
crashes = crash ∷ crash ∷ crash ∷ crash ∷ crash ∷ crash ∷ []

supervise-Restarts_example : Restarts crashes (supervise crashes)
supervise-Restarts_example = supervise-Restarts crashes (
  (refl, refl),
  ((refl, refl), ((refl, refl), ((refl, refl), ((refl, refl), ((refl, refl), tt))))),
)

waits_run : waits (supervise crashes) ≡ 1 ∷ 2 ∷ 4 ∷ 8 ∷ 16 ∷ 30 ∷ []
unfolding supervise supervise_from waits current_backoff next_backoff
waits_run = refl

-- lines of two letters: the event and the client
abbrev found : ℕ → Text → Option Text
found letter (c ∷ mac) = if c == letter then some mac else none
found letter [] = none

abbrev patterns : Patterns
patterns = record {
  connected = found b'c';
  disconnected = found b'd';
  associated = found b'a';
  disassociated = found b'x';
}

abbrev point : Ap
point = record { cfg = empty_wifi; bridge = []; mac_map = none; clients = [] }

abbrev output : List Text
output = codes "cM" ∷ codes "aN" ∷ codes "dM" ∷ []

clients_run : clients_of (parse_output patterns output point).clients ≡ codes "n" ∷ []
unfolding parse_output line_events handle_events handle_event clients_of insert text_eq to_lower
    lower
clients_run = refl

-- a short passphrase is refused
short_run :
    new (λ f. failed f) (record empty_wifi { ssid = codes "home"; passphrase = codes "1234567" }) []
    ≡ failed (codes "wifi: WPA2 passphrase must be 8-63 characters")
unfolding new config_error
short_run = refl

abbrev running : Running
running = record { stop_ch = false; process = true }

-- a second call closes no channel, and interrupts once more
stop_run : stop (stop running).0 ≡ (record running { stop_ch = true }, true)
unfolding stop
stop_run = refl
