-- ===== src/Wifi/Clients.antt =====
-- The list of clients that `Clients` of pkg/wifi/wifi.go returns, against the events that were seen.
use gokrazy_router.Prelude.{Bool, false, ◌||◌, List, [], ◌∷◌, ◌++◌, if◌then◌else◌, Text, text_eq}
use gokrazy_router.Wifi.{ClientEvent, Patterns, line_events}

-- what the last event of a client says, or what was known before
unfoldable pub last_event : Text → Bool → List ClientEvent → Bool
last_event mac known [] = known
last_event mac known (ev ∷ evs) =
    last_event mac (if text_eq ev.mac mac then ev.associated else known) evs

unfoldable pub all_events : Patterns → List Text → List ClientEvent
unfolding line_events
all_events re [] = []
all_events re (line ∷ lines) = line_events re line ++ all_events re lines

unfoldable pub is_listed : Text → List Text → Bool
is_listed mac [] = false
is_listed mac (m ∷ ms) = text_eq m mac || is_listed mac ms
