-- ===== src/Wifi/Control/Replies.antt =====
-- The replies of hostapd that `Stations` of pkg/wifi/hostapd_ctrl.go reads, and the stations that it returns.
use gokrazy_router.Prelude.{
  ℕ, zero, suc, ◌<◌, ◌≡◌, refl, sym, ap, ◌∙◌, ◌≢◌, inl, inr, true, false, Option, none, some, List,
  [], ◌∷◌, ◌++◌, map, arith, Bool-cases, length, Text, codes, is_empty, trim_space, ℤ,
}
use gokrazy_router.Prelude.Action.{Outcome, failed, done, and_then}
use gokrazy_router.Prelude.Space.{trim_space-cases}
use gokrazy_router.Wifi.Stations.{Station, unnamed, parse_station_response}
use gokrazy_router.Wifi.Stations.Parsing.{parse_station_response-some}
use gokrazy_router.Wifi.Control.{
  Socket, Query, ended, out_of_range, running, onto, is_last, request, after_next, stations_from,
  stations,
}

module _ (read_mbit : Text → Option ℤ) where
  abbrev pub station_of : Text → Station
  station_of resp = elim (parse_station_response read_mbit (trim_space resp)) [
    | some st ↦ st
    | none ↦ unnamed []
  ]

  -- a reply that does not end the loop is parsed, and its station is named
  station_of_lem :
      (resp : Text)
      → is_last (trim_space resp) ≡ false
      → (parse_station_response read_mbit (trim_space resp) ≡ some (station_of resp))
        × (is_empty (station_of resp).mac ≡ false)
  unfolding is_last
  station_of_lem resp h = elim (trim_space-cases resp) [
    | inl z ↦ absurd (cc (ap is_last z))
    | inr s ↦
        (let (st, q, m) = parse_station_response-some read_mbit (trim_space resp) s in
          let e : station_of resp ≡ st = rw (q, station_of) refl in (q ∙ ap some (sym e), rw e m))
  ]

onto-named :
    (st : Station) (sts : List Station) (rest : Query)
    → rest ≡ ended sts
    → is_empty st.mac ≡ false
    → onto st rest ≡ ended (st ∷ sts)
onto-named st sts rest h m = rw h (simp (m))

onto-ne-out_of_range :
    (st : Station) (rest : Query) → rest ≢ out_of_range → onto st rest ≢ out_of_range
onto-ne-out_of_range st (ended sts) h e = cc
onto-ne-out_of_range st out_of_range h e = h e
onto-ne-out_of_range st running h e = cc

module _ {World : Type 0} (sock : Socket World) (read_mbit : Text → Option ℤ) where
  -- hostapd answers a command, and then the requests for the next station, by these replies, each of which
  -- describes a station, and by an end
  abbrev pub Answers : Text → World → List Text → Type 0
  Answers cmd w [] =
      (resp : Text) × ((request sock cmd w).0 ≡ done resp) × (is_last (trim_space resp) ≡ true)
  Answers cmd w (resp ∷ resps) =
      ((request sock cmd w).0 ≡ done resp)
      × (is_last (trim_space resp) ≡ false)
      × Answers (codes "STA-NEXT " ++ (station_of read_mbit resp).mac) (request sock cmd w).1 resps

  after_next-done :
      (r : Outcome Text × World) (resp : Text) (next : Text → World → Query × World)
      → r.0 ≡ done resp
      → after_next r next ≡ next resp r.1
  after_next-done (failed e, w) resp next h = absurd cc
  after_next-done (done x, w) resp next h = let e : x ≡ resp = cc in ap (λ y. next y w) e

  stations_from-last :
      (fuel : ℕ) (resp : Text) (w : World)
      → is_last (trim_space resp) ≡ true
      → (stations_from sock read_mbit (suc fuel) resp w).0 ≡ ended []
  unfolding stations_from
  stations_from-last fuel resp w h = rw h refl

  -- a reply that describes a station puts it in front of what the next requests give
  stations_from-next :
      (fuel : ℕ) (resp : Text) (w : World) (sts : List Station)
      → is_last (trim_space resp) ≡ false
      → (after_next
          (request sock (codes "STA-NEXT " ++ (station_of read_mbit resp).mac) w)
          (stations_from sock read_mbit fuel)).0
        ≡ ended sts
      → (stations_from sock read_mbit (suc fuel) resp w).0 ≡ ended (station_of read_mbit resp ∷ sts)
  unfolding stations_from
  stations_from-next fuel resp w sts h k =
      let (q, m) = station_of_lem read_mbit resp h in
      rw (h, q) (onto-named (station_of read_mbit resp) sts _ k m)

  after_next-Answers :
      (resps : List Text) (cmd : Text) (w : World) (fuel : ℕ)
      → length resps < fuel
      → Answers cmd w resps
      → (after_next (request sock cmd w) (stations_from sock read_mbit fuel)).0
        ≡ ended (map (station_of read_mbit) resps)
  after_next-Answers resps cmd w zero h a = absurd (omega (arith, h))
  after_next-Answers [] cmd w (suc fuel) h (resp, e, l) =
      ap (λ r. r.0)
        (after_next-done (request sock cmd w) resp (stations_from sock read_mbit (suc fuel)) e)
      ∙ stations_from-last fuel resp (request sock cmd w).1 l
  after_next-Answers (resp ∷ resps) cmd w (suc fuel) h (e, l, a) =
      ap (λ r. r.0)
        (after_next-done (request sock cmd w) resp (stations_from sock read_mbit (suc fuel)) e)
      ∙ stations_from-next fuel resp (request sock cmd w).1 (map (station_of read_mbit) resps) l (
          after_next-Answers resps (codes "STA-NEXT " ++ (station_of read_mbit resp).mac)
            (request sock cmd w).1 fuel (omega (arith, h)) a)

  after_next-ne-out_of_range :
      (r : Outcome Text × World) (next : Text → World → Query × World)
      → ((resp : Text) (w : World) → (next resp w).0 ≢ out_of_range)
      → (after_next r next).0 ≢ out_of_range
  after_next-ne-out_of_range (failed e, w) next h q = cc
  after_next-ne-out_of_range (done resp, w) next h q = h resp w q

  stations_from-ne-out_of_range :
      (fuel : ℕ) (resp : Text) (w : World)
      → (stations_from sock read_mbit fuel resp w).0 ≢ out_of_range
  unfolding stations_from
  stations_from-ne-out_of_range zero resp w = λ e. cc
  stations_from-ne-out_of_range (suc fuel) resp w = elim (Bool-cases (is_last (trim_space resp))) [
    | inl l ↦ rw l (λ e. cc)
    | inr l ↦
        (let (q, m) = station_of_lem read_mbit resp l in
          rw (l, q)
            (onto-ne-out_of_range (station_of read_mbit resp) _ (
              after_next-ne-out_of_range
                (request sock (codes "STA-NEXT " ++ (station_of read_mbit resp).mac) w)
                (stations_from sock read_mbit fuel) (stations_from-ne-out_of_range fuel))))
  ]

  abbrev queried : (Text → World → Query × World) → Text → World → Outcome Query × World
  queried next resp w = (let r = next resp w in (done r.0, r.1))

  queried-done :
      (r : Outcome Text × World) (resp : Text) (next : Text → World → Query × World) (q : Query)
      → r.0 ≡ done resp
      → (after_next r next).0 ≡ q
      → (and_then r (queried next)).0 ≡ done q
  queried-done (failed e, w) resp next q h k = absurd cc
  queried-done (done x, w) resp next q h k = ap done k

  queried-ne-out_of_range :
      (r : Outcome Text × World) (next : Text → World → Query × World)
      → ((resp : Text) (w : World) → (next resp w).0 ≢ out_of_range)
      → (and_then r (queried next)).0 ≢ done out_of_range
  queried-ne-out_of_range (failed e, w) next h q = cc
  queried-ne-out_of_range (done resp, w) next h q = h resp w (cc)

  Answers-done :
      (cmd : Text) (w : World) (resps : List Text)
      → Answers cmd w resps
      → (resp : Text) × ((request sock cmd w).0 ≡ done resp)
  Answers-done cmd w [] (resp, e, l) = (resp, e)
  Answers-done cmd w (resp ∷ resps) (e, l, a) = (resp, e)

  -- Where hostapd answers the first request, and then each request for the station after the last one, by
  -- a reply that describes a station, until it says that there is none: with more rounds than replies
  -- `Stations` returns one station for each reply, in their order.
  pub stations-Answers :
      (resps : List Text) (w : World) (fuel : ℕ)
      → length resps < fuel
      → Answers (codes "STA-FIRST") w resps
      → (stations sock read_mbit fuel w).0 ≡ done (ended (map (station_of read_mbit) resps))
  unfolding stations
  stations-Answers resps w fuel h a =
      let (resp, e) = Answers-done (codes "STA-FIRST") w resps a in
      queried-done (request sock (codes "STA-FIRST") w) resp (stations_from sock read_mbit fuel) _ e
        (after_next-Answers resps (codes "STA-FIRST") w fuel h a)

  -- Whatever hostapd replies, no index is out of range.
  pub stations-ne-out_of_range :
      (fuel : ℕ) (w : World) → (stations sock read_mbit fuel w).0 ≢ done out_of_range
  unfolding stations
  stations-ne-out_of_range fuel w =
      queried-ne-out_of_range (request sock (codes "STA-FIRST") w)
        (stations_from sock read_mbit fuel) (stations_from-ne-out_of_range fuel)
