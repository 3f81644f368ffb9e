-- ===== src/Status/Run/Gateways.antt =====
-- Which clients the monitor of pkg/status/status.go takes for the router itself.
use gokrazy_router.Prelude.{
  ℕ, ◌≡◌, refl, ap, ◌∙◌, inl, inr, Bool, true, false, ◌||◌, Option, none, some, List, [], ◌∷◌,
  arith, if◌then◌else◌, Bool-cases, Option-cases, All, Text, codes, text_eq, text_eq_iff, is_empty,
  Dict, lookup, insert, lookup_or, lookup-insert,
}
use mathlib.Core.Path.{subst}
use gokrazy_router.Prelude.Action.{done, wrap, and_then-eq-done, done_inj}
use gokrazy_router.Net.{Ip, to4}
use gokrazy_router.Status.State.{ClientEntry, Monitor, Rule, WifiStation}
use gokrazy_router.Status.Sample.{sample, poll_wifi_stations}
use gokrazy_router.Status.Start.{
  Links, Interfaces, add_addresses, addresses_of, gateway_addresses, new,
}
use gokrazy_router.Status.Track.{
  add_client, remove_client, remove_client_by_mac, gateway_via, find_connected,
}
use gokrazy_router.Status.Run.{
  Sampler, sampler_of, tick, leave_loop, set_wifi_source, stop, Event, client_added, client_removed,
  mac_removed, ticked, loop_left, source_set, stop_called, step, run,
}

seen-insert :
    (k key : Text) (ips : Dict Bool)
    → lookup_or key false (insert k true ips) ≡ (text_eq k key || lookup_or key false ips)
seen-insert k key ips = rw (lookup_or, lookup-insert k key true ips) (ground arith)

-- the addresses of the router are those, and a client is marked as a gateway exactly where it has one of them
abbrev pub Marked : Dict Bool → Monitor → Type 0
Marked ips m =
    (m.gateway_ips ≡ ips)
    × ((key : Text) (e : ClientEntry)
        → lookup key m.clients ≡ some e
        → text_eq e.via (codes "G") ≡ lookup_or key false ips)

-- the program gives LAN or WiFi for a client
abbrev pub IsPlain : Event → Type 0
IsPlain (client_added now ok ip mac via) = text_eq via (codes "G") ≡ false
IsPlain (client_removed now ok rx tx ip) = Unit
IsPlain (mac_removed now ok rx tx mac) = Unit
IsPlain (ticked now rx tx stations) = Unit
IsPlain loop_left = Unit
IsPlain source_set = Unit
IsPlain stop_called = Unit

some_inj : {A : Type 0} {a b : A} → some a ≡ some b → a ≡ b
some_inj {a = a} h = ap (λ x. elim x [ none ↦ a | some v ↦ v ]) h

insert-Marked :
    (ips : Dict Bool) (k : Text) (e : ClientEntry) (m : Monitor)
    → Marked ips m
    → text_eq e.via (codes "G") ≡ lookup_or k false ips
    → Marked ips (record m { clients = insert k e m.clients })
insert-Marked ips k e m marked h = (
  marked.0,
  λ key e2 g. elim (Bool-cases (text_eq k key)) [
    | inl t ↦
        let found : some e ≡ some e2 = cc (g, lookup-insert k key e m.clients, t) in
        let same : k ≡ key = (text_eq_iff k key).0 t in
        subst (λ x. text_eq x.via (codes "G") ≡ lookup_or key false ips) (some_inj found)
          (subst (λ j. text_eq e.via (codes "G") ≡ lookup_or j false ips) same h)
    | inr f ↦ marked.1 key e2 (cc (g, lookup-insert k key e m.clients, f))
  ],
)

gateway_via-eq :
    (ip_string : Ip → Text) (m : Monitor) (key via : Text)
    → text_eq via (codes "G") ≡ false
    → text_eq (gateway_via ip_string m key via) (codes "G") ≡ lookup_or key false m.gateway_ips
unfolding text_eq
gateway_via-eq ip_string m key via h = elim (Bool-cases (lookup_or key false m.gateway_ips)) [
  | inl e ↦ rw e refl
  | inr e ↦ rw e h
]

module _ (ip_string : Ip → Text) where
  add_client-Marked :
      (ips : Dict Bool) (now : ℕ) (ok : Bool) (ip : Ip) (mac via : Text) (m : Monitor)
      → text_eq via (codes "G") ≡ false
      → Marked ips m
      → Marked ips (add_client ip_string now ok ip mac via m).0
  unfolding add_client
  add_client-Marked ips now ok ip mac via m h marked =
      let k = ip_string (to4 ip) in
      let mark : text_eq (gateway_via ip_string m k via) (codes "G") ≡ lookup_or k false ips =
        subst (λ d. text_eq (gateway_via ip_string m k via) (codes "G") ≡ lookup_or k false d)
          marked.0 (gateway_via-eq ip_string m k via h) in
      elim (Option-cases (lookup k m.clients)) [
        | inl e ↦ rw (add_client, e) (insert-Marked ips k _ m marked mark)
        | inr (entry, e) ↦ elim (Bool-cases entry.connected) [
          | inl c ↦ rw (add_client, e, c) marked
          | inr c ↦ rw (add_client, e, c) (insert-Marked ips k _ m marked mark)
        ]
      ]

  remove_client-Marked :
      (ips : Dict Bool) (now : ℕ) (ok : Bool) (rx tx : Option (List Rule)) (ip : Ip) (m : Monitor)
      → Marked ips m
      → Marked ips (remove_client ip_string now ok rx tx ip m).0
  unfolding remove_client
  remove_client-Marked ips now ok rx tx ip m marked =
      let k = ip_string (to4 ip) in
      elim (Option-cases (lookup k m.clients)) [
        | inl e ↦ rw (remove_client, e) marked
        | inr (entry, e) ↦ elim (Bool-cases entry.connected) [
          | inr c ↦ rw (remove_client, e, c) marked
          | inl c ↦ rw (remove_client, e, c) (insert-Marked ips k _ m marked (marked.1 k entry e))
        ]
      ]

  poll_wifi_stations-Marked :
      (ips : Dict Bool) (stations : Option (List WifiStation)) (m : Monitor)
      → Marked ips m
      → Marked ips (poll_wifi_stations stations m)
  unfolding poll_wifi_stations
  poll_wifi_stations-Marked ips none m marked = marked
  poll_wifi_stations-Marked ips (some stations) m marked = marked

  step-Marked :
      (ips : Dict Bool) (e : Event) (s : Sampler)
      → IsPlain e
      → Marked ips s.monitor
      → Marked ips (step ip_string e s).monitor
  unfolding step tick leave_loop set_wifi_source stop remove_client_by_mac sample poll_wifi_stations
  step-Marked ips (client_added now ok ip mac via) s plain marked =
      add_client-Marked ips now ok ip mac via s.monitor plain marked
  step-Marked ips (client_removed now ok rx tx ip) s plain marked =
      remove_client-Marked ips now ok rx tx ip s.monitor marked
  step-Marked ips (mac_removed now ok rx tx mac) s plain marked =
      elim (Option-cases (find_connected ip_string mac s.monitor.clients)) [
        | inl e ↦ rw (step, remove_client_by_mac, e) marked
        | inr (ip, e) ↦ elim (Bool-cases (is_empty ip)) [
          | inl t ↦ rw (step, remove_client_by_mac, e, t) marked
          | inr f ↦
              rw (step, remove_client_by_mac, e, f)
                (remove_client-Marked ips now ok rx tx ip s.monitor marked)
        ]
      ]
  step-Marked ips (ticked now rx tx stations) s plain marked = elim (Bool-cases s.sampling) [
    | inr e ↦ rw (step, tick, e) marked
    | inl e ↦
        rw (step, tick, e)
          (poll_wifi_stations-Marked ips (if s.wifi_source then stations else none)
            (sample now rx tx s.monitor) marked)
  ]
  step-Marked ips loop_left s plain marked = elim (Bool-cases s.stop_ch) [
    | inl e ↦ rw (step, leave_loop, e) marked
    | inr e ↦ rw (step, leave_loop, e) marked
  ]
  step-Marked ips source_set s plain marked = marked
  step-Marked ips stop_called s plain marked = elim (Bool-cases s.stop_ch) [
    | inl e ↦ rw (step, stop, e) marked
    | inr e ↦ rw (step, stop, e) marked
  ]

  run-Marked :
      (ips : Dict Bool) (es : List Event) (s : Sampler)
      → All IsPlain es
      → Marked ips s.monitor
      → Marked ips (run ip_string es s).monitor
  unfolding run
  run-Marked ips [] s plain marked = marked
  run-Marked ips (e ∷ es) s plain marked =
      run-Marked ips es (step ip_string e s) plain.1 (step-Marked ips e s plain.0 marked)

module _ {World Link : Type 0} (links : Links World Link) where
  -- an address of the list is written like that
  abbrev pub listed : Text → List Ip → Bool
  listed key [] = false
  listed key (a ∷ rest) = text_eq (links.ip_string a) key || listed key rest

  -- an interface whose addresses could be listed has one that is written like that
  abbrev pub is_own : World → List Text → Text → Bool
  is_own w [] key = false
  is_own w (name ∷ names) key = listed key (addresses_of links w name) || is_own w names key

  seen-add_addresses :
      (key : Text) (addrs : List Ip) (ips : Dict Bool)
      → lookup_or key false (add_addresses links addrs ips)
        ≡ (lookup_or key false ips || listed key addrs)
  unfolding add_addresses
  seen-add_addresses key [] ips = ground arith
  seen-add_addresses key (a ∷ rest) ips =
      rw
        (
          seen-add_addresses key rest (insert (links.ip_string a) true ips),
          seen-insert (links.ip_string a) key ips,
        )
        (ground arith)

  seen-gateway_addresses :
      (w : World) (key : Text) (names : List Text) (ips : Dict Bool)
      → lookup_or key false (gateway_addresses links w names ips)
        ≡ (lookup_or key false ips || is_own w names key)
  unfolding gateway_addresses
  seen-gateway_addresses w key [] ips = ground arith
  seen-gateway_addresses w key (name ∷ names) ips =
      rw
        (
          seen-gateway_addresses w key names (add_addresses links (addresses_of links w name) ips),
          seen-add_addresses key (addresses_of links w name) ips,
        )
        (ground arith)

  -- Where `New` succeeds, and then clients come and go in any order, the loop samples or has been stopped, and no
  -- client is announced as a gateway: a client of the monitor is marked as a gateway exactly where its address, as
  -- the monitor writes it, is one of the LAN, the WiFi or the WAN interface at the start.
  pub new-run-gateways :
      (wan lan : Text) (ports : List Text) (wifi : Text) (w w2 : World) (ifaces : Interfaces)
      (m : Monitor)
      → new links wan lan ports wifi w ≡ (done (ifaces, m), w2)
      → (es : List Event) → All IsPlain es
      → (key : Text) (e : ClientEntry)
      → lookup key (run links.ip_string es (sampler_of m)).monitor.clients ≡ some e
      → text_eq e.via (codes "G") ≡ is_own w2 (lan ∷ wifi ∷ wan ∷ []) key
  unfolding new lookup
  new-run-gateways wan lan ports wifi w w2 ifaces m h es plain key e found =
      let (u, w1, sent, rest) =
        and_then-eq-done (wrap (codes "status: create nftables table") (links.flush _ w)) _ h in
      let (result, same) = done_inj rest in
      let ips = gateway_addresses links w1 (lan ∷ wifi ∷ wan ∷ []) [] in
      let start : Marked ips m =
        subst (Marked ips) (ap (λ x. x.1) result) (refl, λ k c g. absurd cc) in
      subst (λ v. text_eq e.via (codes "G") ≡ is_own v (lan ∷ wifi ∷ wan ∷ []) key) same
        ((run-Marked links.ip_string ips es (sampler_of m) plain start).1 key e found
          ∙ seen-gateway_addresses w1 key (lan ∷ wifi ∷ wan ∷ []) [])
