-- ===== src/Cli/Export.antt =====
-- `exportMACMap` of cmd/router-cli/main.go: the clients of the status API as a MAC-to-VLAN file.
use gokrazy_router.Prelude.{
  ◌≡◌, refl, ◌↔◌, inl, inr, Option, none, some, List, [], ◌∷◌, ◌++◌, arith, if◌then◌else◌,
  Bool-cases, All, Text, codes, text_eq, is_empty, lower, to_lower, pos, int_lt,
}
use gokrazy_router.Macmap.{Client, MapFile, ok, out_of_range, validate, merge}
use gokrazy_router.Macmap.Lookup.{AreDistinct, InRange, InRange-iff, validate_iff}
use gokrazy_router.Macmap.Merge.{IsMergeable, merge-validate}
use gokrazy_router.Cli.Report.{ClientInfo, Status}

module _ {Rate : Type 0} where
  -- the name of a client, from its address and the scope
  unfoldable pub client_name : ClientInfo Rate → Text
  client_name c =
      let via =
        if text_eq c.via (codes "W")
        then codes "wifi"
        else if text_eq c.via (codes "L")
        then codes "lan"
        else c.via in
      if is_empty c.ip then [] else c.ip ++ codes " (" ++ via ++ codes ")"

  unfoldable pub exported_client : ClientInfo Rate → Client
  unfolding client_name
  exported_client c = record { mac = c.mac; vlan = pos 0; name = client_name c; hostname = [] }

  -- the loop over the clients: one without a MAC address is left out
  unfoldable pub exported_clients : List (ClientInfo Rate) → List Client
  unfolding exported_client
  exported_clients [] = []
  exported_clients (c ∷ cs) =
      let rest = exported_clients cs in if is_empty c.mac then rest else exported_client c ∷ rest

  -- the exported file, where `existing` is the file to merge into
  unfoldable pub export_mac_map : Status Rate → Option MapFile → MapFile
  unfolding exported_clients merge
  export_mac_map s none = record { default_vlan = pos 1; clients = exported_clients s.clients }
  export_mac_map s (some existing) =
      merge existing (record { default_vlan = pos 0; clients = exported_clients s.clients })

  exported-InRange : (cs : List (ClientInfo Rate)) → InRange (exported_clients cs)
  unfolding exported_clients
  exported-InRange [] = tt
  exported-InRange (c ∷ cs) = elim (Bool-cases (is_empty c.mac)) [
    | inl no_mac ↦ rw (no_mac) (exported-InRange cs)
    | inr mac ↦ rw (mac) (unfold out_of_range in unfold int_lt in refl, exported-InRange cs)
  ]

  abbrev IsLower : ClientInfo Rate → Type 0
  IsLower c = to_lower c.mac ≡ c.mac

  exported-IsMergeable :
      (cs : List (ClientInfo Rate)) → All IsLower cs → All IsMergeable (exported_clients cs)
  unfolding exported_clients
  exported-IsMergeable [] h = tt
  exported-IsMergeable (c ∷ cs) h = elim (Bool-cases (is_empty c.mac)) [
    | inl no_mac ↦ rw (no_mac) (exported-IsMergeable cs h.1)
    | inr mac ↦
        rw (mac) ((h.0, unfold out_of_range in unfold int_lt in refl), exported-IsMergeable cs h.1)
  ]

  -- For clients whose addresses are in lower case: a file exported on its own is accepted exactly where no MAC
  -- address stands twice in it, and an export that is merged into an accepted file is accepted always.
  pub export_mac_map-validate :
      (s : Status Rate) (existing : MapFile)
      → validate existing ≡ ok tt
      → All IsLower s.clients
      → ((validate (export_mac_map s none) ≡ ok tt) ↔ AreDistinct (exported_clients s.clients))
        × (validate (export_mac_map s (some existing)) ≡ ok tt)
  unfolding export_mac_map
  export_mac_map-validate s existing accepted lower =
      let own =
        validate_iff (record { default_vlan = pos 1; clients = exported_clients s.clients }) in
      (
        (
          λ h. (own.0 h).0,
          λ fresh.
              own.1 (fresh, (InRange-iff _).0 (exported-InRange s.clients), (1, refl, omega arith)),
        ),
        merge-validate existing
            (record { default_vlan = pos 0; clients = exported_clients s.clients }) accepted
            (exported-IsMergeable s.clients lower),
      )
