-- ===== src/Tests/Clients.antt =====
-- A map file with two clients.
use gokrazy_router.Prelude.{
  ◌≡◌, refl, ◌↔◌, [], ◌∷◌, All, codes, text_eq, lower, to_lower, lookup, insert, pos, int_lt,
}
use gokrazy_router.Macmap.{
  Client, MapFile, ok, out_of_range, validate_clients, validate, lookup_vlan, merge,
}
use gokrazy_router.Macmap.Lookup.{AreDistinct, IsVlan, validate_iff, lookup_vlan-client}
use gokrazy_router.Macmap.Merge.{merge-validate}

abbrev camera : Client
camera = record { mac = codes "aa:01"; name = codes "camera"; vlan = pos 30; hostname = [] }

abbrev plug : Client
plug = record { mac = codes "aa:02"; name = codes "plug"; vlan = pos 20; hostname = [] }

abbrev shouting : Client
shouting = record { mac = codes "AA:03"; name = codes "tv"; vlan = pos 20; hostname = [] }

abbrev clients : MapFile
clients = record { default_vlan = pos 10; clients = camera ∷ plug ∷ [] }

abbrev others : MapFile
others = record { default_vlan = pos 1; clients = plug ∷ [] }

abbrev upper : MapFile
upper = record { default_vlan = pos 1; clients = shouting ∷ [] }

program : Unit {0}
unfolding out_of_range validate_clients validate lookup insert text_eq to_lower lower int_lt
program = tt

clients_run : validate clients ≡ ok tt
unfolding program
clients_run = refl

validate_iff_example : (validate clients ≡ ok tt) ↔ (
    AreDistinct clients.clients
    × All (λ c. IsVlan c.vlan) clients.clients
    × IsVlan clients.default_vlan)
validate_iff_example = validate_iff clients

lookup_vlan-client_example : lookup_vlan clients (codes "AA:02") ≡ plug.vlan
lookup_vlan-client_example =
    lookup_vlan-client clients (camera ∷ []) [] plug (codes "AA:02") clients_run refl
      (unfold program in refl)

merge-validate_example : validate (merge clients others) ≡ ok tt
merge-validate_example =
    merge-validate clients others clients_run (unfold program in ((refl, refl), tt))
