-- ===== src/Macmap.antt =====
-- pkg/macmap/macmap.go: the MAC-to-VLAN mapping file. Reading TOML and `net.ParseMAC` are parameters.
pub mod Sorting
pub mod Lookup
pub mod Merge
use gokrazy_router.Prelude.{
  ℕ, ◌+◌, Bool, true, false, not, ◌||◌, Option, none, some, List, [], ◌∷◌, ◌++◌, reverse,
  if◌then◌else◌, Text, text_eq, to_lower, Dict, insert, lookup_or, ℤ, pos, int_eq, int_lt,
}
use gokrazy_router.Prelude.Decimal.{print_int}

pub record Client : Type 0 where
  pub mac : Text
  pub vlan : ℤ
  pub name : Text
  pub hostname : Text

pub record MapFile : Type 0 where
  pub default_vlan : ℤ
  pub clients : List Client

-- the errors of `Parse` and `validate`, each with the index of the client
pub data Error : Type 0 where
  bad_toml bad_default : Error
  bad_mac duplicate_mac bad_vlan : ℕ → Error

pub data Result {ℓ} (Value : Type ℓ) : Type ℓ where
  err : Error → Result Value
  ok : Value → Result Value

infixl 5 ◌>>=◌
abbrev pub ◌>>=◌ {ℓ κ} :
    {Value : Type ℓ} {Next : Type κ} → Result Value → (Value → Result Next) → Result Next
err failure >>= next = err failure
ok value >>= next = next value

-- the test `id < 0 || id > 4094`
unfoldable pub out_of_range : ℤ → Bool
out_of_range id = int_lt id (pos 0) || int_lt (pos 4094) id

-- the loop of `validate`, from client `i` on, with the addresses seen
unfoldable pub validate_clients : ℕ → Dict Bool → List Client → Result (Unit {0})
validate_clients i macs [] = ok tt
validate_clients i macs (c ∷ cs) =
    let rest = validate_clients (i + 1) (insert c.mac true macs) cs in
    if lookup_or c.mac false macs
    then err (duplicate_mac i)
    else if out_of_range c.vlan
    then err (bad_vlan i)
    else rest

unfoldable pub validate : MapFile → Result (Unit {0})
validate mf = do
  _ ← validate_clients 0 [] mf.clients
  if out_of_range mf.default_vlan then err bad_default else ok tt

module _ (decode : Text → Option MapFile) (parse_mac : Text → Option Text) where
  -- the loop of `Parse` that normalizes the addresses
  unfoldable pub normalize_clients : ℕ → List Client → Result (List Client)
  normalize_clients i [] = ok []
  normalize_clients i (c ∷ cs) = elim (parse_mac c.mac) [
    | none ↦ err (bad_mac i)
    | some hw ↦ do rest ← normalize_clients (i + 1) cs; ok (record c { mac = to_lower hw } ∷ rest)
  ]

  unfoldable pub parse : Text → Result MapFile
  parse text = elim (decode text) [
    | none ↦ err bad_toml
    | some mf ↦ do
      clients ← normalize_clients 0 mf.clients
      let mf' : MapFile = record mf { clients = clients }
      _ ← validate mf'
      ok mf'
  ]

-- the loop of `Lookup`, on the lower-case address
unfoldable pub find_vlan : Text → ℤ → List Client → ℤ
find_vlan mac default [] = default
find_vlan mac default (c ∷ cs) = if text_eq c.mac mac then c.vlan else find_vlan mac default cs

unfoldable pub lookup_vlan : MapFile → Text → ℤ
lookup_vlan mf mac = find_vlan (to_lower mac) mf.default_vlan mf.clients

-- the keys of a `map[int]bool`
unfoldable pub has_id : ℤ → List ℤ → Bool
has_id id [] = false
has_id id (j ∷ js) = int_eq j id || has_id id js

abbrev pub add_id : ℤ → List ℤ → List ℤ
add_id id seen = if has_id id seen then seen else id ∷ seen

unfoldable pub seen_ids : List ℤ → List Client → List ℤ
seen_ids seen [] = seen
seen_ids seen (c ∷ cs) = seen_ids (add_id c.vlan seen) cs

-- The inner loop of `sortInts`: `a[i]` goes down past the greater elements. The sorted part of the
-- slice is held from its end.
unfoldable pub sink : ℤ → List ℤ → List ℤ
sink x [] = x ∷ []
sink x (y ∷ ys) = if int_lt x y then y ∷ sink x ys else x ∷ y ∷ ys

unfoldable pub sort_onto : List ℤ → List ℤ → List ℤ
sort_onto done [] = done
sort_onto done (x ∷ xs) = sort_onto (sink x done) xs

unfoldable pub sort_ints : List ℤ → List ℤ
sort_ints a = reverse (sort_onto [] a)

-- `VLANs`
unfoldable pub vlans : MapFile → List ℤ
vlans mf = sort_ints (seen_ids (mf.default_vlan ∷ []) mf.clients)

-- `ClientsByVLAN`, as a function from the VLAN to its clients
unfoldable pub clients_in : ℤ → List Client → List Client
clients_in id [] = []
clients_in id (c ∷ cs) = let rest = clients_in id cs in if int_eq c.vlan id then c ∷ rest else rest

unfoldable pub clients_by_vlan : MapFile → ℤ → List Client
clients_by_vlan mf id = clients_in id mf.clients

-- the second loop of `Merge`: the clients so far, and the addresses that are there
unfoldable pub merge_onto : List Client → Dict Bool → List Client → List Client
merge_onto clients existing [] = clients
merge_onto clients existing (c ∷ cs) =
    let mac = to_lower c.mac in
    let fresh = not (lookup_or mac false existing) in
    merge_onto (if fresh then clients ++ c ∷ [] else clients)
      (if fresh then insert mac true existing else existing) cs

-- the first loop of `Merge`
unfoldable pub existing_macs : Dict Bool → List Client → Dict Bool
existing_macs existing [] = existing
existing_macs existing (c ∷ cs) = existing_macs (insert c.mac true existing) cs

unfoldable pub merge : MapFile → MapFile → MapFile
merge mf other = record mf {
  clients = merge_onto mf.clients (existing_macs [] mf.clients) other.clients;
}

-- `HostapdAcceptMACFile`
unfoldable pub accept_lines : List Client → Text
accept_lines [] = []
accept_lines (c ∷ cs) =
    let rest = accept_lines cs in
    if int_lt (pos 0) c.vlan then c.mac ++ (b' ' ∷ (print_int c.vlan ++ (b'\n' ∷ rest))) else rest

unfoldable pub hostapd_accept_mac_file : MapFile → Text
hostapd_accept_mac_file mf = accept_lines mf.clients
