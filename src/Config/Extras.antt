-- ===== src/Config/Extras.antt =====
-- The edits of the extras file in pkg/config/config.go, which `router-cli extras` makes.
use gokrazy_router.Prelude.{
  ◌≡◌, ◌↔◌, none, some, [], arith, if◌then◌else◌, Text, text_eq, text_eq_iff, Dict, lookup, insert,
  erase, lookup_or, lookup-insert, lookup-erase,
}
use gokrazy_router.Mac.{normalize_mac}
use gokrazy_router.Config.{ExtrasConfig}

-- the error of an edit: nil or `ErrNotModified`
pub data Change : Type 0 where
  modified not_modified : Change

-- the two edits of a map, which the reservations and the images share line by line
unfoldable pub set_entry : Text → Text → Dict Text → Dict Text × Change
set_entry mac value m =
    if text_eq (lookup_or (normalize_mac mac) [] m) value
    then (m, not_modified)
    else (insert (normalize_mac mac) value m, modified)

unfoldable pub remove_entry : Text → Dict Text → Dict Text × Change
remove_entry mac m = elim (lookup (normalize_mac mac) m) [
  | none ↦ (m, not_modified)
  | some _ ↦ (erase (normalize_mac mac) m, modified)
]

unfoldable pub set_reservation : ExtrasConfig → Text → Text → ExtrasConfig × Change
set_reservation e mac ip =
    let (m, change) = set_entry mac ip e.reservations in (record e { reservations = m }, change)

unfoldable pub remove_reservation : ExtrasConfig → Text → ExtrasConfig × Change
remove_reservation e mac =
    let (m, change) = remove_entry mac e.reservations in (record e { reservations = m }, change)

unfoldable pub set_mac_image : ExtrasConfig → Text → Text → ExtrasConfig × Change
set_mac_image e mac image =
    let (m, change) = set_entry mac image e.mac_images in (record e { mac_images = m }, change)

unfoldable pub remove_mac_image : ExtrasConfig → Text → ExtrasConfig × Change
remove_mac_image e mac =
    let (m, change) = remove_entry mac e.mac_images in (record e { mac_images = m }, change)

-- After `SetReservation` the address reads back under every spelling of its MAC, all else reads as
-- before, and the edit is reported as none exactly where the address was read before.
set_reservation_lem :
    (e : ExtrasConfig) (mac ip other : Text)
    → (lookup_or (normalize_mac other) [] (set_reservation e mac ip).0.reservations ≡ (
        if text_eq (normalize_mac mac) (normalize_mac other)
        then ip
        else lookup_or (normalize_mac other) [] e.reservations))
      × (((set_reservation e mac ip).1 ≡ not_modified)
          ↔ (lookup_or (normalize_mac mac) [] e.reservations ≡ ip))
unfolding set_reservation set_entry
set_reservation_lem e mac ip other =
    let k = normalize_mac mac in
    let j = normalize_mac other in
    (
      ground (
        arith,
        text_eq_iff k j,
        text_eq_iff (lookup_or k [] e.reservations) ip,
        lookup-insert k j ip e.reservations,
      ),
      (
        ground (arith, text_eq_iff (lookup_or k [] e.reservations) ip),
        ground (arith, text_eq_iff (lookup_or k [] e.reservations) ip),
      ),
    )

-- After `RemoveReservation` nothing reads back under any spelling of the MAC, and all else as before.
pub remove_reservation_lem :
    (e : ExtrasConfig) (mac other : Text)
    → lookup (normalize_mac other) (remove_reservation e mac).0.reservations ≡ (
        if text_eq (normalize_mac mac) (normalize_mac other)
        then none
        else lookup (normalize_mac other) e.reservations)
unfolding remove_reservation remove_entry
remove_reservation_lem e mac other =
    let k = normalize_mac mac in
    let j = normalize_mac other in ground (arith, text_eq_iff k j, lookup-erase k j e.reservations)

-- An image set to the empty text is not stored for a new MAC, and the edit is reported as none.
pub set_mac_image_empty :
    (e : ExtrasConfig) (mac : Text)
    → lookup (normalize_mac mac) e.mac_images ≡ none
    → ((set_mac_image e mac []).1 ≡ not_modified)
      × (lookup (normalize_mac mac) (set_mac_image e mac []).0.mac_images ≡ none)
unfolding set_mac_image set_entry text_eq
set_mac_image_empty e mac h = (ground arith, ground arith)
