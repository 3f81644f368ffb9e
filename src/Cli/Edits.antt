-- ===== src/Cli/Edits.antt =====
-- What the edits of `router-cli extras` leave in the file.
use gokrazy_router.Prelude.{
  ◌≡◌, refl, ap, ◌≢◌, ◌⊎◌, inl, inr, true, some, [], arith, Option-cases, Text, text_eq_iff,
  text_eq_refl, Dict, lookup_or, lookup-insert, lookup-erase,
}
use gokrazy_router.Mac.{normalize_mac}
use gokrazy_router.Config.{ExtrasConfig}
use gokrazy_router.Config.Extras.{
  Change, modified, not_modified, set_entry, remove_entry, set_reservation, remove_reservation,
  set_mac_image, remove_mac_image,
}
use gokrazy_router.Reload.Run.{Loaded, loaded, not_exist, unreadable}
use gokrazy_router.Cli.{
  Command, list_all, set_reservation_command, set_mac_image_command, remove_reservation_command,
  remove_mac_image_command, unchanged, saved, failure, load_extras, edit_file, edit_of, run_command,
}

-- an edit that changed something changes nothing the second time
abbrev IsIdempotent : (ExtrasConfig → ExtrasConfig × Change) → Type 0
IsIdempotent edit = (e : ExtrasConfig) → (edit e).1 ≡ modified → (edit (edit e).0).1 ≡ not_modified

set_entry_idem :
    (mac value : Text) (m : Dict Text)
    → (set_entry mac value (set_entry mac value m).0).1 ≡ not_modified
unfolding set_entry
set_entry_idem mac value m =
    let k = normalize_mac mac in
    ground (
      arith,
      lookup-insert k k value m,
      text_eq_refl k,
      text_eq_iff (lookup_or k [] m) value,
      text_eq_refl value,
    )

remove_entry_idem :
    (mac : Text) (m : Dict Text) → (remove_entry mac (remove_entry mac m).0).1 ≡ not_modified
unfolding remove_entry
remove_entry_idem mac m =
    let k = normalize_mac mac in ground (arith, lookup-erase k k m, text_eq_refl k)

edit_of_idem : (c : Command) → IsIdempotent (edit_of c)
unfolding set_reservation remove_reservation set_mac_image remove_mac_image
edit_of_idem list_all e h = refl
edit_of_idem (set_reservation_command mac ip) e h = set_entry_idem mac ip e.reservations
edit_of_idem (set_mac_image_command mac image) e h = set_entry_idem mac image e.mac_images
edit_of_idem (remove_reservation_command mac) e h = remove_entry_idem mac e.reservations
edit_of_idem (remove_mac_image_command mac) e h = remove_entry_idem mac e.mac_images

Change-cases : (c : Change) → (c ≡ modified) ⊎ (c ≡ not_modified)
Change-cases modified = inl refl
Change-cases not_modified = inr refl

edit_file-unchanged :
    (edit : ExtrasConfig → ExtrasConfig × Change) (file : Loaded) (e : ExtrasConfig)
    → load_extras file ≡ some e
    → (edit e).1 ≡ not_modified
    → edit_file edit true file ≡ (file, unchanged)
unfolding edit_file
edit_file-unchanged edit file e found same = rw (edit_file, found, same) refl

edit_file-saved :
    (edit : ExtrasConfig → ExtrasConfig × Change) (file : Loaded) (e : ExtrasConfig)
    → load_extras file ≡ some e
    → (edit e).1 ≡ modified
    → edit_file edit true file ≡ (loaded (edit e).0, saved)
unfolding edit_file
edit_file-saved edit file e found new = rw (edit_file, found, new) refl

-- a second edit leaves the file and saves nothing
abbrev Settles : (ExtrasConfig → ExtrasConfig × Change) → Loaded → Type 0
Settles edit file = ((edit_file edit true file).0 ≡ file) × ((edit_file edit true file).1 ≢ saved)

unchanged-Settles :
    (edit : ExtrasConfig → ExtrasConfig × Change) (file : Loaded)
    → edit_file edit true file ≡ (file, unchanged)
    → Settles edit file
unchanged-Settles edit file h = (ap (λ r. r.0) h, λ k. cc (k, ap (λ r. r.1) h))

edit_file-Settles :
    (edit : ExtrasConfig → ExtrasConfig × Change) (file : Loaded)
    → IsIdempotent edit
    → Settles edit (edit_file edit true file).0
unfolding edit_file
edit_file-Settles edit file h = elim (Option-cases (load_extras file)) [
  | inl bad ↦
      let fails : edit_file edit true file ≡ (file, failure) = rw (edit_file, bad) refl in
      rw (ap (λ r. r.0) fails) (ap (λ r. r.0) fails, λ k. cc (k, ap (λ r. r.1) fails))
  | inr (e, found) ↦ elim (Change-cases (edit e).1) [
    | inl new ↦ rw (ap (λ r. r.0) (edit_file-saved edit file e found new)) (
        unchanged-Settles edit (loaded (edit e).0) (
          edit_file-unchanged edit (loaded (edit e).0) (edit e).0 (unfold load_extras in refl)
            (h e new)))
    | inr same ↦
        rw (ap (λ r. r.0) (edit_file-unchanged edit file e found same))
          (unchanged-Settles edit file (edit_file-unchanged edit file e found same))
  ]
]

listing-not-saved : (file : Loaded) → (run_command list_all true file).1 ≢ saved
unfolding run_command load_extras
listing-not-saved (loaded e) h = cc h
listing-not-saved not_exist h = cc h
listing-not-saved unreadable h = cc h

-- Where the file can be written, the same command a second time leaves the file as it is and does not
-- save it: each edit has the whole of its effect the first time.
run_command_idem :
    (c : Command) (file : Loaded)
    → let once = run_command c true file in
      let again = run_command c true once.0 in (again.0 ≡ once.0) × (again.1 ≢ saved)
unfolding run_command
run_command_idem list_all file = (refl, listing-not-saved file)
run_command_idem (set_reservation_command mac ip) file =
    edit_file-Settles _ file (edit_of_idem (set_reservation_command mac ip))
run_command_idem (set_mac_image_command mac image) file =
    edit_file-Settles _ file (edit_of_idem (set_mac_image_command mac image))
run_command_idem (remove_reservation_command mac) file =
    edit_file-Settles _ file (edit_of_idem (remove_reservation_command mac))
run_command_idem (remove_mac_image_command mac) file =
    edit_file-Settles _ file (edit_of_idem (remove_mac_image_command mac))
