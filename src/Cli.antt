-- ===== src/Cli.antt =====
-- cmd/router-cli/main.go, the `extras` subcommand: its arguments, and the edits of the extras file. The
-- file is what `config.LoadExtras` finds; `os.Exit(1)` is the status of a failure.
pub mod Edits
pub mod Report
pub mod Export
use gokrazy_router.Prelude.{
  Bool, true, false, Option, none, some, List, [], ◌∷◌, if◌then◌else◌, Text, codes, text_eq,
}
use gokrazy_router.Config.{ExtrasConfig, empty_extras}
use gokrazy_router.Config.Extras.{
  Change, modified, not_modified, set_reservation, remove_reservation, set_mac_image,
  remove_mac_image,
}
use gokrazy_router.Reload.Run.{Loaded, loaded, not_exist, unreadable}

pub data Command : Type 0 where
  list_all : Command
  set_reservation_command set_mac_image_command : Text → Text → Command
  remove_reservation_command remove_mac_image_command : Text → Command

abbrev default_extras_file : Text
default_extras_file = codes "/mnt/data/router-extras.toml"

-- what is left of the arguments, with the file; `none` is the usage and a failure
unfoldable pub split_file : List Text → Option (Text × List Text)
split_file [] = none
split_file (arg ∷ args) =
    if text_eq arg (codes "--file")
    then elim args [ [] ↦ none | path ∷ rest ↦ some (path, rest) ]
    else some (default_extras_file, arg ∷ args)

abbrev two_arguments : (Text → Text → Command) → List Text → Option Command
two_arguments command (mac ∷ value ∷ []) = some (command mac value)
two_arguments command _ = none

abbrev one_argument : (Text → Command) → List Text → Option Command
one_argument command (mac ∷ []) = some (command mac)
one_argument command _ = none

unfoldable pub parse_subcommand : List Text → Option Command
parse_subcommand [] = none
parse_subcommand (name ∷ args) =
    if text_eq name (codes "list")
    then some list_all
    else if text_eq name (codes "set-reservation")
    then two_arguments set_reservation_command args
    else if text_eq name (codes "remove-reservation")
    then one_argument remove_reservation_command args
    else if text_eq name (codes "set-mac-image")
    then two_arguments set_mac_image_command args
    else if text_eq name (codes "remove-mac-image")
    then one_argument remove_mac_image_command args
    else none

-- how the program ends
pub data Status : Type 0 where
  unchanged saved listed failure : Status

-- `loadExtras`: a file that is not there is an empty one
unfoldable pub load_extras : Loaded → Option ExtrasConfig
load_extras (loaded e) = some e
load_extras not_exist = some empty_extras
load_extras unreadable = none

-- what is common to the four edits; `save_ok` says whether the file can be written; a
-- write that fails is taken to leave it as it is
unfoldable pub edit_file : (ExtrasConfig → ExtrasConfig × Change) → Bool → Loaded → Loaded × Status
unfolding load_extras
edit_file edit save_ok file = elim (load_extras file) [
  | none ↦ (file, failure)
  | some e ↦ elim (edit e).1 [
    | not_modified ↦ (file, unchanged)
    | modified ↦ if save_ok then (loaded (edit e).0, saved) else (file, failure)
  ]
]

abbrev pub edit_of : Command → ExtrasConfig → ExtrasConfig × Change
edit_of list_all e = (e, not_modified)
edit_of (set_reservation_command mac ip) e = set_reservation e mac ip
edit_of (set_mac_image_command mac image) e = set_mac_image e mac image
edit_of (remove_reservation_command mac) e = remove_reservation e mac
edit_of (remove_mac_image_command mac) e = remove_mac_image e mac

unfoldable pub run_command : Command → Bool → Loaded → Loaded × Status
unfolding load_extras edit_file
run_command list_all save_ok file =
    (file, elim (load_extras file) [ none ↦ failure | some e ↦ listed ])
run_command (set_reservation_command mac ip) save_ok file =
    edit_file (edit_of (set_reservation_command mac ip)) save_ok file
run_command (set_mac_image_command mac image) save_ok file =
    edit_file (edit_of (set_mac_image_command mac image)) save_ok file
run_command (remove_reservation_command mac) save_ok file =
    edit_file (edit_of (remove_reservation_command mac)) save_ok file
run_command (remove_mac_image_command mac) save_ok file =
    edit_file (edit_of (remove_mac_image_command mac)) save_ok file

-- `runExtras`, on the files by their paths
unfoldable pub run_extras : List Text → Bool → (Text → Loaded) → (Text → Loaded) × Status
unfolding split_file parse_subcommand run_command
run_extras args save_ok files = elim (split_file args) [
  | none ↦ (files, failure)
  | some (path, rest) ↦ elim (parse_subcommand rest) [
    | none ↦ (files, failure)
    | some command ↦
        let result = run_command command save_ok (files path) in
        ((λ p. if text_eq path p then result.0 else files p), result.1)
  ]
]
