-- ===== src/Tests/Transfers.antt =====
-- A client that asks for a file twice, and the descriptors of a host whose calls all succeed.
use gokrazy_router.Prelude.{
  ℕ, ◌+◌, ◌-◌, ◌≤◌, ◌≡◌, refl, true, none, some, List, [], ◌∷◌, ◌++◌, drop, Text, codes, text_eq,
  has_prefix, lookup, insert, erase,
}
use gokrazy_router.Prelude.Action.{failed, done}
use gokrazy_router.Pxe.Request.{
  parse_rrq, parse_options, cstring, cstring_onto, sanitize_tftp_name, drop_junk, is_printable,
}
use gokrazy_router.Pxe.Reader.{
  new_table, started, duplicate, key_of, requested_name, read_packet, Event, packet, first_block,
  ended, step, run, admit, resend_block1, leave, count_key, end_transfer,
}
use gokrazy_router.Pxe.Transfer.{set_ready}
use gokrazy_router.Pxe.Reader.Consistency.{
  entries, run_unique, read_packet-restarts, run-IsConsistent, new_table-IsConsistent,
}
use gokrazy_router.Pxe.Image.{ImageServer}
use gokrazy_router.Pxe.Wire.{UdpAddr, timeout}
use gokrazy_router.Pxe.Serve.{System, serve_request}
use gokrazy_router.Pxe.Serve.Cleanup.{Counts, serve_request-keeps}
use gokrazy_router.Pxe.Files.{
  Paths, Files, split_path, open_parts, after_openat, open_tftp_file, err_packet,
}
use gokrazy_router.Pxe.Files.Descriptors.{all_ordinary}

abbrev client : Text
client = codes "10.0.0.9:1069"

-- the request for `a`
abbrev rest : List ℕ
rest = b'a' ∷ 0 ∷ codes "octet" ++ 0 ∷ []

abbrev key : Text
key = codes "10.0.0.9:1069|a"

abbrev history : List Event
history =
    packet client (0 ∷ 1 ∷ rest)
    ∷ first_block key (0 ∷ 3 ∷ 0 ∷ 1 ∷ [])
    ∷ packet client (0 ∷ 1 ∷ rest)
    ∷ []

program : Unit {0}
unfolding parse_rrq parse_options cstring cstring_onto sanitize_tftp_name drop_junk is_printable
    requested_name read_packet step run admit resend_block1 leave count_key end_transfer set_ready
    lookup insert erase text_eq split_path open_parts after_openat open_tftp_file all_ordinary
    err_packet
program = tt

-- the second request gets the first block again, and one transfer runs
duplicate_run :
    ((read_packet client (0 ∷ 1 ∷ rest) (run history new_table)).0
      ≡ duplicate (some (0 ∷ 3 ∷ 0 ∷ 1 ∷ [])))
    × ((run history new_table).running ≡ key ∷ [])
unfolding program
duplicate_run = (refl, refl)

run_unique_example :
    (count_key key (run history new_table).running ≤ 1)
    × (count_key key (run history new_table).running
        ≡ entries (lookup key (run history new_table).active))
run_unique_example = run_unique history key

read_packet-restarts_example :
    let pkt = 0 ∷ 1 ∷ rest in
    let name = requested_name pkt in
    let k = key_of client name in
    let result = read_packet client pkt (run (history ++ ended k ∷ []) new_table) in
    (result.0 ≡ started k name (parse_rrq pkt).opts) × (count_key k result.1.running ≡ 1)
read_packet-restarts_example = read_packet-restarts history client rest (unfold program in refl)

-- the world counts the open descriptors
abbrev os : Files ℕ
os = record {
  open_directory = λ dir w. (done 3, 1 + w);
  openat_no_follow = λ fd part directory w. (done (fd + 1), 1 + w);
  close = λ fd w. w - 1;
}

escape_run :
    open_tftp_file os (codes "/tftp") (codes "../a") 5
    ≡ (failed (codes "invalid path component"), 5)
unfolding program
escape_run = refl

err_run : err_packet 1 (codes "no") ≡ 0 ∷ 5 ∷ 0 ∷ 1 ∷ b'n' ∷ b'o' ∷ 0 ∷ []
unfolding program
err_run = refl

-- paths without links, below the root `/t`
abbrev paths : Paths ℕ
paths = record {
  join = λ dir name. dir ++ b'/' ∷ name;
  is_abs = λ path. has_prefix (codes "/") path;
  rel = λ root path. done (drop 3 path);
  eval_symlinks = λ path w. (done path, w);
}

-- a host whose clients stay silent
abbrev host : System ℕ
host = record {
  paths = paths;
  files = os;
  file_size = λ fd w. (done 2, w);
  contents = λ fd w. 7 ∷ 8 ∷ [];
  listen_transfer = λ w. (done 9, 1 + w);
  network =
      λ conn w n. record { write_ok = true; deadline_ok = true; arrivals = []; wait_end = timeout };
  transferred = λ conn w. w;
  send_control = λ pkt w. w;
}

abbrev host_counts : Counts ℕ host
host_counts = record {
  descriptors = λ w. w;
  open_counts = λ dir w. refl;
  openat_counts = λ fd part directory w. refl;
  close_counts = λ fd w. refl;
  listen_counts = λ w. refl;
  eval_keeps = λ path w. refl;
  size_keeps = λ fd w. refl;
  transfer_keeps = λ conn w. refl;
  control_keeps = λ pkt w. refl;
}

abbrev images : ImageServer
images = record { handler = []; default_image = codes "boot.img" }

abbrev peer : UdpAddr
peer = record { ip = 10 ∷ 0 ∷ 0 ∷ 9 ∷ []; port = 1069 }

serve_request-keeps_example :
    let result =
      serve_request host images (codes "/t") peer key (codes "a") [] (run history new_table) 5 in
    (result.1 ≡ 5) × (lookup key result.2.active ≡ none) × (count_key key result.2.running ≡ 0)
serve_request-keeps_example =
    serve_request-keeps host host_counts images (codes "/t") peer key (codes "a") []
      (run history new_table) 5 (run-IsConsistent history new_table new_table-IsConsistent)
