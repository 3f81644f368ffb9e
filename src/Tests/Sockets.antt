-- ===== src/Tests/Sockets.antt =====
-- The sockets of a server that is bound to an interface, and a path below its root. The world counts the open
-- descriptors.
use gokrazy_router.Prelude.{
  ℕ, ◌+◌, ◌-◌, ◌≡◌, refl, true, none, some, [], ◌∷◌, ◌++◌, ◌==◌, if◌then◌else◌, drop, Text, codes,
  text_eq, lower, to_lower, replace_byte, has_prefix, lookup,
}
use gokrazy_router.Prelude.Action.{Outcome, failed, done}
use gokrazy_router.Net.{to4}
use gokrazy_router.Config.{PxeConfig}
use gokrazy_router.Dhcp.State.{normalized_onto}
use gokrazy_router.Pxe.Image.{
  ImageServer, set_mac_images, resolve_image, filename_to_mac, trim_prefix, trim_extension,
  base_name, split_at, drop_slashes, count_byte,
}
use gokrazy_router.Pxe.Wire.{UdpAddr}
use gokrazy_router.Pxe.Files.{Paths, path_within_root, resolve_path}
use gokrazy_router.Pxe.Files.Jail.{IsJailed, resolve_path-IsJailed}
use gokrazy_router.Pxe.Files.Descriptors.{opened_by}
use gokrazy_router.Pxe.Listen.{
  Sockets, socket_address, first_ipv4, bind_socket, listen_udp_on, iface_ipv4, listen_transfer,
  start_listening, start,
}
use gokrazy_router.Pxe.Listen.Descriptors.{Counts, listen_descriptors}

-- a host that lets no one bind to port 69 of an interface
abbrev sockets : Sockets ℕ
sockets = record {
  listen_udp = λ addr w. (done 7, 1 + w);
  socket = λ w. (done 4, 1 + w);
  set_reuse = λ fd w. (done tt, w);
  bind_to_device = λ fd iface w. (done tt, w);
  bind = λ fd addr w. (if addr.port == 69 then failed (codes "permission denied") else done tt, w);
  file_packet_conn = λ fd w. (done 5, 1 + w);
  close = λ fd w. w - 1;
  interface_addrs = λ name w. (done (none ∷ some (10 ∷ 0 ∷ 0 ∷ 1 ∷ []) ∷ []), w);
  mkdir_all = λ dir w. (done tt, w);
}

abbrev sockets_counts : Counts ℕ sockets
sockets_counts = record {
  descriptors = λ w. w;
  listen_counts = λ addr w. refl;
  socket_counts = λ w. refl;
  conn_counts = λ fd w. refl;
  close_counts = λ fd w. refl;
  reuse_keeps = λ fd w. refl;
  device_keeps = λ fd iface w. refl;
  bind_keeps = λ fd addr w. refl;
  mkdir_keeps = λ dir w. refl;
  addrs_keep = λ name w. refl;
}

abbrev bound : PxeConfig
bound = record {
  enabled = true;
  listen = [];
  bind_interface = codes "br0";
  tftp_root = codes "/t";
  default_image = [];
  mac_images = [];
  boot_file = [];
  legacy_boot_file = [];
  uefi_boot_file = [];
  ipxe_script = [];
}

abbrev resolve : Text → Outcome UdpAddr
resolve t = done (record { ip = 0 ∷ 0 ∷ 0 ∷ 0 ∷ []; port = 69 })

program : Unit {0}
unfolding to4 socket_address first_ipv4 bind_socket listen_udp_on iface_ipv4 listen_transfer
    start_listening start normalized_onto set_mac_images path_within_root resolve_path resolve_image
    filename_to_mac trim_prefix trim_extension base_name split_at drop_slashes count_byte to_lower
    lower text_eq has_prefix replace_byte lookup
program = tt

listen_descriptors_example :
    let transfer = listen_transfer sockets bound 2 in
    let control = start_listening sockets resolve bound 2 in
    (transfer.1 ≡ opened_by transfer.0 + 2) × (control.1 ≡ opened_by control.0 + 2)
listen_descriptors_example = listen_descriptors sockets sockets_counts resolve bound 2

-- the socket of a transfer is made, that of the server is not
listen_run :
    (listen_transfer sockets bound 2 ≡ (done 5, 3))
    × (start_listening sockets resolve bound 2
        ≡ (failed (codes "pxe: listen 0.0.0.0:69: bind: permission denied"), 2))
unfolding program
listen_run = (refl, refl)

-- the root is `/t`, and there are no links
abbrev paths : Paths ℕ
paths = record {
  join = λ dir name. dir ++ b'/' ∷ name;
  is_abs = λ path. has_prefix (codes "/") path;
  rel = λ root path. done (drop 3 path);
  eval_symlinks = λ path w. (done path, w);
}

abbrev plain : ImageServer
plain = record { handler = []; default_image = [] }

resolve_path-IsJailed_example :
    IsJailed paths (codes "/t") (resolve_image plain (codes "sub/a")) (codes "/t") (codes "sub/a") 0
resolve_path-IsJailed_example =
    resolve_path-IsJailed paths plain (codes "/t") (codes "sub/a") (codes "/t") (codes "sub/a") 0 0
      (unfold program in refl)

up_run :
    resolve_path paths plain (codes "/t") (codes "../a") 0
    ≡ (failed (codes "path escapes TFTP root: ../a"), 0)
unfolding program
up_run = refl
