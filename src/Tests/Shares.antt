-- ===== src/Tests/Shares.antt =====
-- A Samba server with one user more, on a host where every call succeeds.
use gokrazy_router.Prelude.{◌≡◌, refl, true, false, [], ◌∷◌, Text, codes, text_eq}
use gokrazy_router.Prelude.Action.{Outcome, failed, done}
use gokrazy_router.Prelude.Template.{split_lines, render_lines}
use gokrazy_router.Config.{SmbConfig}
use gokrazy_router.Smb.{success, Host, Server, new, set_extra_users}
use gokrazy_router.Smb.Validate.{
  simple_name, validate_simple_name, has_control, validate_user, validate_users, validate_path,
  has_unsafe, validate_interface,
}
use gokrazy_router.Smb.Conf.{
  conf_of, interface_lines, conf_lines, render_conf, listen_interface, join_spaces,
}
use gokrazy_router.Smb.Start.{
  listen_of, settings_error, create_user, create_users, update_user, start_samba, start_portable,
  start, add_user,
}
use gokrazy_router.Smb.Start.Safety.{WroteConf, start-WroteConf}

-- the world is what was written last
abbrev host : Host Text
host = record {
  mkdir_all = λ path w. (done tt, w);
  stat = λ path w. (done tt, w);
  write_file = λ path text w. (done tt, text);
  run = λ command args env input w. (done success, w);
  start_process = λ command args w. (done tt, w);
  interrupt_and_wait = λ w. w;
  split_host_port = λ t. done (codes "10.0.0.1", codes "445");
  base = λ t. codes "smbd";
}

abbrev cfg : SmbConfig
cfg = record {
  enabled = true;
  bin_path = [];
  listen = [];
  share_name = codes "data";
  share_path = codes "/mnt/data";
  user = codes "admin";
  password = codes "secret";
  use_portable_server = false;
}

abbrev share : Server
share = record {
  cfg = cfg;
  running = false;
  is_samba = false;
  extra_users = record { name = codes "guest"; password = codes "guest pass" } ∷ [];
}

program : Unit {0}
unfolding simple_name validate_simple_name has_control validate_user validate_users validate_path
    has_unsafe validate_interface conf_of interface_lines conf_lines render_conf listen_interface
    join_spaces settings_error create_user create_users update_user start_samba start_portable start
    add_user split_lines render_lines text_eq new set_extra_users
program = tt

made_share : set_extra_users (new cfg) share.extra_users ≡ share
unfolding program
made_share = refl

abbrev started : Outcome Server × Text
started = start host share (codes "before")

start_run : started ≡ (done (record share { running = true; is_samba = true }), started.1)
unfolding program
start_run = refl

start-WroteConf_example : WroteConf host share (listen_of share)
start-WroteConf_example =
    start-WroteConf host share (record share { running = true; is_samba = true }) (codes "before")
      started.1 refl (unfold text_eq in refl) start_run

-- a user name with a newline is refused before anything is written
bad_name :
    start host
      (record share { extra_users = record { name = 103 ∷ 10 ∷ []; password = codes "x" } ∷ [] })
      (codes "before")
    ≡ (failed (codes "smb: extras user: invalid user name"), codes "before")
unfolding program
bad_name = refl
