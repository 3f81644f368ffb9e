-- ===== src/Smb/Start.antt =====
-- The start of the SMB server, its users and its end, of pkg/smb/smb.go.
pub mod Safety
use gokrazy_router.Prelude.{
  ◌+◌, ◌-◌, ◌/◌, Bool, true, false, not, ◌||◌, Option, none, some, List, [], ◌∷◌, ◌++◌,
  if◌then◌else◌, Text, codes, text_eq, is_empty, ℤ,
}
use gokrazy_router.Prelude.Action.{Action, Outcome, failed, done, wrap, and_then, ◌>>=◌, return}
use gokrazy_router.Prelude.Decimal.{atoi, print_int}
use gokrazy_router.Config.{SmbConfig, SmbUser}
use gokrazy_router.Smb.{Exit, success, exit_error, Host, Server}
use gokrazy_router.Smb.Validate.{
  validate_simple_name, validate_user, validate_users, validate_path, validate_interface,
}
use gokrazy_router.Smb.Conf.{conf_of, conf_path, listen_interface, share_name_of}

-- an error ends the operation
abbrev pub check : {World : Type 0} → Text → Option Text → Action World (Unit {0})
check context none w = (done tt, w)
check context (some e) w = (failed (context ++ e), w)

abbrev pub require : {World : Type 0} → Bool → Text → Action World (Unit {0})
require true e w = (done tt, w)
require false e w = (failed e, w)

-- `Wait`, also on a command that did not start
abbrev waited : Outcome Exit → Outcome (Unit {0})
waited (done success) = done tt
waited (done (exit_error e)) = failed e
waited (failed e) = failed (codes "exec: not started")

-- what `Start` has checked before it acts
unfoldable pub settings_error : Server → Option Text
unfolding validate_user validate_users
settings_error s =
    if is_empty s.cfg.user || is_empty s.cfg.password
    then some (codes "smb: user and password must be configured")
    else if is_empty s.cfg.share_path
    then some (codes "smb: share path not configured")
    else elim (validate_user s.cfg.user s.cfg.password) [
      | some e ↦ some (codes "smb: primary user: " ++ e)
      | none ↦ validate_users s.extra_users
    ]

abbrev pub bin_of : Server → Text
bin_of s = if is_empty s.cfg.bin_path then codes "/usr/local/bin/smbd" else s.cfg.bin_path

abbrev pub listen_of : Server → Text
listen_of s = if is_empty s.cfg.listen then codes "0.0.0.0:445" else s.cfg.listen

module _ {World : Type 0} (os : Host World) where
  abbrev smbpasswd : List Text → Text → Text → Action World Exit
  smbpasswd args conf password =
      os.run (codes "smbpasswd") args (codes "SMB_CONF_PATH=" ++ conf)
        (password ++ 10 ∷ password ++ 10 ∷ [])

  -- the second command of `createUser`, of which only the wait is checked
  unfoldable pub update_user : Text → Text → Text → World → Outcome (Unit {0}) × World
  update_user conf user password w =
      let (result, w1) = smbpasswd (codes "-s" ∷ user ∷ []) conf password w in (waited result, w1)

  -- `createUser`: where the user cannot be added, its password is updated
  unfoldable pub create_user : Text → Text → Text → Action World (Unit {0})
  unfolding update_user
  create_user conf user password = do
    added ← smbpasswd (codes "-s" ∷ codes "-a" ∷ user ∷ []) conf password
    elim added [ success ↦ return tt | exit_error e ↦ update_user conf user password ]

  unfoldable pub create_users : List SmbUser → Action World (Unit {0})
  unfolding create_user
  create_users [] = return tt
  create_users (u ∷ us) = do
    _ ← (λ w.
        wrap (codes "smb: create user " ++ u.name) (create_user conf_path u.name u.password w))
    create_users us

  abbrev split_listen : Text → Action World (Text × Text)
  split_listen listen w =
      wrap (codes "smb: invalid listen address " ++ listen) (os.split_host_port listen, w)

  abbrev pub is_portable : Server → Bool
  is_portable s =
      s.cfg.use_portable_server || text_eq (os.base (bin_of s)) (codes "portable-smb-server")

  -- `startPortable`
  unfoldable pub start_portable : Server → Text → Text → Action World Server
  unfolding validate_simple_name validate_path
  start_portable s bin listen = do
    _ ←
        require (is_empty s.extra_users)
          (codes "smb: extra users are not supported by the portable server; use Samba mode")
    address ← split_listen listen
    port ← (λ w. elim (atoi address.1) as (λ x. Outcome ℤ × World) [
      | none ↦ (failed (codes "smb: invalid listen port"), w)
      | some n ↦ (done n, w)
    ])
    _ ← check (codes "smb: ") (validate_simple_name (share_name_of s) (codes "share name"))
    _ ← check (codes "smb: ") (validate_path s.cfg.share_path)
    _ ← (λ w. wrap (codes "smb: start portable-smb-server") (
        os.start_process bin
          (codes "-ip"
            ∷ address.0
            ∷ codes "-port"
            ∷ print_int port
            ∷ codes "-user"
            ∷ s.cfg.user
            ∷ codes "-pass"
            ∷ s.cfg.password
            ∷ codes "-folder"
            ∷ s.cfg.share_path
            ∷ codes "-share"
            ∷ share_name_of s
            ∷ [])
          w))
    return (record s { running = true })

  -- `startSamba`
  unfoldable pub start_samba : Server → Text → Text → Action World Server
  unfolding validate_simple_name validate_path validate_interface listen_interface conf_of
      create_user create_users
  start_samba s bin listen = do
    address ← split_listen listen
    _ ← check (codes "smb: ") (validate_simple_name (share_name_of s) (codes "share name"))
    _ ← check (codes "smb: ") (validate_path s.cfg.share_path)
    _ ← check (codes "smb: ") (validate_interface (listen_interface address.0))
    _ ← (λ w. wrap (codes "smb: write config") (os.write_file conf_path (conf_of s address.0) w))
    _ ← create_users (record { name = s.cfg.user; password = s.cfg.password } ∷ s.extra_users)
    _ ← (λ w. wrap (codes "smb: start smbd") (
        os.start_process bin
          (codes "--foreground" ∷ codes "--no-process-group" ∷ codes "-s" ∷ conf_path ∷ []) w))
    return (record s { running = true; is_samba = true })

  -- `Start`
  unfoldable pub start : Server → Action World Server
  unfolding settings_error start_samba start_portable
  start s =
      let bin = bin_of s in
      let listen = listen_of s in
      if not s.cfg.enabled then return s else (do
        _ ← check [] (settings_error s)
        _ ← (λ w. wrap (codes "smb: mkdir " ++ s.cfg.share_path) (os.mkdir_all s.cfg.share_path w))
        _ ← (λ w. wrap (codes "smb: smbd binary not found at " ++ bin) (os.stat bin w))
        if is_portable s then start_portable s bin listen else start_samba s bin listen)

  -- `AddUser`
  unfoldable pub add_user : Server → Text → Text → Action World (Unit {0})
  unfolding validate_user create_user
  add_user s user password = do
    _ ← require s.is_samba (codes "smb: AddUser only supported in Samba mode")
    _ ← check [] (validate_user user password)
    create_user conf_path user password

  -- `Stop`
  unfoldable pub stop : Server → World → World
  stop s w = if s.running then os.interrupt_and_wait w else w
