-- ===== src/Smb.antt =====
-- pkg/smb/smb.go: the configuration file, the users and the processes of the SMB server.
-- Files, processes and `net.SplitHostPort` are parameters, which act on a world of their own.
pub mod Validate
pub mod Conf
pub mod Start
use gokrazy_router.Prelude.{
  ℕ, ◌+◌, Bool, true, false, not, ◌&&◌, ◌||◌, Option, none, some, List, [], ◌∷◌, ◌++◌, map, ltb,
  leb, ◌==◌, if◌then◌else◌, length, Text, codes, text_eq, is_empty, ℤ,
}
use gokrazy_router.Prelude.Action.{
  Action, Outcome, failed, done, wrap, and_then, ◌>>=◌, return, fail,
}
use gokrazy_router.Prelude.Decimal.{atoi, print_int}
use gokrazy_router.Config.{SmbConfig, SmbUser}

-- what starts a command and waits for its end
pub data Exit : Type 0 where
  success : Exit
  exit_error : Text → Exit

-- the files and processes of the host; `run` gives a command its arguments, an entry of the environment and its input
pub record Host (World : Type 0) : Type 0 where
  pub mkdir_all : Text → Action World (Unit {0})
  pub stat : Text → Action World (Unit {0})
  pub write_file : Text → Text → Action World (Unit {0})
  pub run : Text → List Text → Text → Text → Action World Exit
  pub start_process : Text → List Text → Action World (Unit {0})
  pub interrupt_and_wait : World → World
  pub split_host_port : Text → Outcome (Text × Text)
  pub base : Text → Text

-- `Server`
pub record Server : Type 0 where
  pub cfg : SmbConfig
  pub running : Bool
  pub is_samba : Bool
  pub extra_users : List SmbUser

-- `New`
unfoldable pub new : SmbConfig → Server
new cfg = record { cfg = cfg; running = false; is_samba = false; extra_users = [] }

unfoldable pub set_extra_users : Server → List SmbUser → Server
set_extra_users s users = record s { extra_users = users }
