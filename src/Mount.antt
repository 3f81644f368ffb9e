-- ===== src/Mount.antt =====
-- pkg/mount/mount.go: the wait for a block device, and its mount. The clock, the files and the commands of
-- the system are parameters.
pub mod Wait
pub mod Commands
use gokrazy_router.Prelude.{
  ℕ, ◌+◌, ◌-◌, ◌/◌, Bool, true, false, not, ◌||◌, List, [], ◌∷◌, ◌++◌, if◌then◌else◌, Text, codes,
  text_eq, is_empty,
}
use gokrazy_router.Prelude.Action.{Action, Outcome, failed, done, wrap, and_then, ◌>>=◌, return}
use gokrazy_router.Prelude.Template.{split_lines}
use gokrazy_router.Prelude.Space.{fields}
use gokrazy_router.Prelude.Poll.{Clock, poll}
use gokrazy_router.Config.{MountConfig}

-- `time.Now` in milliseconds, `time.Sleep`, `os.Stat`, `MkdirAll`, `ReadFile`, and the run of a command
pub record Host (World : Type 0) : Type 0 where
  pub now : World → ℕ
  pub sleep : ℕ → World → World
  pub stat : Text → Action World (Unit {0})
  pub mkdir_all : Text → Action World (Unit {0})
  pub read_file : Text → Action World Text
  pub run : Text → List Text → Action World (Unit {0})

-- the test of a line in `isMounted`
unfoldable pub names_target : Text → List Text → Bool
names_target target (device ∷ point ∷ kind ∷ rest) = text_eq point target
names_target target _ = false

-- the loop of `isMounted`
unfoldable pub listed : Text → List Text → Bool
unfolding names_target fields
listed target [] = false
listed target (line ∷ lines) = names_target target (fields line) || listed target lines

-- the arguments of `mount`; no type is the type `auto`
unfoldable pub mount_args : MountConfig → List Text
mount_args cfg =
    let kind = if is_empty cfg.fs_type then codes "auto" else cfg.fs_type in
    let options = if is_empty cfg.options then [] else codes "-o" ∷ cfg.options ∷ [] in
    codes "-t" ∷ kind ∷ options ++ cfg.device ∷ cfg.target ∷ []

module _ {World : Type 0} (host : Host World) where
  abbrev pub clock : Clock World
  clock = record { now = host.now; sleep = host.sleep }

  -- `waitForDevice`, whose loop sleeps half a second each time
  unfoldable pub wait_for_device : Text → ℕ → Action World (Unit {0})
  unfolding poll
  wait_for_device device timeout w =
      poll clock (host.stat device) 500 (codes "timeout waiting for " ++ device)
        (host.now w + timeout) (timeout / 500 + 1) w

  -- `isMounted`
  unfoldable pub is_mounted : Text → Action World Bool
  unfolding listed split_lines
  is_mounted target = do
    data_read ← host.read_file (codes "/proc/mounts")
    return (listed target (split_lines data_read))

  -- what `Mount` does after `isMounted`
  unfoldable pub mount_unless : MountConfig → Bool → Action World (Unit {0})
  unfolding mount_args
  mount_unless cfg true w = (done tt, w)
  mount_unless cfg false w =
      wrap (codes "mount: mount " ++ cfg.device ++ codes " to " ++ cfg.target ++ codes " failed")
        (host.run (codes "mount") (mount_args cfg) w)

  -- `Mount` of a configuration that is complete
  unfoldable pub mount_device : MountConfig → Action World (Unit {0})
  unfolding wait_for_device is_mounted mount_unless
  mount_device cfg = do
    _ ← (λ w.
        wrap (codes "mount: device " ++ cfg.device ++ codes " not ready")
          (wait_for_device cfg.device 30000 w))
    _ ← (λ w. wrap (codes "mount: mkdir " ++ cfg.target) (host.mkdir_all cfg.target w))
    mounted ← (λ w. wrap (codes "mount: check " ++ cfg.target) (is_mounted cfg.target w))
    mount_unless cfg mounted

  -- `Mount`
  unfoldable pub mount : MountConfig → Action World (Unit {0})
  unfolding mount_device
  mount cfg w =
      if not cfg.enabled
      then (done tt, w)
      else if is_empty cfg.device
      then (failed (codes "mount: device not configured"), w)
      else if is_empty cfg.target
      then (failed (codes "mount: target not configured"), w)
      else mount_device cfg w

  -- what `Unmount` does after `isMounted`
  unfoldable pub unmount_if : MountConfig → Outcome Bool × World → Outcome (Unit {0}) × World
  unmount_if cfg (failed e, w) = (done tt, w)
  unmount_if cfg (done false, w) = (done tt, w)
  unmount_if cfg (done true, w) =
      wrap (codes "mount: umount " ++ cfg.target) (host.run (codes "umount") (cfg.target ∷ []) w)

  -- `Unmount`
  unfoldable pub unmount : MountConfig → Action World (Unit {0})
  unfolding is_mounted unmount_if
  unmount cfg w =
      if not cfg.enabled || is_empty cfg.target
      then (done tt, w)
      else unmount_if cfg (is_mounted cfg.target w)
