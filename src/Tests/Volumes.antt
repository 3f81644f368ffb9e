-- ===== src/Tests/Volumes.antt =====
-- A disk that appears after a second, and a host that mounts it.
use gokrazy_router.Prelude.{
  ℕ, ◌+◌, ◌≡◌, refl, ◌⊎◌, true, false, List, [], ◌∷◌, arith, leb, if◌then◌else◌, Text, codes,
  text_eq, is_space,
}
use gokrazy_router.Prelude.Action.{failed, done}
use gokrazy_router.Prelude.Template.{split_lines}
use gokrazy_router.Prelude.Space.{fields}
use gokrazy_router.Config.{MountConfig}
use gokrazy_router.Mount.{
  Host, clock, names_target, listed, mount_args, wait_for_device, is_mounted, mount_unless,
  mount_device, mount, unmount_if, unmount,
}
use gokrazy_router.Prelude.Poll.{Ending, poll}
use gokrazy_router.Mount.Wait.{wait_for_device-Ending}
use gokrazy_router.Mount.Commands.{History, Skipped, Ran, mount-Ending}

-- the clock, the table of mounts and the commands run
abbrev Machine : Type 0
Machine = ℕ × Text × List (Text × List Text)

abbrev disk : Host Machine
disk = record {
  now = λ w. w.0;
  sleep = λ n w. (w.0 + n, w.1, w.2);
  stat = λ path w. (if leb 1000 w.0 then done tt else failed (codes "no such file"), w);
  mkdir_all = λ path w. (done tt, w);
  read_file = λ path w. (done w.1, w);
  run =
      λ name args w. (done tt, (w.0, codes "/dev/sda1 /mnt/data ext4 rw 0 0", (name, args) ∷ w.2));
}

abbrev disk_history : History Machine disk
disk_history = record {
  commands = λ w. w.2;
  sleep_quiet = λ n w. refl;
  stat_quiet = λ path w. refl;
  mkdir_quiet = λ path w. refl;
  read_quiet = λ path w. refl;
  run_adds = λ name args w. refl;
}

abbrev volume : MountConfig
volume = record {
  enabled = true;
  device = codes "/dev/sda1";
  fs_type = [];
  target = codes "/mnt/data";
  options = codes "noatime";
}

abbrev booted : Machine
booted = (0, codes "proc /proc proc rw 0 0", [])

program : Unit {0}
unfolding fields is_space names_target listed mount_args poll wait_for_device is_mounted
    mount_unless mount_device mount unmount_if unmount split_lines text_eq
program = tt

wait_for_device-Ending_example :
    Ending
      (clock disk)
      (disk.stat (codes "/dev/sda1"))
      500
      (codes "timeout waiting for /dev/sda1")
      30000
      (wait_for_device disk (codes "/dev/sda1") 30000 booted)
wait_for_device-Ending_example =
    wait_for_device-Ending disk (λ path w. omega arith) (λ n w. omega arith) (codes "/dev/sda1")
      30000 booted

mount-Ending_example :
    Skipped disk disk_history volume booted (mount disk volume booted)
    ⊎ Ran disk disk_history volume booted (mount disk volume booted)
mount-Ending_example = mount-Ending disk disk_history volume booted

-- one command, after a wait of a second
mount_run :
    let after = (mount disk volume booted).1 in
    (after.0 ≡ 1000)
    × (after.2
        ≡ (
          codes "mount",
          codes "-t"
              ∷ codes "auto"
              ∷ codes "-o"
              ∷ codes "noatime"
              ∷ codes "/dev/sda1"
              ∷ codes "/mnt/data"
              ∷ [],
        )
          ∷ [])
unfolding program
mount_run = (refl, refl)

-- a second mount runs nothing, and the way back is `umount`
again_run :
    let after = (mount disk volume booted).1 in
    (mount disk volume after ≡ (done tt, after))
    × ((unmount disk volume after).1.2 ≡ (codes "umount", codes "/mnt/data" ∷ []) ∷ after.2)
unfolding program
again_run = (refl, refl)

-- the table writes a space as `\\040`, so a target with a space is not found in it
space_run :
    listed (codes "/mnt/my data") (codes "/dev/sda1 /mnt/my\\\\040data ext4 rw 0 0" ∷ []) ≡ false
unfolding program
space_run = refl
