-- ===== src/Usbnet/Gadget.antt =====
-- The USB gadget of cmd/milkv-usbnet/main.go: the files of configfs, and the binding to a controller. The calls
-- of the operating system are parameters.
pub mod Binding
use gokrazy_router.Prelude.{
  ◌+◌, ◌-◌, ◌/◌, List, [], ◌∷◌, ◌++◌, if◌then◌else◌, Text, codes, is_empty, trim_space,
}
use gokrazy_router.Prelude.Action.{Action, Outcome, failed, done, wrap, and_then, ◌>>=◌, return}

-- `os.Stat`, `ReadFile`, `MkdirAll`, `WriteFile`, `Lstat`, `Remove`, `Symlink`, and the names of `ReadDir`
pub record Host (World : Type 0) : Type 0 where
  pub stat : Text → Action World (Unit {0})
  pub read_file : Text → Action World Text
  pub mkdir_all : Text → Action World (Unit {0})
  pub write : Text → Text → Action World (Unit {0})
  pub lstat : Text → Action World (Unit {0})
  pub remove : Text → Action World (Unit {0})
  pub link : Text → Text → Action World (Unit {0})
  pub read_dir : Text → Action World (List Text)

abbrev pub gadget_path : Text
gadget_path = codes "/sys/kernel/config/usb_gadget/gokrazy"

-- `filepath.Join(gadgetPath, name)`, of a name that is clean
abbrev pub in_gadget : Text → Text
in_gadget name = gadget_path ++ b'/' ∷ name

abbrev pub udc_path : Text
udc_path = in_gadget (codes "UDC")

-- a call of `setupUSBGadget`, with the directory of the file that `writeFile` makes first
pub data Step : Type 0 where
  make_dir : Text → Text → Step
  -- the error of this one is not looked at
  try_dir : Text → Step
  write_in : Text → Text → Text → Text → Step

abbrev line : Text → Text
line value = value ++ 10 ∷ []

abbrev file_step : Text → Text → Text → Text → Step
file_step context dir name value = write_in context dir (dir ++ b'/' ∷ name) (line value)

-- the calls up to the symbolic link, in their order
abbrev pub gadget_steps : List Step
gadget_steps =
    let strings = in_gadget (codes "strings/0x409") in
    let config = in_gadget (codes "configs/c.1") in
    let config_strings = in_gadget (codes "configs/c.1/strings/0x409") in
    make_dir (codes "mkdir gadget") gadget_path
    ∷ file_step (codes "idVendor") gadget_path (codes "idVendor") (codes "0x3346")
    ∷ file_step (codes "idProduct") gadget_path (codes "idProduct") (codes "0x100C")
    ∷ make_dir (codes "mkdir strings") strings
    ∷ file_step (codes "manufacturer") strings (codes "manufacturer") (codes "gokrazy")
    ∷ file_step (codes "product") strings (codes "product") (codes "Milk-V Duo USB Ethernet")
    ∷ file_step (codes "serial") strings (codes "serialnumber") (codes "0000000001")
    ∷ make_dir (codes "mkdir ecm function") (in_gadget (codes "functions/ecm.usb0"))
    ∷ make_dir (codes "mkdir config") config
    ∷ try_dir config_strings
    ∷ file_step (codes "config string") config_strings (codes "configuration") (codes "ECM")
    ∷ file_step (codes "maxpower") config (codes "MaxPower") (codes "120")
    ∷ []

module _ {World : Type 0} (host : Host World) where
  -- `writeFile`, with the directory of the path
  unfoldable pub write_file : Text → Text → Text → Action World (Unit {0})
  write_file dir path value = do _ ← host.mkdir_all dir; host.write path value

  abbrev pub run_step : Step → Action World (Unit {0})
  run_step (make_dir context dir) w = wrap context (host.mkdir_all dir w)
  run_step (try_dir dir) w = (done tt, (host.mkdir_all dir w).1)
  run_step (write_in context dir path value) w = wrap context (write_file dir path value w)

  unfoldable pub run_steps : List Step → Action World (Unit {0})
  unfolding write_file
  run_steps [] = return tt
  run_steps (step ∷ steps) = do _ ← run_step step; run_steps steps

  -- what follows `Lstat`: a link that is there is removed
  abbrev pub after_lstat : Text → Outcome (Unit {0}) × World → World
  after_lstat path (done u, w) = (host.remove path w).1
  after_lstat path (failed e, w) = w

  -- `symlink`
  unfoldable pub symlink : Text → Text → Action World (Unit {0})
  symlink old new w = host.link old new (after_lstat new (host.lstat new w))

  -- the first entry of `findUDC`
  abbrev pub first_udc : List Text → Action World Text
  first_udc [] w = (failed (codes "no UDC available"), w)
  first_udc (name ∷ names) w = (done name, w)

  -- `findUDC`
  unfoldable pub find_udc : Action World Text
  find_udc = do
    names ← (λ w. wrap (codes "read /sys/class/udc") (host.read_dir (codes "/sys/class/udc") w))
    first_udc names

  -- the link of the function, and the controller
  unfoldable pub prepare_gadget : Action World Text
  unfolding symlink find_udc
  prepare_gadget = do
    _ ← run_steps gadget_steps
    _ ← (λ w. wrap (codes "symlink ecm") (
        symlink (in_gadget (codes "functions/ecm.usb0")) (in_gadget (codes "configs/c.1/ecm.usb0"))
          w))
    (λ w. wrap (codes "find UDC") (find_udc w))

  -- the write that binds the gadget to a controller
  unfoldable pub bind_gadget : Text → Action World (Unit {0})
  unfolding write_file
  bind_gadget udc w = wrap (codes "write UDC") (write_file gadget_path udc_path (line udc) w)

  -- the gadget is made and bound where it is not active
  unfoldable pub make_gadget : Action World (Unit {0})
  unfolding prepare_gadget bind_gadget
  make_gadget = do udc ← prepare_gadget; bind_gadget udc

  -- what follows the read of `UDC`
  abbrev pub after_udc : Outcome Text × World → Outcome (Unit {0}) × World
  after_udc (failed e, w) = make_gadget w
  after_udc (done text, w) = if is_empty (trim_space text) then make_gadget w else (done tt, w)

  -- what follows `Stat`
  abbrev pub after_stat : Outcome (Unit {0}) × World → Outcome (Unit {0}) × World
  after_stat (failed e, w) = make_gadget w
  after_stat (done u, w) = after_udc (host.read_file udc_path w)

  -- `setupUSBGadget`
  unfoldable pub setup_usb_gadget : Action World (Unit {0})
  unfolding make_gadget
  setup_usb_gadget w = after_stat (host.stat udc_path w)
