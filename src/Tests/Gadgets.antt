-- ===== src/Tests/Gadgets.antt =====
-- A board that boots: the world has the clock, the registers of the two ports, and the controller of the gadget.
use gokrazy_router.Prelude.{
  List, ℕ, ◌+◌, ◌<◌, ◌≡◌, refl, inl, inr, true, false, Option, some, [], ◌∷◌, ◌++◌, arith, ◌==◌,
  if◌then◌else◌, Bool-cases, Text, codes, text_eq, is_space, trim_left, trim_space,
}
use gokrazy_router.Prelude.Action.{failed, done}
use gokrazy_router.Prelude.Poll.{poll}
use gokrazy_router.Net.{Ip, to4}
use gokrazy_router.Net.Value.{IsIp4}
use gokrazy_router.Dhcp.State.{Cidr, Server, new, parse_dns}
use gokrazy_router.Dhcp.Alloc.Invariant.{IsValid, Unique}
use gokrazy_router.Dhcp.Steps.{ParsesIp4}
use gokrazy_router.Usbnet.Bits.{bit}
use gokrazy_router.Usbnet.Gpio.{Port, gpio_set_output, gpio_set_value, setup_hub_pins, led_bit}
use gokrazy_router.Usbnet.Gpio.Pins.{setup_hub_pins_lem}
use gokrazy_router.Usbnet.Gadget
use gokrazy_router.Usbnet.Gadget.{
  gadget_path, udc_path, write_file, run_steps, symlink, find_udc, prepare_gadget, bind_gadget,
  make_gadget, setup_usb_gadget,
}
use gokrazy_router.Usbnet.Gadget.Binding.{Quiet, Bound, setup_usb_gadget-Bound}
use gokrazy_router.Usbnet.Boot.{
  Board, portb_base, set_led, blink, led_blink, led_long_blink, init_led, setup_usb_hub,
  dwc2_matches, set_dwc2_peripheral, wait_for_interface, bring_up_interface, usb_server, bring_up,
  start_board, main,
}
use gokrazy_router.Usbnet.Boot.Ready.{main-Ready}

record Rig : Type 0 where
  time : ℕ
  hub : Port
  led : Port
  controller : Text

abbrev files : Gadget.Host Rig
files = record {
  stat = λ path w. (done tt, w);
  read_file = λ path w. (done w.controller, w);
  mkdir_all = λ path w. (done tt, w);
  write = λ path value w.
      (done tt, (if text_eq path udc_path then record w { controller = value } else w));
  lstat = λ path w. (failed (codes "no such file"), w);
  remove = λ path w. (done tt, w);
  link = λ old new w. (done tt, w);
  read_dir = λ path w. (done (codes "4340000.usb" ∷ []), w);
}

abbrev board : Board Rig
board = record {
  mmap_reg = λ base w. (done tt, w);
  read_port = λ base w. if base == portb_base then w.hub else w.led;
  write_port =
      λ base p w. if base == portb_base then record w { hub = p } else record w { led = p };
  clock = record { now = λ w. w.time; sleep = λ n w. record w { time = w.time + n } };
  files = files;
  glob = λ pattern w. (done [], w);
  interface_by_name = λ name w. (done tt, w);
  run = λ name args w. (done tt, w);
}

abbrev off : Port
off = record { output = 0xc; direction = 0 }

abbrev powered : Rig
powered = record { time = 0; hub = off; led = off; controller = 10 ∷ [] }

program : Unit {0}
unfolding poll to4 new parse_dns bit gpio_set_output gpio_set_value setup_hub_pins write_file
    run_steps symlink find_udc prepare_gadget bind_gadget make_gadget setup_usb_gadget set_led blink
    led_blink led_long_blink init_led setup_usb_hub dwc2_matches set_dwc2_peripheral
    wait_for_interface bring_up_interface usb_server bring_up start_board main text_eq trim_space
    trim_left is_space
program = tt

setup_hub_pins_lem_example :
    (bit (setup_hub_pins off).direction 2 ≡ 1) × (bit (setup_hub_pins off).output 2 ≡ 0)
setup_hub_pins_lem_example = setup_hub_pins_lem off 2

hub_run : setup_hub_pins off ≡ record { output = 2; direction = 14 }
unfolding program
hub_run = refl

files_quiet : Quiet Rig files
files_quiet = record {
  bound = λ w. w.controller;
  stat_quiet = λ path w. refl;
  read_quiet = λ path w. refl;
  mkdir_quiet = λ path w. refl;
  write_quiet = λ path value w h. rw h refl;
  lstat_quiet = λ path w. refl;
  remove_quiet = λ path w. refl;
  link_quiet = λ old new w. refl;
  dir_quiet = λ path w. refl;
}

setup_usb_gadget-Bound_example : Bound files files_quiet powered (setup_usb_gadget files powered)
setup_usb_gadget-Bound_example = setup_usb_gadget-Bound files files_quiet powered

-- the first set-up binds the gadget, the second does nothing
gadget_run :
    let after = (setup_usb_gadget files powered).1 in
    (after.controller ≡ codes "4340000.usb" ++ 10 ∷ [])
    × (setup_usb_gadget files after ≡ (done tt, after))
unfolding program
gadget_run = (refl, refl)

-- the files as they are written, on a system with no gadget yet
abbrev logging : Gadget.Host (List (Text × Text))
logging = record {
  stat = λ path w. (failed (codes "no such file"), w);
  read_file = λ path w. (done [], w);
  mkdir_all = λ path w. (done tt, w);
  write = λ path value w. (done tt, w ++ (path, value) ∷ []);
  lstat = λ path w. (done tt, w);
  remove = λ path w. (done tt, w);
  link = λ old new w. (done tt, w);
  read_dir = λ path w. (done (codes "4340000.usb" ∷ []), w);
}

written_run :
    (setup_usb_gadget logging []).1
    ≡ (codes "/sys/kernel/config/usb_gadget/gokrazy/idVendor", codes "0x3346" ++ 10 ∷ [])
      ∷ (codes "/sys/kernel/config/usb_gadget/gokrazy/idProduct", codes "0x100C" ++ 10 ∷ [])
      ∷ (
        codes "/sys/kernel/config/usb_gadget/gokrazy/strings/0x409/manufacturer",
        codes "gokrazy" ++ 10 ∷ [],
      )
      ∷ (
        codes "/sys/kernel/config/usb_gadget/gokrazy/strings/0x409/product",
        codes "Milk-V Duo USB Ethernet" ++ 10 ∷ [],
      )
      ∷ (
        codes "/sys/kernel/config/usb_gadget/gokrazy/strings/0x409/serialnumber",
        codes "0000000001" ++ 10 ∷ [],
      )
      ∷ (
        codes "/sys/kernel/config/usb_gadget/gokrazy/configs/c.1/strings/0x409/configuration",
        codes "ECM" ++ 10 ∷ [],
      )
      ∷ (codes "/sys/kernel/config/usb_gadget/gokrazy/configs/c.1/MaxPower", codes "120" ++ 10 ∷ [])
      ∷ (codes "/sys/kernel/config/usb_gadget/gokrazy/UDC", codes "4340000.usb" ++ 10 ∷ [])
      ∷ []
unfolding program
written_run = refl

abbrev low : Ip
low = 192 ∷ 168 ∷ 42 ∷ 2 ∷ []

abbrev high : Ip
high = 192 ∷ 168 ∷ 42 ∷ 242 ∷ []

abbrev resolver : Ip
resolver = 1 ∷ 1 ∷ 1 ∷ 1 ∷ []

abbrev parse_ip : Text → Ip
parse_ip t =
    if text_eq t (codes "192.168.42.2")
    then low
    else if text_eq t (codes "192.168.42.242")
    then high
    else resolver

abbrev parse_cidr : Text → Option Cidr
parse_cidr t = some (record {
  address = 192 ∷ 168 ∷ 42 ∷ 1 ∷ [];
  network = record { ip = 192 ∷ 168 ∷ 42 ∷ 0 ∷ []; mask = 255 ∷ 255 ∷ 255 ∷ 0 ∷ [] };
})

ip4 : (d : ℕ) (c b a : ℕ) → d < 256 → c < 256 → b < 256 → a < 256 → IsIp4 (d ∷ c ∷ b ∷ a ∷ [])
ip4 d c b a hd hc hb ha = record { four = refl; bytes = (hd, (hc, (hb, (ha, tt)))) }

parses : ParsesIp4 parse_ip
unfolding to4
parses t = elim (Bool-cases (text_eq t (codes "192.168.42.2"))) [
  | inl e ↦ rw e (inr (ip4 192 168 42 2 (omega arith) (omega arith) (omega arith) (omega arith)))
  | inr e ↦ elim (Bool-cases (text_eq t (codes "192.168.42.242"))) [
    | inl f ↦
        rw (e, f) (inr (ip4 192 168 42 242 (omega arith) (omega arith) (omega arith) (omega arith)))
    | inr f ↦ rw (e, f) (inr (ip4 1 1 1 1 (omega arith) (omega arith) (omega arith) (omega arith)))
  ]
]

abbrev served : Server
served = record {
  iface = codes "usb0";
  server_ip = 192 ∷ 168 ∷ 42 ∷ 1 ∷ [];
  mask = 255 ∷ 255 ∷ 255 ∷ 0 ∷ [];
  range_start = low;
  range_end = high;
  dns = resolver ∷ resolver ∷ [];
  lease = 3600;
  router = 192 ∷ 168 ∷ 42 ∷ 1 ∷ [];
  leases = [];
  next_ip = low;
  reservations = [];
  pxe_boot_server = [];
  pxe_boot_file = [];
  mac_pxe_boot_files = [];
  ipxe_boot_file = [];
  uefi_boot_file = [];
  legacy_boot_file = [];
  on_lease = false;
  on_lease_expired = false;
}

abbrev ready : Rig
ready = record {
  time = 10800;
  hub = record { output = 2; direction = 14 };
  led = record { output = 0x100000c; direction = 0x1000000 };
  controller = codes "4340000.usb" ++ 10 ∷ [];
}

-- the start takes eleven seconds where nothing has to be waited for
main_run : main board parse_ip parse_cidr 3600 powered ≡ (done served, ready)
unfolding program
main_run = refl

kept : (base : ℕ) (p : Port) (w : Rig) → board.read_port base (board.write_port base p w) ≡ p
kept base p w = elim (Bool-cases (base == portb_base)) [ inl e ↦ rw e refl | inr e ↦ rw e refl ]

main-Ready_example :
    IsValid served
    × ((now : ℕ) → Unique now served.leases)
    × (served.leases ≡ [])
    × ((start_board board parse_ip parse_cidr 3600 powered).0 ≡ true
        → bit ready.led.output led_bit ≡ 1)
main-Ready_example =
    main-Ready board kept parse_ip parse_cidr 3600 powered ready served
      (parses, unfold program in refl, unfold program in refl) main_run

-- the three blinks that are meant to show the start come before the LED is mapped: they switch nothing
dark_run : (led_blink board false 3 powered).led ≡ off
unfolding program
dark_run = refl
