-- ===== src/Usbnet/Boot.antt =====
-- The start of cmd/milkv-usbnet/main.go: the LED that shows how far it got, the hub, the gadget, the interface
-- and its DHCP server. `log.Fatal` is the failure of the action; what is logged is left out.
pub mod Ready
use gokrazy_router.Prelude.{
  ℕ, zero, suc, ◌+◌, ◌*◌, ◌/◌, Bool, true, false, not, Option, List, [], ◌∷◌, ◌++◌, if◌then◌else◌,
  Text, codes,
}
use gokrazy_router.Prelude.Action.{Action, Outcome, failed, done, wrap, and_then, ◌>>=◌, return}
use gokrazy_router.Prelude.Poll.{Clock, poll}
use gokrazy_router.Net.{Ip}
use gokrazy_router.Dhcp.State.{Cidr, Result, ok, err, Server, new}
use gokrazy_router.Usbnet.Gpio.{Port, gpio_set_output, gpio_set_value, setup_hub_pins, led_bit}
use gokrazy_router.Usbnet.Gadget

-- the mapping of registers by their address, the registers of a mapped region, the clock, the files, the lookup
-- of an interface and the commands
pub record Board (World : Type 0) : Type 0 where
  pub mmap_reg : ℕ → Action World (Unit {0})
  pub read_port : ℕ → World → Port
  pub write_port : ℕ → Port → World → World
  pub clock : Clock World
  pub files : Gadget.Host World
  pub glob : Text → Action World (List Text)
  pub interface_by_name : Text → Action World (Unit {0})
  pub run : Text → List Text → Action World (Unit {0})

abbrev pub portb_base : ℕ
portb_base = 0x3021000

abbrev pub portc_base : ℕ
portc_base = 0x3022000

module _ {World : Type 0} (board : Board World) where
  -- a change of the registers of a region
  abbrev on_port : ℕ → (Port → Port) → World → World
  on_port base change w = board.write_port base (change (board.read_port base w)) w

  -- `ledOn` and `ledOff`; nothing happens before the registers are mapped
  unfoldable pub set_led : Bool → Bool → World → World
  unfolding gpio_set_value
  set_led mapped lit w = if mapped then on_port portc_base (gpio_set_value led_bit lit) w else w

  -- `ledBlink` and `ledLongBlink`, which differ in their times
  unfoldable pub blink : ℕ → ℕ → Bool → ℕ → World → World
  unfolding set_led
  blink lit dark mapped zero w = w
  blink lit dark mapped (suc n) w =
      let on = board.clock.sleep lit (set_led mapped true w) in
      blink lit dark mapped n (board.clock.sleep dark (set_led mapped false on))

  unfoldable pub led_blink : Bool → ℕ → World → World
  unfolding blink
  led_blink = blink 150 150

  unfoldable pub led_long_blink : Bool → ℕ → World → World
  unfolding blink
  led_long_blink = blink 600 300

  -- what follows `mmapReg` in `initLED`
  abbrev pub after_led : Outcome (Unit {0}) × World → Bool × World
  after_led (failed e, w) = (false, w)
  after_led (done u, w) = (true, on_port portc_base (gpio_set_output led_bit) w)

  -- `initLED`
  unfoldable pub init_led : World → Bool × World
  unfolding gpio_set_output
  init_led w = after_led (board.mmap_reg portc_base w)

  -- what follows `mmapReg` in `setupUSBHub`; the error of the role switch is not looked at
  abbrev pub after_hub : Outcome (Unit {0}) × World → Bool × World
  after_hub (failed e, w) = (false, w)
  after_hub (done u, w) = (
    true,
    (board.files.write (codes "/proc/cviusb/otg_role") (codes "device" ++ 10 ∷ [])
        (on_port portb_base setup_hub_pins w)).1,
  )

  -- `setupUSBHub`
  unfoldable pub setup_usb_hub : World → Bool × World
  unfolding setup_hub_pins
  setup_usb_hub w = after_hub (board.mmap_reg portb_base w)

  -- the files that match the first pattern with any, in `setDWC2Peripheral`
  abbrev matches_or : (World → List Text × World) → Outcome (List Text) × World → List Text × World
  matches_or next (failed e, w) = next w
  matches_or next (done [], w) = next w
  matches_or next (done (f ∷ fs), w) = (f ∷ fs, w)

  unfoldable pub dwc2_matches : World → List Text × World
  dwc2_matches w =
      let third = λ (w2 : World).
        matches_or (λ w3. ([], w3)) (board.glob (codes "/sys/devices/platform/*/usb/mode") w2) in
      let second = λ (w1 : World).
        matches_or third (board.glob (codes "/sys/devices/platform/soc/*/dwc2*/mode") w1) in
      matches_or second (board.glob (codes "/sys/devices/platform/*/dwc2*/mode") w)

  abbrev write_mode : List Text × World → World
  write_mode ([], w) = w
  write_mode (file ∷ files, w) = (board.files.write file (codes "peripheral") w).1

  -- `setDWC2Peripheral`
  unfoldable pub set_dwc2_peripheral : World → World
  unfolding dwc2_matches
  set_dwc2_peripheral w = write_mode (dwc2_matches w)

  -- `waitForInterface`
  unfoldable pub wait_for_interface : Text → ℕ → Action World (Unit {0})
  unfolding poll
  wait_for_interface name timeout w =
      poll board.clock (board.interface_by_name name) 200
        (codes "interface " ++ name ++ codes " did not appear") (board.clock.now w + timeout)
        (timeout / 200 + 1) w

  -- `bringUpInterface`
  unfoldable pub bring_up_interface : Text → Text → Action World (Unit {0})
  bring_up_interface iface cidr = do
    _ ← (λ w.
        wrap (codes "ip addr add")
          (board.run (codes "ip") (codes "addr" ∷ codes "add" ∷ cidr ∷ codes "dev" ∷ iface ∷ []) w))
    (λ w.
        wrap (codes "ip link set up")
          (board.run (codes "ip") (codes "link" ∷ codes "set" ∷ iface ∷ codes "up" ∷ []) w))

  abbrev checked : Result Server → Outcome Server
  checked (ok srv) = done srv
  checked (err e) = failed e

  module _ (parse_ip : Text → Ip) (parse_cidr : Text → Option Cidr) (hour : ℕ) where
    -- the server of `main`
    unfoldable pub usb_server : Result Server
    unfolding new
    usb_server =
        new parse_ip parse_cidr (codes "usb0") (codes "192.168.42.1/24") (codes "192.168.42.2")
          (codes "192.168.42.242") (codes "1.1.1.1" ∷ codes "8.8.8.8" ∷ []) hour

    -- `main` from the gadget on; the LED is mapped or not
    unfoldable pub bring_up : Bool → Action World Server
    unfolding led_long_blink wait_for_interface bring_up_interface usb_server
    bring_up led = do
      _ ← Gadget.setup_usb_gadget board.files
      _ ← (λ w. wait_for_interface (codes "usb0") 10000 (led_long_blink led 2 w))
      _ ← bring_up_interface (codes "usb0") (codes "192.168.42.1/24")
      srv ← (λ w. (checked usb_server, w))
      (λ w. (done srv, set_led led true (led_long_blink led 3 w)))

    -- the LED and the hub, whose failures are passed over
    unfoldable pub start_board : World → Bool × World
    unfolding led_blink led_long_blink init_led setup_usb_hub set_dwc2_peripheral
    start_board w =
        let led = init_led (led_blink false 3 (board.clock.sleep 3000 w)) in
        let hub = setup_usb_hub (if led.0 then led_blink true 5 led.1 else led.1) in
        (led.0, set_dwc2_peripheral (if hub.0 then led_long_blink led.0 1 hub.1 else hub.1))

    -- `main` up to the run of the server
    unfoldable pub main : Action World Server
    unfolding start_board bring_up
    main w = let started = start_board w in bring_up started.0 started.1
