-- ===== src/Usbnet/Boot/Ready.antt =====
-- What a start of cmd/milkv-usbnet/main.go that succeeds leaves behind.
use gokrazy_router.Prelude.{ℕ, ◌≡◌, sym, ap, ◌∙◌, Bool, true, Option, [], ◌∷◌, arith, Text, codes}
use gokrazy_router.Prelude.Action.{Outcome, done, and_then-eq-done, done_inj}
use mathlib.Core.Path.{subst}
use gokrazy_router.Net.{Ip, to4}
use gokrazy_router.Net.Value.{value}
use gokrazy_router.Dhcp.Alloc.Invariant.{IsValid, Unique}
use gokrazy_router.Dhcp.Steps.{ParsesIp4}
use gokrazy_router.Dhcp.Start.{Holds, new-IsValid}
use gokrazy_router.Dhcp.State.{Cidr, Result, ok, err, Server}
use gokrazy_router.Usbnet.Bits.{bit}
use gokrazy_router.Usbnet.Gpio.{Port, gpio_set_value, led_bit}
use gokrazy_router.Usbnet.Gpio.Pins.{output-gpio_set_value}
use gokrazy_router.Usbnet.Gadget
use gokrazy_router.Usbnet.Boot.{
  Board, portc_base, set_led, led_long_blink, wait_for_interface, bring_up_interface, checked,
  usb_server, bring_up, start_board, main,
}

module _ {World : Type 0} (board : Board World)
    (kept : (base : ℕ) (p : Port) (w : World)
      → board.read_port base (board.write_port base p w) ≡ p) where
  -- the LED pin after it is switched
  set_led-bit :
      (w : World) → bit (board.read_port portc_base (set_led board true true w)).output led_bit ≡ 1
  unfolding set_led
  set_led-bit w =
      ap (λ p. bit p.output led_bit)
        (kept portc_base (gpio_set_value led_bit true (board.read_port portc_base w)) w)
      ∙ output-gpio_set_value led_bit led_bit true (board.read_port portc_base w) (omega arith)

  checked-done :
      (r : Result Server) (srv : Server) (w w2 : World)
      → Path (Outcome Server × World) (checked board r, w) (done srv, w2)
      → r ≡ ok srv
  checked-done (ok s) srv w w2 h = ap ok (done_inj h).0
  checked-done (err e) srv w w2 h = absurd cc

  module _ (parse_ip : Text → Ip) (parse_cidr : Text → Option Cidr) (hour : ℕ) where
    bring_up-Ready :
        (led : Bool) (w w2 : World) (srv : Server)
        → bring_up board parse_ip parse_cidr hour led w ≡ (done srv, w2)
        → (usb_server board parse_ip parse_cidr hour ≡ ok srv)
          × (w1 : World) × (w2 ≡ set_led board led true w1)
    unfolding bring_up
    bring_up-Ready led w w2 srv h =
        let (u1, w3, e1, h1) = and_then-eq-done (Gadget.setup_usb_gadget board.files w) _ h in
        let (u2, w4, e2, h2) =
          and_then-eq-done
            (wait_for_interface board (codes "usb0") 10000 (led_long_blink board led 2 w3)) _ h1 in
        let (u3, w5, e3, h3) =
          and_then-eq-done (bring_up_interface board (codes "usb0") (codes "192.168.42.1/24") w4) _
            h2 in
        let (s, w6, e4, h4) =
          and_then-eq-done (checked board (usb_server board parse_ip parse_cidr hour), w5) _ h3 in
        (
          checked-done (usb_server board parse_ip parse_cidr hour) srv w5 w6
              (rw (done_inj h4).0 at e4),
          led_long_blink board led 3 w6,
          sym (done_inj h4).1,
        )

    -- the addresses of the pool, as `net.ParseIP` gives them
    abbrev pub ParsesPool : Type 0
    ParsesPool =
        ParsesIp4 parse_ip
        × (parse_ip (codes "192.168.42.2") ≡ 192 ∷ 168 ∷ 42 ∷ 2 ∷ [])
        × (parse_ip (codes "192.168.42.242") ≡ 192 ∷ 168 ∷ 42 ∷ 242 ∷ [])

    usb_server-IsValid :
        (srv : Server)
        → ParsesPool
        → usb_server board parse_ip parse_cidr hour ≡ ok srv
        → IsValid srv × ((now : ℕ) → Unique now srv.leases) × (srv.leases ≡ [])
    unfolding usb_server to4 value
    usb_server-IsValid srv (parses, first, last) h =
        let valid =
          new-IsValid parse_ip parse_cidr (codes "usb0") (codes "192.168.42.1/24")
            (codes "192.168.42.2") (codes "192.168.42.242") (codes "1.1.1.1" ∷ codes "8.8.8.8" ∷ [])
            hour parses (rw (first, last) (omega arith)) (rw last (omega arith)) in
        subst (Holds (λ s. IsValid s × ((now : ℕ) → Unique now s.leases) × (s.leases ≡ []))) h valid

    -- Where a register is read as it was last written, and `net.ParseIP` reads the ends of the pool: after a
    -- start that succeeds the DHCP server is well-formed and has no leases, and the pin of the LED is
    -- on where its registers are mapped.
    pub main-Ready :
        (w w2 : World) (srv : Server)
        → ParsesPool
        → main board parse_ip parse_cidr hour w ≡ (done srv, w2)
        → IsValid srv
          × ((now : ℕ) → Unique now srv.leases)
          × (srv.leases ≡ [])
          × ((start_board board parse_ip parse_cidr hour w).0 ≡ true
              → bit (board.read_port portc_base w2).output led_bit ≡ 1)
    unfolding main
    main-Ready w w2 srv parses h =
        let started = start_board board parse_ip parse_cidr hour w in
        let (u, w1, e) = bring_up-Ready started.0 started.1 w2 srv h in
        (
          (usb_server-IsValid srv parses u).0,
          (usb_server-IsValid srv parses u).1,
          (usb_server-IsValid srv parses u).2,
          λ lit.
              ap (λ x. bit (board.read_port portc_base x).output led_bit)
                (e ∙ ap (λ b. set_led board b true w1) lit)
              ∙ set_led-bit w1,
        )
