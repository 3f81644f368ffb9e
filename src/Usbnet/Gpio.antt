-- ===== src/Usbnet/Gpio.antt =====
-- The GPIO registers of cmd/milkv-usbnet/main.go: the LED and the USB hub. Of a mapped region the code reads and
-- writes two words of 32 bits, the data and the direction.
use Prim.Native.Nat.{bit_or, bit_and, bit_xor}
pub mod Pins
use gokrazy_router.Prelude.{ℕ, ◌%◌, ◌^◌, Bool, true, false}

-- the words at `gpioSWPortData` and `gpioSWPortDDR`
pub record Port : Type 0 where
  pub output : ℕ
  pub direction : ℕ

-- `1 << offset` as an unsigned integer of 32 bits
abbrev pub mask : ℕ → ℕ
mask offset = (2 ^ offset) % 2 ^ 32

-- `gpioSetOutput`
unfoldable pub gpio_set_output : ℕ → Port → Port
gpio_set_output offset p = record p { direction = bit_or p.direction (mask offset) }

-- `gpioSetValue`; `a &^ b` clears in `a` the bits that `a` and `b` share
unfoldable pub gpio_set_value : ℕ → Bool → Port → Port
gpio_set_value offset true p = record p { output = bit_or p.output (mask offset) }
gpio_set_value offset false p = record p {
  output = bit_xor p.output (bit_and p.output (mask offset));
}

-- the calls of `setupUSBHub` on the registers of port B
unfoldable pub setup_hub_pins : Port → Port
unfolding gpio_set_output gpio_set_value
setup_hub_pins p =
    let outputs = gpio_set_output 3 (gpio_set_output 2 (gpio_set_output 1 p)) in
    gpio_set_value 3 false (gpio_set_value 2 false (gpio_set_value 1 true outputs))

abbrev pub led_bit : ℕ
led_bit = 24
