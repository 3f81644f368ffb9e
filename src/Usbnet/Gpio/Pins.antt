-- ===== src/Usbnet/Gpio/Pins.antt =====
-- The pins of a port, after the calls of cmd/milkv-usbnet/main.go.
use Prim.Native.Nat.{min, differ, bit_or, bit_and, bit_xor}
use gokrazy_router.Prelude.{
  ℕ, zero, suc, ◌^◌, ◌<◌, ◌≡◌, refl, ap, ◌∙◌, inl, inr, Bool, true, false, ◌||◌, arith, ◌==◌,
  if◌then◌else◌, Bool-cases,
}
use gokrazy_router.Usbnet.Bits.{
  bit, bit-lt-two, bit-bit_or, bit-bit_and, bit-bit_xor, bit-pow, pow-lt-pow_right,
}
use gokrazy_router.Usbnet.Gpio.{Port, mask, gpio_set_value, setup_hub_pins}

bit-mask : (k j : ℕ) → k < 32 → bit (mask k) j ≡ (if k == j then 1 else 0)
bit-mask k j h =
    let e : mask k ≡ 2 ^ k = grind (arith, pow-lt-pow_right k 32 h) in rw e (bit-pow k j)

-- setting a bit, and clearing one
bit-bit_or_mask : (a k j : ℕ) → k < 32 → bit (bit_or a (mask k)) j ≡ (if k == j then 1 else bit a j)
bit-bit_or_mask a k j h = ground (arith, bit-bit_or a (mask k) j, bit-mask k j h, bit-lt-two a j)

differ-min-one : (x : ℕ) → x < 2 → differ x (min x 1) ≡ 0
differ-min-one zero h = refl
differ-min-one (suc zero) h = refl
differ-min-one (suc (suc x)) h = absurd (omega arith)

differ-min-zero : (x : ℕ) → x < 2 → differ x (min x 0) ≡ x
differ-min-zero zero h = refl
differ-min-zero (suc zero) h = refl
differ-min-zero (suc (suc x)) h = absurd (omega arith)

bit-bit_clear_mask :
    (a k j : ℕ) → k < 32 → bit (bit_xor a (bit_and a (mask k))) j ≡ (if k == j then 0 else bit a j)
bit-bit_clear_mask a k j h =
    let cleared : bit (bit_xor a (bit_and a (mask k))) j
        ≡ differ (bit a j) (min (bit a j) (bit (mask k) j)) =
      bit-bit_xor a (bit_and a (mask k)) j ∙ ap (differ (bit a j)) (bit-bit_and a (mask k) j) in
    elim (Bool-cases (k == j)) [
      | inl e ↦ rw (cleared, bit-mask k j h, e) (differ-min-one (bit a j) (bit-lt-two a j))
      | inr e ↦ rw (cleared, bit-mask k j h, e) (differ-min-zero (bit a j) (bit-lt-two a j))
    ]

abbrev pub level : Bool → ℕ
level true = 1
level false = 0

-- one pin has the new level, every other is as before
pub output-gpio_set_value :
    (k j : ℕ) (v : Bool) (p : Port)
    → k < 32
    → bit (gpio_set_value k v p).output j ≡ (if k == j then level v else bit p.output j)
unfolding gpio_set_value
output-gpio_set_value k j true p h = bit-bit_or_mask p.output k j h
output-gpio_set_value k j false p h = bit-bit_clear_mask p.output k j h

-- After the set-up of the hub, pins 1, 2 and 3 are outputs, the port has power (pin 1), its role is the device
-- (pin 2) and the reset is released (pin 3), and every other pin is as before.
pub setup_hub_pins_lem :
    (p : Port) (j : ℕ)
    → (bit (setup_hub_pins p).direction j
        ≡ (if j == 1 || (j == 2 || j == 3) then 1 else bit p.direction j))
      × (bit (setup_hub_pins p).output j
          ≡ (if j == 1 then 1 else if j == 2 || j == 3 then 0 else bit p.output j))
unfolding setup_hub_pins
setup_hub_pins_lem p j =
    let d1 = bit_or p.direction (mask 1) in
    let d2 = bit_or d1 (mask 2) in
    let o1 = bit_or p.output (mask 1) in
    let o2 = bit_xor o1 (bit_and o1 (mask 2)) in
    (
      ground (
        arith,
        bit-bit_or_mask p.direction 1 j (omega arith),
        bit-bit_or_mask d1 2 j (omega arith),
        bit-bit_or_mask d2 3 j (omega arith),
      ),
      ground (
        arith,
        bit-bit_or_mask p.output 1 j (omega arith),
        bit-bit_clear_mask o1 2 j (omega arith),
        bit-bit_clear_mask o2 3 j (omega arith),
      ),
    )
