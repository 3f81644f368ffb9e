-- ===== src/Net/Value.antt =====
-- Addresses as numbers, for `incIP` and `ipGreater` of pkg/dhcp/dhcp.go.
use gokrazy_router.Prelude.{
  ℕ, ◌+◌, ◌*◌, ◌%◌, ◌^◌, ◌<◌, ◌≡◌, ◌↔◌, true, [], ◌∷◌, arith, All, length, text_eq_iff,
}
use gokrazy_router.Net.{Ip, to4, ip_equal, inc_ip, ip_greater}

abbrev pub IsByte : ℕ → Type 0
IsByte b = b < 256

-- an IPv4 address: four bytes
pub record IsIp4 (ip : Ip) : Type 0 where
  pub four : length ip ≡ 4
  pub bytes : All IsByte ip

-- the number that the bytes write, the first byte the highest
unfoldable pub value_from : ℕ → Ip → ℕ
value_from acc [] = acc
value_from acc (b ∷ bs) = value_from (acc * 256 + b) bs

unfoldable pub value : Ip → ℕ
unfolding value_from
value = value_from 0

-- Four bytes have four bytes: a predicate that holds of every such list holds of every address.
pub Ip4-elim {ℓ} :
    (P : Ip → Type ℓ)
    → ((a b c d : ℕ) → IsByte a → IsByte b → IsByte c → IsByte d → P (a ∷ b ∷ c ∷ d ∷ []))
    → (ip : Ip) → IsIp4 ip
    → P ip
Ip4-elim P f (a ∷ b ∷ c ∷ d ∷ []) h = f a b c d h.bytes.0 h.bytes.1.0 h.bytes.1.1.0 h.bytes.1.1.1.0
Ip4-elim P f [] h = absurd (omega (arith, h.four))
Ip4-elim P f (a ∷ []) h = absurd (omega (arith, h.four))
Ip4-elim P f (a ∷ b ∷ []) h = absurd (omega (arith, h.four))
Ip4-elim P f (a ∷ b ∷ c ∷ []) h = absurd (omega (arith, h.four))
Ip4-elim P f (a ∷ b ∷ c ∷ d ∷ e ∷ l) h = absurd (omega (arith, h.four))

pub to4-Ip4 : (ip : Ip) → IsIp4 ip → to4 ip ≡ ip
unfolding to4
to4-Ip4 ip h = ground arith

-- `net.IP.Equal` on two IPv4 addresses is equality.
pub ip_equal_iff : (a b : Ip) → IsIp4 a → IsIp4 b → (ip_equal a b ≡ true) ↔ (a ≡ b)
unfolding ip_equal
ip_equal_iff a b ha hb = ground (arith, text_eq_iff a b)

-- `incIP` adds one, and goes round after 255.255.255.255.
pub value-inc_ip : (ip : Ip) → IsIp4 ip → value (inc_ip ip) ≡ (value ip + 1) % 2 ^ 32
unfolding value inc_ip
value-inc_ip =
    Ip4-elim (λ ip. value (inc_ip ip) ≡ (value ip + 1) % 2 ^ 32)
      (λ a b c d ha hb hc hd. ground arith)

pub inc_ip-IsIp4 : (ip : Ip) → IsIp4 ip → IsIp4 (inc_ip ip)
unfolding inc_ip
inc_ip-IsIp4 = Ip4-elim (λ ip. IsIp4 (inc_ip ip)) (λ a b c d ha hb hc hd. ground arith)

pub value-lt : (ip : Ip) → IsIp4 ip → value ip < 2 ^ 32
unfolding value
value-lt = Ip4-elim (λ ip. value ip < 2 ^ 32) (λ a b c d ha hb hc hd. omega arith)

-- `ipGreater` is the order of the numbers.
pub ip_greater_iff : (x y : Ip) → IsIp4 x → IsIp4 y → (ip_greater x y ≡ true) ↔ (value y < value x)
unfolding value ip_greater
ip_greater_iff x y hx hy =
    Ip4-elim (λ x. (ip_greater x y ≡ true) ↔ (value y < value x))
      (λ a b c d ha hb hc hd.
        Ip4-elim
          (λ y. (ip_greater (a ∷ b ∷ c ∷ d ∷ []) y ≡ true) ↔ (value y < value (a ∷ b ∷ c ∷ d ∷ [])))
          (λ e f g h he hf hg hh. (ground arith, ground arith)) y hy)
      x hx

-- Two addresses with one number are one address.
pub value-injective : (x y : Ip) → IsIp4 x → IsIp4 y → value x ≡ value y → x ≡ y
unfolding value
value-injective x y hx hy =
    Ip4-elim (λ x. value x ≡ value y → x ≡ y)
      (λ a b c d ha hb hc hd.
        Ip4-elim (λ y. value (a ∷ b ∷ c ∷ d ∷ []) ≡ value y → a ∷ b ∷ c ∷ d ∷ [] ≡ y)
          (λ e f g h he hf hg hh p. ground arith) y hy)
      x hx
