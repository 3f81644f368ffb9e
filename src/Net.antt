-- ===== src/Net.antt =====
-- Addresses: `net.IP` as a slice of bytes (nil is the empty list), and the helpers `dupIP`, `incIP`
-- and `ipGreater` of pkg/dhcp/dhcp.go. A copy of a slice is the slice here, since none is written.
pub mod Value
use Prim.Native.Nat.{bit_and}
use gokrazy_router.Prelude.{
  ℕ, ◌+◌, ◌%◌, Bool, true, false, ◌&&◌, ◌||◌, List, [], ◌∷◌, reverse, length, drop, take, text_eq,
  ◌==◌, ltb, if◌then◌else◌,
}

abbrev pub Ip : Type 0
Ip = List ℕ

-- the twelve bytes in front of an IPv4 address in its 16-byte form
abbrev pub v4_in_v6_prefix : Ip
v4_in_v6_prefix = 0 ∷ 0 ∷ 0 ∷ 0 ∷ 0 ∷ 0 ∷ 0 ∷ 0 ∷ 0 ∷ 0 ∷ 255 ∷ 255 ∷ []

-- `net.IP.To4`
unfoldable pub to4 : Ip → Ip
to4 ip =
    if length ip == 4
    then ip
    else if length ip == 16 && text_eq (take 12 ip) v4_in_v6_prefix
    then drop 12 ip
    else []

-- `net.IP.Equal`: an IPv4 address and its 16-byte form are equal
unfoldable pub ip_equal : Ip → Ip → Bool
unfolding to4
ip_equal a b =
    if length a == length b
    then text_eq a b
    else if (length a == 4 && length b == 16) || (length a == 16 && length b == 4)
    then text_eq (to4 a) (to4 b)
    else false

-- the loop of `incIP`, which runs from the last byte: here the list is reversed
unfoldable pub inc_reversed : Ip → Ip
inc_reversed [] = []
inc_reversed (b ∷ bs) =
    let next = (b + 1) % 256 in
    let carried = inc_reversed bs in if next == 0 then next ∷ carried else next ∷ bs

unfoldable pub inc_ip : Ip → Ip
unfolding inc_reversed
inc_ip ip = reverse (inc_reversed (reverse ip))

-- the loop of `ipGreater` over the four bytes
unfoldable pub greater_bytes : Ip → Ip → Bool
greater_bytes (a ∷ xs) (b ∷ ys) =
    if ltb b a then true else if ltb a b then false else greater_bytes xs ys
greater_bytes _ _ = false

unfoldable pub ip_greater : Ip → Ip → Bool
unfolding greater_bytes to4
ip_greater a b = greater_bytes (to4 a) (to4 b)

-- `ip & mask`, byte by byte
unfoldable pub mask_bytes : Ip → List ℕ → Ip
mask_bytes (a ∷ xs) (m ∷ ms) = bit_and a m ∷ mask_bytes xs ms
mask_bytes _ _ = []

-- `net.IPNet`
pub record IpNet : Type 0 where
  pub ip : Ip
  pub mask : List ℕ

-- `net.IP.Mask` and `net.IPNet.Contains` on IPv4 addresses and 4-byte masks: an address or a mask
-- of another length is in no such subnet.
unfoldable pub mask_ip : Ip → List ℕ → Ip
unfolding mask_bytes to4
mask_ip ip mask = if length (to4 ip) == length mask then mask_bytes (to4 ip) mask else []

unfoldable pub subnet_contains : IpNet → Ip → Bool
unfolding mask_bytes to4
subnet_contains n ip =
    length (to4 ip) == length (to4 n.ip)
    && length (to4 ip) == length n.mask
    && text_eq (mask_bytes (to4 n.ip) n.mask) (mask_bytes (to4 ip) n.mask)
