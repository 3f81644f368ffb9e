-- ===== src/Dhcp/Pool.antt =====
-- The address scan in `allocate` (pkg/dhcp/dhcp.go): it walks the pool in a circle from `nextIP`.
pub mod Cycle
use gokrazy_router.Prelude.{ℕ, zero, suc, Bool, not, [], if◌then◌else◌}
use gokrazy_router.Net.{Ip, ip_equal, inc_ip, ip_greater}

-- `out_of_fuel` is no result of the code, whose loop has no fuel.
pub data Scan : Type 0 where
  out_of_fuel full : Scan
  found : Ip → Scan

-- the step from an address to the next of the pool, which `allocate` makes twice
unfoldable pub advance : Ip → Ip → Ip → Ip
advance range_start range_end ip =
    let next = inc_ip ip in if ip_greater next range_end then range_start else next

unfoldable pub scan : ℕ → (Ip → Bool) → Ip → Ip → Ip → Ip → Scan
scan zero taken range_start range_end start ip = out_of_fuel
scan (suc fuel) taken range_start range_end start ip =
    let next = advance range_start range_end ip in
    let rest = scan fuel taken range_start range_end start next in
    if not (taken ip) then found ip else if ip_equal next start then full else rest
