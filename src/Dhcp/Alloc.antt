-- ===== src/Dhcp/Alloc.antt =====
-- The lease table of pkg/dhcp/dhcp.go: `allocate`, its helpers and one tick of `reapExpiredLeases`.
-- `now` is the clock reading of one call; the code reads the clock up to three times in a call, and
-- the readings are taken to be one.
pub mod Invariant
pub mod Outcome
pub mod Clients
use gokrazy_router.Prelude.{
  ℕ, ◌+◌, ◌-◌, ◌*◌, ◌/◌, ◌^◌, Bool, not, ◌&&◌, ◌||◌, Option, none, some, List, [], ◌∷◌, ltb,
  if◌then◌else◌, Text, Dict, lookup, insert, keep, any_entry,
}
use gokrazy_router.Mac.{normalize_mac}
use gokrazy_router.Net.{Ip, ip_equal}
use gokrazy_router.Net.Value.{value}
use gokrazy_router.Dhcp.State.{Lease, Server, Notice, leased, expired}
use gokrazy_router.Dhcp.Pool.{Scan, out_of_fuel, full, found, advance, scan}

-- `time.Now().Before(l.Expires)`
abbrev pub is_active : ℕ → Lease → Bool
is_active now l = ltb now l.expires

unfoldable pub is_leased_or_reserved : ℕ → Server → Ip → Bool
is_leased_or_reserved now s ip =
    any_entry (λ mac reserved. ip_equal reserved ip) s.reservations
    || any_entry (λ mac l. ip_equal l.ip ip && is_active now l) s.leases

unfoldable pub clear_leases_for_ip : Ip → Dict Lease → Dict Lease
clear_leases_for_ip ip = keep (λ mac l. not (ip_equal l.ip ip))

abbrev pub notify_lease : Server → Ip → Text → List Notice
notify_lease s ip mac = if s.on_lease then leased ip mac ∷ [] else []

-- the lease of `mac`, if it is there and runs
abbrev pub running_lease : ℕ → Text → Server → Option Lease
running_lease now mac s = elim (lookup mac s.leases) [
  | none ↦ none
  | some l ↦ if is_active now l then some l else none
]

abbrev pub new_lease : ℕ → Server → Ip → Lease
new_lease now s ip = record { ip = ip; expires = now + s.lease }

-- fuel for the scan: the number of addresses from `rangeStart` to `rangeEnd`, and one if there is none
abbrev pub pool_size : Server → ℕ
pool_size s = value s.range_end - value s.range_start + 1

-- the part of `allocate` behind the scan
unfoldable pub take_found : ℕ → Text → Server → Scan → Server × Ip × List Notice
take_found now mac s (found ip) = (
  record s {
    leases = insert mac (new_lease now s ip) s.leases;
    next_ip = advance s.range_start s.range_end ip;
  },
  ip,
  notify_lease s ip mac,
)
take_found now mac s full = (s, [], [])
take_found now mac s out_of_fuel = (s, [], [])

-- The part of `allocate` for a client with no reservation and no running lease.
unfoldable pub allocate_free : ℕ → Text → Server → Server × Ip × List Notice
allocate_free now mac s =
    take_found now mac s (
      scan (pool_size s) (is_leased_or_reserved now s) s.range_start s.range_end s.next_ip
        s.next_ip)

unfoldable pub allocate_reserved : ℕ → Text → Ip → Server → Server × Ip × List Notice
allocate_reserved now mac reserved s = (
  record s {
    leases = insert mac (new_lease now s reserved) (clear_leases_for_ip reserved s.leases);
  },
  reserved,
  notify_lease s reserved mac,
)

-- `allocate`: the server after the call, the address (nil if the pool is exhausted) and the notices.
unfoldable pub allocate : ℕ → Text → Server → Server × Ip × List Notice
allocate now mac s = elim (lookup (normalize_mac mac) s.reservations) [
  | some reserved ↦ allocate_reserved now mac reserved s
  | none ↦ elim (running_lease now mac s) [
    | some l ↦ (s, l.ip, [])
    | none ↦ allocate_free now mac s
  ]
]

-- `now.After(l.Expires)`
abbrev pub has_expired : ℕ → Lease → Bool
has_expired now l = ltb l.expires now

unfoldable pub expiry_notices : Dict Lease → List Notice
expiry_notices [] = []
expiry_notices ((mac, l) ∷ m) = expired l.ip mac ∷ expiry_notices m

-- one tick of the loop in `reapExpiredLeases`
unfoldable pub reap : ℕ → Server → Server × List Notice
reap now s = (
  record s { leases = keep (λ mac l. not (has_expired now l)) s.leases },
  if s.on_lease_expired then expiry_notices (keep (λ mac l. has_expired now l) s.leases) else [],
)

-- the ticker's interval: a quarter of the lease, and thirty seconds at least
unfoldable pub reap_interval : Server → ℕ
reap_interval s = if ltb (s.lease / 4) (30 * 10 ^ 9) then 30 * 10 ^ 9 else s.lease / 4
