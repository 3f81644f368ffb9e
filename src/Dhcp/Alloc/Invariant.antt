-- ===== src/Dhcp/Alloc/Invariant.antt =====
-- The invariant of the lease table: well-formed addresses, and no two clients on one address.
use gokrazy_router.Prelude.{
  ℕ, ◌≤◌, ◌<◌, ◌≡◌, ◌≢◌, Bool, false, not, ◌&&◌, some, arith, Text, text_eq_iff, Dict, lookup,
  insert, keep, lookup-insert, Distinct,
}
use gokrazy_router.Prelude.Maps.Laws.{
  keep-Distinct, lookup-keep, lookup-keep-some, guarded, any_entry-lookup, Values, Values-lookup,
  Values-keep,
}
use gokrazy_router.Net.{Ip, ip_equal}
use gokrazy_router.Net.Value.{IsIp4, ip_equal_iff}
use gokrazy_router.Dhcp.State.{Lease, Server}
use gokrazy_router.Dhcp.Pool.Cycle.{IsRange, InPool}
use gokrazy_router.Dhcp.Alloc.{
  is_active, is_leased_or_reserved, clear_leases_for_ip, reap, has_expired,
}

pub record IsValid (s : Server) : Type 0 where
  pub range : IsRange s.range_start s.range_end
  pub next_in : InPool s.range_start s.range_end s.next_ip
  pub reserved_ips : Values IsIp4 s.reservations
  pub leased_ips : Values (λ l. IsIp4 l.ip) s.leases
  pub distinct : Distinct s.leases

-- At time `now` no address is under the running leases of two clients.
abbrev pub Unique : ℕ → Dict Lease → Type 0
Unique now leases =
    (m n : Text) (k l : Lease)
    → lookup m leases ≡ some k
    → lookup n leases ≡ some l
    → now < k.expires
    → now < l.expires
    → k.ip ≡ l.ip
    → m ≡ n

-- no client but `mac` has a running lease on `ip`
abbrev pub OnlyFor : ℕ → Text → Ip → Dict Lease → Type 0
OnlyFor now mac ip leases =
    (m : Text) (l : Lease) → lookup m leases ≡ some l → now < l.expires → l.ip ≡ ip → m ≡ mac

pub Unique-later :
    (now later : ℕ) (leases : Dict Lease) → now ≤ later → Unique now leases → Unique later leases
Unique-later now later leases h u m n k l e f p q same =
    u m n k l e f (omega arith) (omega arith) same

pub Unique-keep :
    (now : ℕ) (p : Text → Lease → Bool) (leases : Dict Lease)
    → Distinct leases
    → Unique now leases
    → Unique now (keep p leases)
Unique-keep now p leases d u m n k l e f = u m n k l (of_keep m k e) (of_keep n l f)
  where
    of_keep : (m : Text) (k : Lease) → lookup m (keep p leases) ≡ some k → lookup m leases ≡ some k
    of_keep m k e = (lookup-keep-some p m k leases d e).0

pub Unique-insert :
    (now : ℕ) (mac : Text) (new : Lease) (leases : Dict Lease)
    → OnlyFor now mac new.ip leases
    → Unique now leases
    → Unique now (insert mac new leases)
Unique-insert now mac new leases only u m n k l e f p q same = ground (
  arith,
  lookup-insert mac m new leases,
  lookup-insert mac n new leases,
  text_eq_iff mac m,
  text_eq_iff mac n,
  u m n k l,
  only m k,
  only n l,
)

-- an address that the scan finds free is under no running lease
pub not_leased :
    (now : ℕ) (s : Server) (ip : Ip)
    → Values (λ l. IsIp4 l.ip) s.leases
    → IsIp4 ip
    → is_leased_or_reserved now s ip ≡ false
    → (mac : Text) → OnlyFor now mac ip s.leases
unfolding is_leased_or_reserved
not_leased now s ip ips h free mac m l e active same = ground (
  arith,
  any_entry-lookup (λ mac l. ip_equal l.ip ip && is_active now l) m l s.leases e,
  ip_equal_iff l.ip ip (Values-lookup (λ l. IsIp4 l.ip) m l s.leases ips e) h,
)

-- nor is it reserved
pub not_reserved :
    (now : ℕ) (s : Server) (ip : Ip)
    → Values IsIp4 s.reservations
    → IsIp4 ip
    → is_leased_or_reserved now s ip ≡ false
    → (m : Text) (r : Ip) → lookup m s.reservations ≡ some r
    → r ≢ ip
unfolding is_leased_or_reserved
not_reserved now s ip ips h free m r e same = ground (
  arith,
  any_entry-lookup (λ mac reserved. ip_equal reserved ip) m r s.reservations e,
  ip_equal_iff r ip (Values-lookup IsIp4 m r s.reservations ips e) h,
)

-- after `clearLeasesForIP` no entry holds the address
pub clear_leases-OnlyFor :
    (now : ℕ) (ip : Ip) (leases : Dict Lease)
    → Values (λ l. IsIp4 l.ip) leases
    → IsIp4 ip
    → Distinct leases
    → (mac : Text) → OnlyFor now mac ip (clear_leases_for_ip ip leases)
unfolding clear_leases_for_ip
clear_leases-OnlyFor now ip leases ips h d mac m l e active same =
    let (found, kept) = lookup-keep-some (λ mac l. not (ip_equal l.ip ip)) m l leases d e in
    let l_ip = Values-lookup (λ l. IsIp4 l.ip) m l leases ips found in
    ground (arith, kept, ip_equal_iff l.ip ip l_ip h)

-- The ticker's clean-up keeps the invariant.
pub reap-IsValid : (now : ℕ) (s : Server) → IsValid s → IsValid (reap now s).0
unfolding reap
reap-IsValid now s v = record {
  range = v.range;
  next_in = v.next_in;
  reserved_ips = v.reserved_ips;
  leased_ips = Values-keep (λ l. IsIp4 l.ip) _ s.leases v.leased_ips;
  distinct = keep-Distinct _ s.leases v.distinct;
}

-- On a valid server the ticker removes every lease whose end has passed, and no other.
reap_lem :
    (now : ℕ) (s : Server) (mac : Text)
    → IsValid s
    → lookup mac (reap now s).0.leases
      ≡ guarded (λ l. not (has_expired now l)) (lookup mac s.leases)
unfolding reap
reap_lem now s mac v = lookup-keep (λ mac l. not (has_expired now l)) mac s.leases v.distinct
