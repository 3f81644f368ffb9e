-- ===== src/Dhcp/Alloc/Clients.antt =====
-- What a client gets of `allocate` in pkg/dhcp/dhcp.go, by its reservation and its lease.
use gokrazy_router.Prelude.{
  ℕ, ◌≤◌, ◌<◌, ◌≡◌, refl, ◌≢◌, ◌⊎◌, inl, inr, none, some, List, [], arith, Text, text_eq_refl, Dict,
  lookup, insert, lookup-insert,
}
use gokrazy_router.Mac.{normalize_mac}
use gokrazy_router.Net.{Ip}
use gokrazy_router.Dhcp.State.{Lease, Server, Notice}
use gokrazy_router.Dhcp.Alloc.{new_lease, running_lease, take_found, allocate_reserved, allocate}
use gokrazy_router.Dhcp.Alloc.Invariant.{IsValid, not_reserved}
use gokrazy_router.Dhcp.Alloc.Outcome.{
  InServerPool, exhausted, granted, Outcome, reserved, renewed, fresh, allocate-Outcome,
}

-- The table has a running lease of `mac` on `ip`.
abbrev pub Backed : ℕ → Text → Ip → Dict Lease → Type 0
Backed now mac ip leases =
    (l : Lease) × (lookup mac leases ≡ some l) × (l.ip ≡ ip) × (now < l.expires)

insert-Backed :
    (now : ℕ) (mac : Text) (s : Server) (ip : Ip) (leases : Dict Lease)
    → 0 < s.lease
    → Backed now mac ip (insert mac (new_lease now s ip) leases)
insert-Backed now mac s ip leases pos = (
  new_lease now s ip,
  ground (arith, lookup-insert mac mac (new_lease now s ip) leases, text_eq_refl mac),
  refl,
  omega arith,
)

Outcome-Backed :
    {now : ℕ} {mac : Text} {s : Server} {r : Server × Ip × List Notice}
    → 0 < s.lease
    → Outcome now mac s r
    → r.1 ≢ []
    → Backed now mac r.1 r.0.leases
unfolding allocate_reserved take_found
Outcome-Backed {now} {mac} {s} pos (reserved ip e k q) ne = rw q (insert-Backed now mac s ip _ pos)
Outcome-Backed pos (renewed l e f a q) ne = rw q (l, f, refl, a)
Outcome-Backed pos (fresh e g (exhausted h q)) ne = absurd (ne (rw q))
Outcome-Backed {now} {mac} {s} pos (fresh e g (granted ip p free k q)) ne =
    rw q (insert-Backed now mac s ip s.leases pos)

-- On a valid server with a positive lease time, an address that `allocate` returns is recorded as an-- running lease of the client.
pub allocate-Backed :
    (now : ℕ) (mac : Text) (s : Server)
    → IsValid s
    → 0 < s.lease
    → (allocate now mac s).1 ≢ []
    → Backed now mac (allocate now mac s).1 (allocate now mac s).0.leases
allocate-Backed now mac s v pos ne = Outcome-Backed pos (allocate-Outcome now mac s v) ne

-- A client with a reservation gets the reserved address, whatever the lease table holds.
pub allocate_reservation :
    (now : ℕ) (mac : Text) (s : Server) (ip : Ip)
    → lookup (normalize_mac mac) s.reservations ≡ some ip
    → (allocate now mac s).1 ≡ ip
unfolding allocate allocate_reserved
allocate_reservation now mac s ip e = rw (e, allocate)

-- On a valid server a client with no reservation and no running lease gets an address of the pool that
-- is reserved for nobody, or none at all.
pub allocate_fresh :
    (now : ℕ) (mac : Text) (s : Server)
    → IsValid s
    → lookup (normalize_mac mac) s.reservations ≡ none
    → running_lease now mac s ≡ none
    → ((allocate now mac s).1 ≡ [])
      ⊎ (InServerPool s (allocate now mac s).1
          × ((m : Text) (r : Ip) → lookup m s.reservations ≡ some r → r ≢ (allocate now mac s).1))
allocate_fresh now mac s v e g = of_outcome (allocate-Outcome now mac s v)
  where
    of_outcome :
        {r : Server × Ip × List Notice}
        → Outcome now mac s r
        → (r.1 ≡ [])
          ⊎ (InServerPool s r.1
              × ((m : Text) (x : Ip) → lookup m s.reservations ≡ some x → x ≢ r.1))
    of_outcome (reserved ip f k q) = ground arith
    of_outcome (renewed l f h a q) = absurd (ground (arith, g, h))
    of_outcome (fresh f h (exhausted x q)) = inl (rw q)
    of_outcome (fresh f h (granted ip p free k q)) =
        inr (unfold take_found in rw q (p, not_reserved now s ip v.reserved_ips p.is_ip free))

-- A request of a client with no reservation whose lease runs returns the leased address and does not extend the lease:
-- from the old end on the client has no running lease, although it was answered with a full one.
allocate_renewed :
    (now later : ℕ) (mac : Text) (s : Server) (l : Lease)
    → lookup (normalize_mac mac) s.reservations ≡ none
    → lookup mac s.leases ≡ some l
    → now < l.expires
    → l.expires ≤ later
    → ((allocate now mac s).1 ≡ l.ip) × (running_lease later mac (allocate now mac s).0 ≡ none)
unfolding allocate
allocate_renewed now later mac s l e f a past = (ground arith, ground arith)
