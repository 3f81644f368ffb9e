-- ===== src/Dhcp/Alloc/Outcome.antt =====
-- What `allocate` of pkg/dhcp/dhcp.go does on each of its branches, and what that means for the invariant
-- of the lease table.
use gokrazy_router.Prelude.{
  ℕ, ◌+◌, ◌<◌, ◌≡◌, refl, sym, ◌∙◌, ◌⊎◌, inl, inr, true, false, none, some, List, [], ◌∷◌, arith,
  if◌then◌else◌, ltb→lt, Bool-cases, Option-cases, Text, text_eq_refl, lookup, lookup-insert,
}
use mathlib.Core.Path.{subst}
use gokrazy_router.Prelude.Maps.Laws.{
  insert-Distinct, keep-Distinct, Values-lookup, Values-insert, Values-keep,
}
use gokrazy_router.Mac.{normalize_mac}
use gokrazy_router.Net.{Ip}
use gokrazy_router.Net.Value.{IsIp4}
use gokrazy_router.Dhcp.State.{Lease, Server, Notice, leased}
use gokrazy_router.Dhcp.Pool.{Scan, out_of_fuel, full, found}
use gokrazy_router.Dhcp.Pool.Cycle.{InPool, Answers, scan-start-Answers, advance-InPool}
use gokrazy_router.Dhcp.Alloc.{
  is_active, is_leased_or_reserved, clear_leases_for_ip, new_lease, running_lease, pool_size,
  take_found, allocate_free, allocate_reserved, allocate,
}
use gokrazy_router.Dhcp.Alloc.Invariant.{
  IsValid, Unique, Unique-keep, Unique-insert, not_leased, clear_leases-OnlyFor,
}

abbrev pub InServerPool : Server → Ip → Type 0
InServerPool s = InPool s.range_start s.range_end

-- the client gets the address, under a lease from now on, and the listener is told
abbrev pub Grants : ℕ → Text → Server → Ip → Server × Ip × List Notice → Type 0
Grants now mac s ip r =
    (r.1 ≡ ip)
    × (lookup mac r.0.leases ≡ some (record { ip = ip; expires = now + s.lease }))
    × (r.2 ≡ (if s.on_lease then leased ip mac ∷ [] else []))

take_found-Grants :
    (now : ℕ) (mac : Text) (s : Server) (ip : Ip)
    → Grants now mac s ip (take_found now mac s (found ip))
unfolding take_found
take_found-Grants now mac s ip =
    (refl, lookup-insert mac mac (new_lease now s ip) s.leases ∙ rw (text_eq_refl mac) refl, refl)

allocate_reserved-Grants :
    (now : ℕ) (mac : Text) (s : Server) (ip : Ip)
    → Grants now mac s ip (allocate_reserved now mac ip s)
unfolding allocate_reserved
allocate_reserved-Grants now mac s ip = (
  refl,
  lookup-insert mac mac (new_lease now s ip) (clear_leases_for_ip ip s.leases)
      ∙ rw (text_eq_refl mac) refl,
  refl,
)

-- The two ends of the branch with the scan.
pub data FreeOutcome (now : ℕ) (mac : Text) (s : Server) (r : Server × Ip × List Notice)
    : Type 0 where
  exhausted :
      ((x : Ip) → InServerPool s x → is_leased_or_reserved now s x ≡ true)
      → r ≡ (s, [], [])
      → FreeOutcome now mac s r
  granted :
      (ip : Ip)
      → InServerPool s ip
      → is_leased_or_reserved now s ip ≡ false
      → Grants now mac s ip r
      → r ≡ take_found now mac s (found ip)
      → FreeOutcome now mac s r

take_found-FreeOutcome :
    (now : ℕ) (mac : Text) (s : Server) (v : IsValid s) (a : Scan)
    → Answers v.range (is_leased_or_reserved now s) s.next_ip v.next_in a
    → FreeOutcome now mac s (take_found now mac s a)
unfolding take_found
take_found-FreeOutcome now mac s v out_of_fuel h = absurd h
take_found-FreeOutcome now mac s v full h = exhausted h refl
take_found-FreeOutcome now mac s v (found ip) h =
    granted ip h.0 h.1 (take_found-Grants now mac s ip) refl

-- The scan ends within its fuel. It grants a free address of the pool, or the pool has none.
pub allocate_free-FreeOutcome :
    (now : ℕ) (mac : Text) (s : Server)
    → IsValid s
    → FreeOutcome now mac s (allocate_free now mac s)
unfolding allocate_free
allocate_free-FreeOutcome now mac s v = take_found-FreeOutcome now mac s v _ (
    scan-start-Answers v.range (is_leased_or_reserved now s) s.next_ip v.next_in (pool_size s)
      (omega arith))

take_found-IsValid :
    (now : ℕ) (mac : Text) (s : Server) (ip : Ip)
    → IsValid s
    → InServerPool s ip
    → IsValid (take_found now mac s (found ip)).0
unfolding take_found
take_found-IsValid now mac s ip v p = record {
  range = v.range;
  next_in = advance-InPool v.range ip p;
  reserved_ips = v.reserved_ips;
  leased_ips =
      Values-insert (λ l. IsIp4 l.ip) mac (new_lease now s ip) s.leases p.is_ip v.leased_ips;
  distinct = insert-Distinct mac (new_lease now s ip) s.leases v.distinct;
}

allocate_reserved-IsValid :
    (now : ℕ) (mac : Text) (s : Server) (ip : Ip)
    → IsValid s
    → IsIp4 ip
    → IsValid (allocate_reserved now mac ip s).0
unfolding allocate_reserved clear_leases_for_ip
allocate_reserved-IsValid now mac s ip v h = record {
  range = v.range;
  next_in = v.next_in;
  reserved_ips = v.reserved_ips;
  leased_ips =
      Values-insert (λ l. IsIp4 l.ip) mac (new_lease now s ip) _ h
        (Values-keep (λ l. IsIp4 l.ip) _ s.leases v.leased_ips);
  distinct = insert-Distinct mac (new_lease now s ip) _ (keep-Distinct _ s.leases v.distinct);
}

-- The branch that `allocate` takes.
pub data Outcome (now : ℕ) (mac : Text) (s : Server) (r : Server × Ip × List Notice) : Type 0 where
  reserved :
      (ip : Ip)
      → lookup (normalize_mac mac) s.reservations ≡ some ip
      → Grants now mac s ip r
      → r ≡ allocate_reserved now mac ip s
      → Outcome now mac s r
  renewed :
      (l : Lease)
      → lookup (normalize_mac mac) s.reservations ≡ none
      → lookup mac s.leases ≡ some l
      → now < l.expires
      → r ≡ (s, l.ip, [])
      → Outcome now mac s r
  fresh :
      lookup (normalize_mac mac) s.reservations ≡ none
      → running_lease now mac s ≡ none
      → FreeOutcome now mac s r
      → Outcome now mac s r

running_lease-cases :
    (now : ℕ) (mac : Text) (s : Server)
    → (running_lease now mac s ≡ none)
      ⊎ ((l : Lease) × (running_lease now mac s ≡ some l)
          × (lookup mac s.leases ≡ some l)
          × (now < l.expires))
running_lease-cases now mac s = elim (Option-cases (lookup mac s.leases)) [
  | inl e ↦ inl (rw (e, running_lease))
  | inr (l, e) ↦ elim (Bool-cases (is_active now l)) [
    | inl t ↦ inr (l, rw (e, running_lease) (rw t), e, ltb→lt now l.expires t)
    | inr f ↦ inl (rw (e, running_lease) (rw f))
  ]
]

-- Every call of `allocate` on a valid server ends: the client gets its reserved address or a free address of the
-- pool, each with a lease from now on of which the listener is told; or that of its running lease, and nothing else
-- happens; or the pool has none free, and nothing happens.
pub allocate-Outcome :
    (now : ℕ) (mac : Text) (s : Server) → IsValid s → Outcome now mac s (allocate now mac s)
unfolding allocate
allocate-Outcome now mac s v = elim (Option-cases (lookup (normalize_mac mac) s.reservations)) [
  | inr (ip, e) ↦
      let taken : allocate now mac s ≡ allocate_reserved now mac ip s = rw (e, allocate) in
      reserved ip e
        (subst (Grants now mac s ip) (sym taken) (allocate_reserved-Grants now mac s ip)) taken
  | inl e ↦ elim (running_lease-cases now mac s) [
    | inl g ↦ fresh e g (
        subst (FreeOutcome now mac s) (sym (rw (e, allocate) (rw (g, running_lease))))
          (allocate_free-FreeOutcome now mac s v))
    | inr (l, g, f, a) ↦ renewed l e f a (rw (e, allocate) (rw g))
  ]
]

Outcome-IsValid :
    {now : ℕ} {mac : Text} {s : Server} {r : Server × Ip × List Notice}
    → IsValid s
    → Outcome now mac s r
    → IsValid r.0
Outcome-IsValid {now} {mac} {s} v (reserved ip e g q) = rw q (
    allocate_reserved-IsValid now mac s ip v
      (Values-lookup IsIp4 (normalize_mac mac) ip s.reservations v.reserved_ips e))
Outcome-IsValid v (renewed l e f a q) = rw q v
Outcome-IsValid v (fresh e g (exhausted h q)) = rw q v
Outcome-IsValid {now} {mac} {s} v (fresh e g (granted ip p free k q)) =
    rw q (take_found-IsValid now mac s ip v p)

-- `allocate` keeps the invariant of the lease table.
pub allocate-IsValid :
    (now : ℕ) (mac : Text) (s : Server) → IsValid s → IsValid (allocate now mac s).0
allocate-IsValid now mac s v = Outcome-IsValid v (allocate-Outcome now mac s v)

Outcome-Unique :
    {now : ℕ} {mac : Text} {s : Server} {r : Server × Ip × List Notice}
    → IsValid s
    → Unique now s.leases
    → Outcome now mac s r
    → Unique now r.0.leases
unfolding allocate_reserved take_found
Outcome-Unique {now} {mac} {s} v u (reserved ip e g q) =
    let is_ip = Values-lookup IsIp4 (normalize_mac mac) ip s.reservations v.reserved_ips e in
    rw q (
      Unique-insert now mac (new_lease now s ip) (clear_leases_for_ip ip s.leases)
        (clear_leases-OnlyFor now ip s.leases v.leased_ips is_ip v.distinct mac)
        (unfold clear_leases_for_ip in Unique-keep now _ s.leases v.distinct u))
Outcome-Unique v u (renewed l e f a q) = rw q u
Outcome-Unique v u (fresh e g (exhausted h q)) = rw q u
Outcome-Unique {now} {mac} {s} v u (fresh e g (granted ip p free k q)) = rw q (
    Unique-insert now mac (new_lease now s ip) s.leases
      (not_leased now s ip v.leased_ips p.is_ip free mac) u)

-- On a valid server where no address is under the running leases of two clients, `allocate` keeps it so.
pub allocate-Unique :
    (now : ℕ) (mac : Text) (s : Server)
    → IsValid s
    → Unique now s.leases
    → Unique now (allocate now mac s).0.leases
allocate-Unique now mac s v u = Outcome-Unique v u (allocate-Outcome now mac s v)
