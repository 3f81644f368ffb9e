-- ===== src/Dhcp/Start.antt =====
-- The server that `New` of pkg/dhcp/dhcp.go makes.
use gokrazy_router.Prelude.{
  ℕ, ◌+◌, ◌^◌, ◌≤◌, ◌<◌, ◌≡◌, refl, ◌⊎◌, inl, inr, false, ◌||◌, Option, List, [], arith, Bool-cases,
  Option-cases, Text, is_empty, lookup,
}
use gokrazy_router.Net.{Ip, to4}
use gokrazy_router.Net.Value.{IsIp4, value}
use gokrazy_router.Dhcp.State.{Cidr, Result, ok, err, Server, parse_dns, new}
use gokrazy_router.Dhcp.Alloc.Invariant.{IsValid, Unique}
use gokrazy_router.Dhcp.Steps.{ParsesIp4}

-- the result is an error, or the server has the property
abbrev pub Holds {ℓ} : (Server → Type ℓ) → Result Server → Type ℓ
Holds P (err e) = Unit
Holds P (ok s) = P s

Result-cases {ℓ} : {A : Type ℓ} (r : Result A) → ((e : Text) × (r ≡ err e)) ⊎ ((a : A) × (r ≡ ok a))
Result-cases (err e) = inl (e, refl)
Result-cases (ok a) = inr (a, refl)

not_nil : {ip : Ip} → (ip ≡ []) ⊎ IsIp4 ip → is_empty ip ≡ false → IsIp4 ip
not_nil (inl e) h = absurd (ground (arith, e, h))
not_nil (inr v) h = v

no_leases : (now : ℕ) → Unique now []
unfolding lookup
no_leases now m n k l e f p q same = cc

module _ (parse_ip : Text → Ip) (parse_cidr : Text → Option Cidr) where
  -- `net.ParseIP` gives four bytes, or an address that is not IPv4. Where the range is in order and ends
  -- below 255.255.255.255, the server that `New` returns, if it returns one, is well-formed and has
  -- no leases.
  pub new-IsValid :
      (iface server_addr range_start range_end : Text) (dns : List Text) (lease_dur : ℕ)
      → ParsesIp4 parse_ip
      → value (to4 (parse_ip range_start)) ≤ value (to4 (parse_ip range_end))
      → value (to4 (parse_ip range_end)) + 1 < 2 ^ 32
      → Holds
          (λ s. IsValid s × ((now : ℕ) → Unique now s.leases) × (s.leases ≡ []))
          (new parse_ip parse_cidr iface server_addr range_start range_end dns lease_dur)
  unfolding new
  new-IsValid iface server_addr range_start range_end dns lease_dur parses le top =
      let rs = to4 (parse_ip range_start) in
      let re = to4 (parse_ip range_end) in
      elim (Option-cases (parse_cidr server_addr)) [
        | inl e ↦ rw (Holds, new, e) tt
        | inr (cidr, e) ↦ elim (Result-cases (parse_dns parse_ip dns)) [
          | inl (x, f) ↦ rw (Holds, new, e, f) tt
          | inr (parsed, f) ↦ elim (Bool-cases (is_empty rs || is_empty re)) [
            | inl g ↦ rw (Holds, new, e, f, g) tt
            | inr g ↦
                let starts : IsIp4 rs = not_nil (parses range_start) (ground (arith, g)) in
                let ends : IsIp4 re = not_nil (parses range_end) (ground (arith, g)) in
                rw (Holds, new, e, f, g)
                  (
                    record {
                      range = record {
                        start_ip = starts;
                        end_ip = ends;
                        ordered = le;
                        below_top = top;
                      };
                      next_in = record { is_ip = starts; from_start = omega arith; to_end = le };
                      reserved_ips = tt;
                      leased_ips = tt;
                      distinct = tt;
                    },
                    no_leases,
                    refl,
                  )
          ]
        ]
      ]
