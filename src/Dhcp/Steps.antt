-- ===== src/Dhcp/Steps.antt =====
-- The DHCP server over time: messages, ticks of the lease checker and calls of the setters, one after
-- the other, since each holds the server's mutex.
use gokrazy_router.Prelude.{
  ℕ, ◌≤◌, ◌≡◌, ◌⊎◌, inl, inr, Bool, true, Option, List, [], ◌∷◌, arith, Bool-cases, Text, is_empty,
  Dict, insert,
}
use gokrazy_router.Prelude.Maps.Laws.{Values, Values-insert}
use gokrazy_router.Mac.{normalize_mac}
use gokrazy_router.Net.{Ip, IpNet, to4, mask_ip, subnet_contains}
use gokrazy_router.Net.Value.{IsIp4}
use gokrazy_router.Dhcp.State.{
  Server, add_reservations, set_reservations, set_pxe_options, set_mac_pxe_boot_files,
  set_ipxe_boot_file, set_uefi_boot_file, set_legacy_boot_file, set_on_lease, set_on_lease_expired,
  normalized_onto,
}
use gokrazy_router.Dhcp.Alloc.{reap}
use gokrazy_router.Dhcp.Alloc.Invariant.{IsValid, Unique, Unique-later, Unique-keep, reap-IsValid}
use gokrazy_router.Dhcp.Reply.{Request, Modifier, Peer, handler}
use gokrazy_router.Dhcp.Reply.Laws.{handler-IsValid}

pub data Event : Type 0 where
  message : Peer → Request → Event
  tick : Event
  reserve : Dict Text → Event
  pxe_options : Text → Text → Event
  mac_boot_files : Dict Text → Event
  ipxe_file uefi_file legacy_file : Text → Event
  watch_leases watch_expiry : Event

-- What `net.ParseIP(…).To4()` gives: nil or an IPv4 address.
abbrev pub ParsesIp4 : (Text → Ip) → Type 0
ParsesIp4 parse_ip = (t : Text) → (to4 (parse_ip t) ≡ []) ⊎ IsIp4 (to4 (parse_ip t))

-- the schedule's times do not go back
abbrev pub IsOrdered : ℕ → List (ℕ × Event) → Type 0
IsOrdered now [] = Unit
IsOrdered now ((t, e) ∷ es) = (now ≤ t) × IsOrdered t es

abbrev pub last_time : ℕ → List (ℕ × Event) → ℕ
last_time now [] = now
last_time now ((t, e) ∷ es) = last_time t es

module _ (parse_ip : Text → Ip) (parses : ParsesIp4 parse_ip) where
  add_reservations-Values :
      (subnet : IpNet) (made : Dict Ip) (m : Dict Text)
      → Values IsIp4 made
      → Values IsIp4 (add_reservations parse_ip subnet made m)
  unfolding add_reservations
  add_reservations-Values subnet made [] h = h
  add_reservations-Values subnet made ((mac, ip) ∷ m) h =
      let parsed = to4 (parse_ip ip) in
      elim (Bool-cases (is_empty parsed)) [
        | inl e ↦ rw e (add_reservations-Values subnet made m h)
        | inr e ↦ elim (Bool-cases (subnet_contains subnet parsed)) [
          | inr f ↦ rw (e, f) (add_reservations-Values subnet made m h)
          | inl f ↦ elim (parses ip) [
            | inl nil ↦ absurd (ground (arith, nil, e))
            | inr is_ip ↦
                rw (e, f)
                  (add_reservations-Values subnet (insert (normalize_mac mac) parsed made) m
                    (Values-insert IsIp4 (normalize_mac mac) parsed made is_ip h))
          ]
        ]
      ]

  -- `SetReservations` keeps the invariant.
  pub set_reservations-IsValid :
      (s : Server) (m : Dict Text) → IsValid s → IsValid (set_reservations parse_ip s m)
  unfolding set_reservations
  set_reservations-IsValid s m v = record {
    range = v.range;
    next_in = v.next_in;
    reserved_ips =
        add_reservations-Values (record { ip = mask_ip s.server_ip s.mask; mask = s.mask }) [] m tt;
    leased_ips = v.leased_ips;
    distinct = v.distinct;
  }

-- the fields of the boot options and the callbacks are free in the invariant
options-IsValid :
    (s : Server) (a : Ip) (b : Text) (c : Dict Text) (d e f : Text) (g h : Bool)
    → IsValid s
    → IsValid (record s {
      pxe_boot_server = a;
      pxe_boot_file = b;
      mac_pxe_boot_files = c;
      ipxe_boot_file = d;
      uefi_boot_file = e;
      legacy_boot_file = f;
      on_lease = g;
      on_lease_expired = h;
    })
options-IsValid s a b c d e f g h v = record {
  range = v.range;
  next_in = v.next_in;
  reserved_ips = v.reserved_ips;
  leased_ips = v.leased_ips;
  distinct = v.distinct;
}

module _ {Packet : Type 0} (build : Request → List Modifier → Option Packet)
    (parse_ip : Text → Ip) where
  unfoldable pub step : ℕ → Event → Server → Server
  step now (message peer req) s = (handler build now s peer req).0
  step now tick s = (reap now s).0
  step now (reserve m) s = set_reservations parse_ip s m
  step now (pxe_options server file) s = set_pxe_options parse_ip s server file
  step now (mac_boot_files m) s = set_mac_pxe_boot_files s m
  step now (ipxe_file file) s = set_ipxe_boot_file s file
  step now (uefi_file file) s = set_uefi_boot_file s file
  step now (legacy_file file) s = set_legacy_boot_file s file
  step now watch_leases s = set_on_lease s
  step now watch_expiry s = set_on_lease_expired s

  unfoldable pub run : List (ℕ × Event) → Server → Server
  run [] s = s
  run ((now, e) ∷ es) s = run es (step now e s)

  module _ (parses : ParsesIp4 parse_ip) where
    step-IsValid :
        (now : ℕ) (e : Event) (s : Server)
        → IsValid s
        → Unique now s.leases
        → IsValid (step now e s) × Unique now (step now e s).leases
    unfolding step
    step-IsValid now (message peer req) s v u = handler-IsValid build now s peer req v u
    step-IsValid now tick s v u =
        (reap-IsValid now s v, unfold reap in Unique-keep now _ s.leases v.distinct u)
    step-IsValid now (reserve m) s v u =
        (set_reservations-IsValid parse_ip parses s m v, unfold set_reservations in u)
    step-IsValid now (pxe_options server file) s v u =
        unfold set_pxe_options in (options-IsValid s _ file _ _ _ _ _ _ v, u)
    step-IsValid now (mac_boot_files m) s v u =
        unfold set_mac_pxe_boot_files in
        (options-IsValid s _ _ (normalized_onto [] m) _ _ _ _ _ v, u)
    step-IsValid now (ipxe_file file) s v u =
        unfold set_ipxe_boot_file in (options-IsValid s _ _ _ file _ _ _ _ v, u)
    step-IsValid now (uefi_file file) s v u =
        unfold set_uefi_boot_file in (options-IsValid s _ _ _ _ file _ _ _ v, u)
    step-IsValid now (legacy_file file) s v u =
        unfold set_legacy_boot_file in (options-IsValid s _ _ _ _ _ file _ _ v, u)
    step-IsValid now watch_leases s v u =
        unfold set_on_lease in (options-IsValid s _ _ _ _ _ _ true _ v, u)
    step-IsValid now watch_expiry s v u =
        unfold set_on_lease_expired in (options-IsValid s _ _ _ _ _ _ _ true v, u)

    -- Through any schedule of messages, ticks and setter calls whose times do not go back, a server that
    -- is well-formed stays so, and if no address is under the running leases of two clients, none comes
    -- to be. `net.ParseIP` gives four bytes, or an address that is not IPv4.
    pub run-IsValid :
        (es : List (ℕ × Event)) (now : ℕ) (s : Server)
        → IsOrdered now es
        → IsValid s
        → Unique now s.leases
        → IsValid (run es s) × Unique (last_time now es) (run es s).leases
    unfolding run
    run-IsValid [] now s o v u = (v, u)
    run-IsValid ((t, e) ∷ es) now s o v u =
        let (v', u') = step-IsValid t e s v (Unique-later now t s.leases o.0 u) in
        run-IsValid es t (step t e s) o.1 v' u'
