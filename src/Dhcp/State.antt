-- ===== src/Dhcp/State.antt =====
-- The `Server` of pkg/dhcp/dhcp.go, its constructor and its setters. Time is a number of
-- nanoseconds; a callback is registered or not, and its calls are the notices that an operation
-- returns. `net.ParseIP` and `net.ParseCIDR` are parameters: nil is the empty list.
use gokrazy_router.Prelude.{
  ℕ, Bool, true, false, not, ◌||◌, Option, none, some, List, [], ◌∷◌, ◌++◌, if◌then◌else◌, Text,
  codes, is_empty, Dict, insert,
}
use gokrazy_router.Mac.{normalize_mac}
use gokrazy_router.Net.{Ip, IpNet, to4, mask_ip, subnet_contains}

pub record Lease : Type 0 where
  pub ip : Ip
  pub expires : ℕ

pub record Server : Type 0 where
  pub iface : Text
  pub server_ip : Ip
  pub mask : List ℕ
  pub range_start : Ip
  pub range_end : Ip
  pub dns : List Ip
  pub lease : ℕ
  pub router : Ip
  pub leases : Dict Lease
  pub next_ip : Ip
  pub reservations : Dict Ip
  pub pxe_boot_server : Ip
  pub pxe_boot_file : Text
  pub mac_pxe_boot_files : Dict Text
  pub ipxe_boot_file : Text
  pub uefi_boot_file : Text
  pub legacy_boot_file : Text
  pub on_lease : Bool
  pub on_lease_expired : Bool

-- a call of a callback
pub data Notice : Type 0 where
  leased : Ip → Text → Notice
  expired : Ip → Text → Notice

pub data Result {ℓ} (Value : Type ℓ) : Type ℓ where
  err : Text → Result Value
  ok : Value → Result Value

infixl 5 ◌>>=◌
abbrev pub ◌>>=◌ {ℓ κ} :
    {Value : Type ℓ} {Next : Type κ} → Result Value → (Value → Result Next) → Result Next
err failure >>= next = err failure
ok value >>= next = next value

-- what `net.ParseCIDR` returns beside its error
pub record Cidr : Type 0 where
  pub address : Ip
  pub network : IpNet

module _ (parse_ip : Text → Ip) where
  -- the loop over `dns` in `New`
  unfoldable pub parse_dns : List Text → Result (List Ip)
  parse_dns [] = ok []
  parse_dns (d ∷ ds) =
      if is_empty (parse_ip d)
      then err (codes "invalid DNS server: " ++ d)
      else (do rest ← parse_dns ds; ok (to4 (parse_ip d) ∷ rest))

  unfoldable pub new :
      (Text → Option Cidr) → Text → Text → Text → Text → List Text → ℕ → Result Server
  unfolding parse_dns to4
  new parse_cidr iface server_addr range_start range_end dns lease_dur =
      elim (parse_cidr server_addr) [
        | none ↦ err (codes "parse server addr")
        | some cidr ↦ do
          parsed_dns ← parse_dns dns
          let rs = to4 (parse_ip range_start)
          let re = to4 (parse_ip range_end)
          if is_empty rs || is_empty re
              then err (codes "invalid DHCP range")
              else ok (record {
                iface = iface;
                server_ip = to4 cidr.address;
                mask = cidr.network.mask;
                range_start = rs;
                range_end = re;
                dns = parsed_dns;
                lease = lease_dur;
                router = to4 cidr.address;
                leases = [];
                next_ip = rs;
                reservations = [];
                pxe_boot_server = [];
                pxe_boot_file = [];
                mac_pxe_boot_files = [];
                ipxe_boot_file = [];
                uefi_boot_file = [];
                legacy_boot_file = [];
                on_lease = false;
                on_lease_expired = false;
              })
      ]

  -- the loop of `SetReservations`, onto the entries already made
  unfoldable pub add_reservations : IpNet → Dict Ip → Dict Text → Dict Ip
  unfolding subnet_contains to4
  add_reservations subnet made [] = made
  add_reservations subnet made ((mac, ip) ∷ rest) =
      let parsed = to4 (parse_ip ip) in
      add_reservations subnet
        (if is_empty parsed
          then made
          else if not (subnet_contains subnet parsed)
          then made
          else insert (normalize_mac mac) parsed made)
        rest

  unfoldable pub set_reservations : Server → Dict Text → Server
  unfolding add_reservations mask_ip
  set_reservations s reservations =
      let subnet : IpNet = record { ip = mask_ip s.server_ip s.mask; mask = s.mask } in
      record s { reservations = add_reservations subnet [] reservations }

  unfoldable pub set_pxe_options : Server → Text → Text → Server
  unfolding to4
  set_pxe_options s boot_server boot_file = record s {
    pxe_boot_server = if is_empty boot_server then [] else to4 (parse_ip boot_server);
    pxe_boot_file = boot_file;
  }

-- `OnLease` and `OnLeaseExpired`
unfoldable pub set_on_lease : Server → Server
set_on_lease s = record s { on_lease = true }

unfoldable pub set_on_lease_expired : Server → Server
set_on_lease_expired s = record s { on_lease_expired = true }

-- a map written entry by entry under normalized keys, onto the entries already made
unfoldable pub normalized_onto : Dict Text → Dict Text → Dict Text
normalized_onto made [] = made
normalized_onto made ((mac, file) ∷ rest) =
    normalized_onto (insert (normalize_mac mac) file made) rest

unfoldable pub set_mac_pxe_boot_files : Server → Dict Text → Server
unfolding normalized_onto
set_mac_pxe_boot_files s m = record s { mac_pxe_boot_files = normalized_onto [] m }

unfoldable pub set_ipxe_boot_file : Server → Text → Server
set_ipxe_boot_file s file = record s { ipxe_boot_file = file }

unfoldable pub set_uefi_boot_file : Server → Text → Server
set_uefi_boot_file s file = record s { uefi_boot_file = file }

unfoldable pub set_legacy_boot_file : Server → Text → Server
set_legacy_boot_file s file = record s { legacy_boot_file = file }
