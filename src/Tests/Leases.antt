-- ===== src/Tests/Leases.antt =====
-- A DHCP server with two addresses, one reservation and one running lease.
use gokrazy_router.Prelude.{
  false, ℕ, ◌≡◌, refl, inl, inr, Bool, true, Option, some, List, [], ◌∷◌, arith, Bool-cases, Text,
  codes, text_eq, text_eq_iff, lower, to_lower, replace_byte, trim_left, trim_space, lookup, insert,
  keep, any_entry,
}
use gokrazy_router.Mac.{normalize_mac}
use gokrazy_router.Net.{Ip, to4, ip_equal, inc_ip, ip_greater}
use gokrazy_router.Net.Value.{value, value_from}
use gokrazy_router.Dhcp.State.{Server, Lease, ok, new, parse_dns}
use gokrazy_router.Dhcp.Pool.{scan, advance, found}
use gokrazy_router.Dhcp.Pool.Cycle.{IsRange, InPool}
use gokrazy_router.Dhcp.Alloc.{allocate, allocate_free, reap, take_found, is_leased_or_reserved}
use gokrazy_router.Dhcp.Alloc.Invariant.{IsValid, Unique}
use gokrazy_router.Dhcp.Alloc.Outcome.{Outcome, allocate-Outcome, allocate-Unique}
use gokrazy_router.Dhcp.Reply.{
  boot_request, discover, offer, Request, Modifier, Peer, udp_addr, handler, reply_modifiers,
  reply_options, choose_boot_file, destination, ipv4_broadcast, with_message_type, with_server_ip,
  with_your_ip, opt_subnet_mask, opt_router, opt_dns, opt_lease_time, opt_server_identifier, answer,
  handle_op, handle_boot_request,
}
use gokrazy_router.Dhcp.Reply.Laws.{IsAnswer, handler-IsAnswer}
use gokrazy_router.Dhcp.Start.{Holds, new-IsValid}
use gokrazy_router.Dhcp.Steps.{Event, message, tick, reserve, ParsesIp4, run, run-IsValid}
use gokrazy_router.Tests.Addresses.{
  parse_cidr, router_text, router_ip, first_ip, last_ip, printer_ip, parse_ip, printer_text,
  first_ip-IsIp4, last_ip-IsIp4, printer_ip-IsIp4,
}

abbrev laptop : Text
laptop = codes "aa:aa"

abbrev phone : Text
phone = codes "bb:bb"

abbrev printer : Text
printer = codes "cc:cc"

abbrev laptop_lease : Lease
laptop_lease = record { ip = first_ip; expires = 200 }

abbrev pub server : Server
server = record {
  iface = codes "br0";
  server_ip = router_ip;
  mask = 255 ∷ 255 ∷ 255 ∷ 0 ∷ [];
  range_start = first_ip;
  range_end = last_ip;
  dns = router_ip ∷ [];
  lease = 3600;
  router = router_ip;
  leases = (laptop, laptop_lease) ∷ [];
  next_ip = first_ip;
  reservations = (printer, printer_ip) ∷ [];
  pxe_boot_server = [];
  pxe_boot_file = [];
  mac_pxe_boot_files = [];
  ipxe_boot_file = [];
  uefi_boot_file = [];
  legacy_boot_file = [];
  on_lease = true;
  on_lease_expired = true;
}

range : IsRange first_ip last_ip
unfolding value value_from
range = record {
  start_ip = first_ip-IsIp4;
  end_ip = last_ip-IsIp4;
  ordered = omega arith;
  below_top = omega arith;
}

first_in : InPool first_ip last_ip first_ip
unfolding value value_from
first_in = record { is_ip = first_ip-IsIp4; from_start = omega arith; to_end = omega arith }

server-IsValid : IsValid server
unfolding lookup
server-IsValid = record {
  range = range;
  next_in = first_in;
  reserved_ips = (printer_ip-IsIp4, tt);
  leased_ips = (first_ip-IsIp4, tt);
  distinct = (refl, tt);
}

server-Unique : Unique 100 server.leases
unfolding lookup
server-Unique m n k l e f p q same = ground (arith, text_eq_iff laptop m, text_eq_iff laptop n)

pub parses : ParsesIp4 parse_ip
unfolding to4
parses t = elim (Bool-cases (text_eq t printer_text)) [
  | inl e ↦ rw e (inr printer_ip-IsIp4)
  | inr e ↦ rw e (inl refl)
]

program : Unit {0}
unfolding normalize_mac to_lower replace_byte lower trim_space trim_left lookup insert keep
    any_entry to4 ip_equal inc_ip ip_greater value value_from scan advance allocate allocate_free
    reap text_eq handler reply_modifiers answer handle_op handle_boot_request take_found
    is_leased_or_reserved reply_options choose_boot_file destination
program = tt

abbrev discover_request : Request
discover_request = record {
  op_code = boot_request;
  client_hw_addr = phone;
  message_type = discover;
  user_class = [];
  architecture = [];
}

abbrev anywhere : Peer
anywhere = udp_addr (0 ∷ 0 ∷ 0 ∷ 0 ∷ []) 68

abbrev taken : Ip → Bool
taken ip = ip_equal ip first_ip

-- the scan steps past the leased address
scan_run : scan 2 taken first_ip last_ip first_ip first_ip ≡ found last_ip
unfolding program
scan_run = refl

allocate-Outcome_example : Outcome 100 phone server (allocate 100 phone server)
allocate-Outcome_example = allocate-Outcome 100 phone server server-IsValid

allocate-Unique_example : Unique 100 (allocate 100 phone server).0.leases
allocate-Unique_example = allocate-Unique 100 phone server server-IsValid server-Unique

-- a packet is what it was built from
abbrev build : Request → List Modifier → Option (Request × List Modifier)
build req ms = some (req, ms)

abbrev offered : Request × List Modifier
offered = (
  discover_request,
  with_message_type offer
      ∷ with_server_ip router_ip
      ∷ with_your_ip last_ip
      ∷ opt_subnet_mask (255 ∷ 255 ∷ 255 ∷ 0 ∷ [])
      ∷ opt_router router_ip
      ∷ opt_dns (router_ip ∷ [])
      ∷ opt_lease_time 3600
      ∷ opt_server_identifier router_ip
      ∷ [],
)

-- the laptop holds the first address, so the phone is offered the second
offer_run :
    (handler build 100 server anywhere discover_request).2
    ≡ some (offered, udp_addr ipv4_broadcast 68)
unfolding program
offer_run = refl

handler-IsAnswer_example :
    IsAnswer build 100 server anywhere discover_request
      (handler build 100 server anywhere discover_request)
      offered
      (udp_addr ipv4_broadcast 68)
handler-IsAnswer_example =
    handler-IsAnswer build 100 server anywhere discover_request offered (udp_addr ipv4_broadcast 68)
      server-IsValid (omega arith) offer_run

abbrev schedule : List (ℕ × Event)
schedule =
    (100, message anywhere discover_request)
    ∷ (150, reserve ((phone, printer_text) ∷ []))
    ∷ (250, tick)
    ∷ []

run-IsValid_example :
    IsValid (run build parse_ip schedule server)
    × Unique 250 (run build parse_ip schedule server).leases
run-IsValid_example =
    run-IsValid build parse_ip parses schedule 100 server
      (omega arith, (omega arith, (omega arith, tt))) server-IsValid server-Unique

new-IsValid_example :
    Holds
      (λ s. IsValid s × ((now : ℕ) → Unique now s.leases) × (s.leases ≡ []))
      (new parse_ip parse_cidr (codes "br0") router_text printer_text printer_text [] 3600)
new-IsValid_example =
    new-IsValid parse_ip parse_cidr (codes "br0") router_text printer_text printer_text [] 3600
      parses (unfold program in omega arith) (unfold program in omega arith)

-- the server that is made from these texts
new_run :
    new parse_ip parse_cidr (codes "br0") router_text printer_text printer_text [] 3600
    ≡ ok (record server {
      range_start = printer_ip;
      range_end = printer_ip;
      next_ip = printer_ip;
      dns = [];
      leases = [];
      reservations = [];
      on_lease = false;
      on_lease_expired = false;
    })
unfolding program new parse_dns
new_run = refl
