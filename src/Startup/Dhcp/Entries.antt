-- ===== src/Startup/Dhcp/Entries.antt =====
-- The DHCP servers that the start of cmd/gokrazy-router/main.go makes, and the invariant of their tables.
use gokrazy_router.Prelude.{
  ℕ, ◌+◌, ◌^◌, ◌≤◌, ◌<◌, ◌≡◌, Bool, true, false, not, ◌&&◌, ◌||◌, List, [], ◌∷◌, ◌++◌,
  if◌then◌else◌, All, All-append, Text, codes, is_empty, Dict,
}
use gokrazy_router.Net.{Ip, to4}
use gokrazy_router.Net.Value.{value}
use gokrazy_router.Config.{Config, DhcpConfig, VlanConfig, WifiConfig, PxeConfig}
use gokrazy_router.Dhcp.State.{
  Result, ok, err, ◌>>=◌, Server, set_reservations, set_pxe_options, set_legacy_boot_file,
  set_uefi_boot_file, set_ipxe_boot_file, set_mac_pxe_boot_files, set_on_lease,
  set_on_lease_expired, new,
}
use gokrazy_router.Dhcp.Alloc.Invariant.{IsValid, Unique}
use gokrazy_router.Dhcp.Steps.{ParsesIp4, set_reservations-IsValid}
use gokrazy_router.Dhcp.Start.{Holds, new-IsValid}
use gokrazy_router.Reload.Boot.{apply_dhcp_options, apply_pxe_boot_options, boot_file_of}
use gokrazy_router.Reload.Run.{DhcpEntry}
use gokrazy_router.Vlan.{bridge_name}
use gokrazy_router.Startup.{vlan_mode}
use gokrazy_router.Prelude.Decimal.{print_int}
use gokrazy_router.Startup.Dhcp.{
  Host, watch, iface_ip_from_cidr, parse_lease_duration, start_scope, start_vlans, start_lan,
  start_wifi, start_dhcp,
}

-- well-formed, with no address leased to two
abbrev pub IsSound : Server → Type 0
IsSound s = IsValid s × ((now : ℕ) → Unique now s.leases)

Holds-IsSound :
    (r : Result Server)
    → Holds (λ s. IsValid s × ((now : ℕ) → Unique now s.leases) × (s.leases ≡ [])) r
    → Holds IsSound r
Holds-IsSound (err e) h = tt
Holds-IsSound (ok s) h = (h.0, h.1)

if-IsSound : (b : Bool) (s t : Server) → IsSound s → IsSound t → IsSound (if b then s else t)
if-IsSound true s t hs ht = hs
if-IsSound false s t hs ht = ht

watch-IsSound : (b : Bool) (s : Server) → IsSound s → IsSound (watch b s)
unfolding watch set_on_lease set_on_lease_expired
watch-IsSound false s h = h
watch-IsSound true s h = (
  record {
    range = h.0.range;
    next_in = h.0.next_in;
    reserved_ips = h.0.reserved_ips;
    leased_ips = h.0.leased_ips;
    distinct = h.0.distinct;
  },
  h.1,
)

module _ (parse_ip : Text → Ip) where
  set_pxe_options-IsSound :
      (a b : Text) (s : Server) → IsSound s → IsSound (set_pxe_options parse_ip s a b)
  unfolding set_pxe_options
  set_pxe_options-IsSound a b s h = (
    record {
      range = h.0.range;
      next_in = h.0.next_in;
      reserved_ips = h.0.reserved_ips;
      leased_ips = h.0.leased_ips;
      distinct = h.0.distinct;
    },
    h.1,
  )

  apply_pxe_boot_options-IsSound :
      (tftp_server : Text) (images : Dict Text) (pxe : PxeConfig) (s : Server)
      → IsSound s
      → IsSound (apply_pxe_boot_options parse_ip true tftp_server images pxe s)
  unfolding apply_pxe_boot_options set_legacy_boot_file set_uefi_boot_file set_ipxe_boot_file
      set_mac_pxe_boot_files
  apply_pxe_boot_options-IsSound tftp_server images pxe s h =
      let test = not (is_empty tftp_server) || not (is_empty (boot_file_of pxe)) in
      let k =
        if-IsSound test (set_pxe_options parse_ip s tftp_server (boot_file_of pxe)) s
          (set_pxe_options-IsSound tftp_server (boot_file_of pxe) s h) h in
      (
        record {
          range = k.0.range;
          next_in = k.0.next_in;
          reserved_ips = k.0.reserved_ips;
          leased_ips = k.0.leased_ips;
          distinct = k.0.distinct;
        },
        k.1,
      )

  apply_dhcp_options-IsSound :
      (d : DhcpConfig) (enabled : Bool) (tftp_server : Text) (images : Dict Text) (pxe : PxeConfig)
      (s : Server)
      → ParsesIp4 parse_ip
      → IsSound s
      → IsSound (apply_dhcp_options parse_ip d enabled tftp_server images pxe s)
  unfolding apply_dhcp_options
  apply_dhcp_options-IsSound d enabled tftp_server images pxe s parses h =
      let reserved =
        if-IsSound (is_empty d.reservations) s (set_reservations parse_ip s d.reservations) h (
          set_reservations-IsValid parse_ip parses s d.reservations h.0,
          unfold set_reservations in h.1,
        ) in
      if-IsSound (not enabled) _ _ reserved (apply_pxe_boot_options-IsSound _ images _ _ reserved)

-- the range of a scope is in order and ends below the highest address
abbrev pub HasRange : (Text → Ip) → DhcpConfig → Type 0
HasRange parse_ip d =
    (value (to4 (parse_ip d.range_start)) ≤ value (to4 (parse_ip d.range_end)))
    × (value (to4 (parse_ip d.range_end)) + 1 < 2 ^ 32)

abbrev AllSound : List DhcpEntry → Type 0
AllSound = All (λ x. IsSound x.srv)

-- an error, or entries with sound servers
abbrev pub Entries : Result (List DhcpEntry) → Type 0
Entries (err e) = Unit
Entries (ok es) = AllSound es

abbrev Entry : Result DhcpEntry → Type 0
Entry (err e) = Unit
Entry (ok x) = IsSound x.srv

-- one entry before the others
cons-Entries :
    (first : Result DhcpEntry) (rest : Result (List DhcpEntry))
    → Entry first
    → Entries rest
    → Entries (do entry ← first; others ← rest; ok (entry ∷ others))
cons-Entries (err e) rest h k = tt
cons-Entries (ok x) (err e) h k = tt
cons-Entries (ok x) (ok es) h k = (h, k)

single-Entries :
    (first : Result DhcpEntry) → Entry first → Entries (do entry ← first; ok (entry ∷ []))
single-Entries (err e) h = tt
single-Entries (ok x) h = (h, tt)

if-Entries :
    (b : Bool) (r s : Result (List DhcpEntry))
    → Entries r
    → Entries s
    → Entries (if b then r else s)
if-Entries true r s h k = h
if-Entries false r s h k = k

finish-Entry :
    (made : Result Server) (context : Text) (finish : Server → DhcpEntry)
    → ((s : Server) → IsSound s → IsSound (finish s).srv)
    → Holds IsSound made
    → Entry (elim made [ err e ↦ err (context ++ codes ": " ++ e) | ok srv ↦ ok (finish srv) ])
finish-Entry (err e) context finish sound h = tt
finish-Entry (ok s) context finish sound h = sound s h

append-Entries :
    (first rest : Result (List DhcpEntry))
    → Entries first
    → Entries rest
    → Entries (do entries ← first; others ← rest; ok (entries ++ others))
append-Entries (err e) rest h k = tt
append-Entries (ok es) (err e) h k = tt
append-Entries (ok es) (ok fs) h k = All-append (λ x. IsSound x.srv) es fs h k

module _ (host : Host) (parses : ParsesIp4 host.parse_ip) (cfg : Config) where
  start_scope-Entry :
      (context iface address : Text) (d base_scope : DhcpConfig)
      → HasRange host.parse_ip d
      → Entry (start_scope host cfg context iface address d base_scope)
  unfolding start_scope
  start_scope-Entry context iface address d base_scope h =
      let pxe = cfg.services.pxe in
      let addr = iface_ip_from_cidr host address in
      let lease = parse_lease_duration host.parse_duration host.twelve_hours d in
      finish-Entry
        (new host.parse_ip host.parse_cidr iface address d.range_start d.range_end d.dns lease)
        context
        (λ srv. record {
          srv =
              watch host.monitored
                (apply_dhcp_options host.parse_ip d pxe.enabled addr pxe.mac_images pxe srv);
          tftp_addr = addr;
          base_scope = base_scope;
        })
        (λ s k. watch-IsSound host.monitored _ (
          apply_dhcp_options-IsSound host.parse_ip d pxe.enabled addr pxe.mac_images pxe s parses
            k))
        (Holds-IsSound
          (new host.parse_ip host.parse_cidr iface address d.range_start d.range_end d.dns lease)
          (new-IsValid host.parse_ip host.parse_cidr iface address d.range_start d.range_end d.dns
            lease parses h.0 h.1))

  start_vlans-Entries :
      (vcs base : List VlanConfig)
      → All (λ v. HasRange host.parse_ip v.dhcp) vcs
      → Entries (start_vlans host cfg vcs base)
  unfolding start_vlans
  start_vlans-Entries [] base h = tt
  start_vlans-Entries (vc ∷ vcs) [] h = tt
  start_vlans-Entries (vc ∷ vcs) (b ∷ base) h =
      let rest = start_vlans-Entries vcs base h.1 in
      let context = codes "dhcp vlan " ++ print_int vc.id in
      let first = start_scope host cfg context (bridge_name vc.id) vc.address vc.dhcp b.dhcp in
      if-Entries (not vc.dhcp.enabled) (start_vlans host cfg vcs base) _ rest (
        cons-Entries first (start_vlans host cfg vcs base)
          (start_scope-Entry context (bridge_name vc.id) vc.address vc.dhcp b.dhcp h.0) rest)

  start_wifi-Entries :
      (routed : Bool) (base : WifiConfig)
      → HasRange host.parse_ip cfg.wifi.dhcp
      → Entries (start_wifi host cfg routed base)
  unfolding start_wifi
  start_wifi-Entries routed base h =
      let iface = if is_empty cfg.wifi.interface then codes "wlan0" else cfg.wifi.interface in
      if-Entries (routed && not (is_empty cfg.wifi.address) && cfg.wifi.dhcp.enabled) _ (ok [])
        (single-Entries
          (start_scope host cfg (codes "dhcp wifi") iface cfg.wifi.address cfg.wifi.dhcp base.dhcp)
          (start_scope-Entry (codes "dhcp wifi") iface cfg.wifi.address cfg.wifi.dhcp base.dhcp h))
        tt

  start_lan-Entries :
      (base : DhcpConfig) → HasRange host.parse_ip cfg.lan.dhcp → Entries (start_lan host cfg base)
  unfolding start_lan
  start_lan-Entries base h =
      if-Entries cfg.lan.dhcp.enabled _ (ok [])
        (single-Entries
          (start_scope host cfg (codes "dhcp") cfg.lan.bridge cfg.lan.address cfg.lan.dhcp base)
          (start_scope-Entry (codes "dhcp") cfg.lan.bridge cfg.lan.address cfg.lan.dhcp base h))
        tt

  -- `net.ParseIP` gives four bytes, or an address that is not IPv4. Where the range of every scope is in
  -- order and ends below 255.255.255.255, every DHCP server that the program starts, with the
  -- reservations and boot options of its scope, is well-formed, and no address is leased to two clients.
  pub start_dhcp-Entries :
      (routed : Bool) (base : Config)
      → HasRange host.parse_ip cfg.lan.dhcp
      → HasRange host.parse_ip cfg.wifi.dhcp
      → All (λ v. HasRange host.parse_ip v.dhcp) cfg.vlans
      → Entries (start_dhcp host cfg routed base)
  unfolding start_dhcp
  start_dhcp-Entries routed base lan wifi vlans =
      let scopes =
        if-Entries (vlan_mode cfg) (start_vlans host cfg cfg.vlans base.vlans)
          (start_lan host cfg base.lan.dhcp) (start_vlans-Entries cfg.vlans base.vlans vlans)
          (start_lan-Entries base.lan.dhcp lan) in
      append-Entries _ (start_wifi host cfg routed base.wifi) scopes
        (start_wifi-Entries routed base.wifi wifi)
