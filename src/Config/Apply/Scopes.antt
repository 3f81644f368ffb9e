-- ===== src/Config/Apply/Scopes.antt =====
-- `ApplyExtras` of pkg/config/config.go: which scope gets a reservation.
use mathlib.Core.List.{map-map}
use gokrazy_router.Prelude.{
  ◌≡◌, refl, sym, ap, ◌∙◌, ◌⊎◌, inl, inr, Bool, true, false, not, ◌&&◌, Option, some, List, [], ◌∷◌,
  ◌++◌, map, arith, if◌then◌else◌, Bool-cases, Text, text_eq, text_eq_refl, is_empty, Dict, lookup,
  lookup-insert, ℤ,
}
use gokrazy_router.Mac.{normalize_mac}
use gokrazy_router.Net.{Ip, to4}
use gokrazy_router.Dhcp.State.{Cidr}
use gokrazy_router.Config.{Config, VlanConfig, DhcpConfig, ExtrasConfig}
use gokrazy_router.Config.Apply.{
  vlan_dhcp, with_reservation, with_boot_file, with_dns, in_subnet_of, reserve_in_vlan,
  apply_reservation, apply_reservations, apply_pxe, set_vlan_address, apply_vlan_addresses,
  apply_dns, apply_extras,
}

module _ (parse_ip : Text → Ip) (parse_cidr : Text → Option Cidr) where
  -- the text is an IPv4 address, in the subnet of the CIDR text
  abbrev pub belongs : Text → Text → Bool
  belongs address ip =
      not (is_empty (parse_ip ip))
      && not (is_empty (to4 (parse_ip ip)))
      && in_subnet_of parse_ip parse_cidr address (to4 (parse_ip ip))

  -- one round of the loop, on one VLAN
  reserve_vlan : Text → Text → VlanConfig → VlanConfig
  reserve_vlan mac ip v = if belongs v.address ip then vlan_dhcp (with_reservation mac ip) v else v

  -- the whole loop, on one VLAN
  pub reserve_all : Dict Text → VlanConfig → VlanConfig
  reserve_all [] v = v
  reserve_all ((mac, ip) ∷ m) v = reserve_all m (reserve_vlan mac ip v)

  map-id :
      (f : VlanConfig → VlanConfig)
      → ((v : VlanConfig) → f v ≡ v)
      → (vs : List VlanConfig) → map f vs ≡ vs
  map-id f h [] = refl
  map-id f h (v ∷ vs) = cc (h v, map-id f h vs)

  map-eq :
      (f g : VlanConfig → VlanConfig)
      → ((v : VlanConfig) → f v ≡ g v)
      → (vs : List VlanConfig) → map f vs ≡ map g vs
  map-eq f g h [] = refl
  map-eq f g h (v ∷ vs) = cc (h v, map-eq f g h vs)

  vlans-apply_reservation :
      (mac ip : Text) (c : Config)
      → (apply_reservation parse_ip parse_cidr mac ip c).vlans ≡ map (reserve_vlan mac ip) c.vlans
  unfolding apply_reservation reserve_vlan
  vlans-apply_reservation mac ip c = elim (Bool-cases (is_empty (parse_ip ip))) [
    | inl e ↦ rw e (sym (map-id (reserve_vlan mac ip) (λ v. rw e) c.vlans))
    | inr e ↦ elim (Bool-cases (is_empty (to4 (parse_ip ip)))) [
      | inl f ↦ rw (e, f) (sym (map-id (reserve_vlan mac ip) (λ v. rw (e, f)) c.vlans))
      | inr f ↦
          rw (e, f)
            (map-eq (reserve_in_vlan parse_ip parse_cidr mac ip (to4 (parse_ip ip)))
              (reserve_vlan mac ip) (λ v. unfold reserve_in_vlan in rw (e, f)) c.vlans)
    ]
  ]

  pub vlans-apply_reservations :
      (m : Dict Text) (c : Config)
      → (apply_reservations parse_ip parse_cidr m c).vlans ≡ map (reserve_all m) c.vlans
  unfolding apply_reservations reserve_all
  vlans-apply_reservations [] c = sym (map-id _ (λ v. refl) c.vlans)
  vlans-apply_reservations ((mac, ip) ∷ m) c =
      vlans-apply_reservations m (apply_reservation parse_ip parse_cidr mac ip c)
      ∙ ap (map (reserve_all m)) (vlans-apply_reservation mac ip c)
      ∙ map-map (reserve_all m) (reserve_vlan mac ip) c.vlans

  -- the loop changes nothing of a VLAN but its reservations
  address-reserve_all : (m : Dict Text) (v : VlanConfig) → (reserve_all m v).address ≡ v.address
  unfolding reserve_all reserve_vlan
  address-reserve_all [] v = refl
  address-reserve_all ((mac, ip) ∷ m) v =
      address-reserve_all m (reserve_vlan mac ip v) ∙ ground arith

  -- A reservation of a VLAN after the loop was there before, or its address is in the VLAN's subnet.
  pub reserve_all_sound :
      (m : Dict Text) (v : VlanConfig) (k ip : Text)
      → lookup k (reserve_all m v).dhcp.reservations ≡ some ip
      → (lookup k v.dhcp.reservations ≡ some ip) ⊎ (belongs v.address ip ≡ true)
  unfolding reserve_all reserve_vlan
  reserve_all_sound [] v k ip h = inl h
  reserve_all_sound ((mac, x) ∷ m) v k ip h = ground (
    arith,
    reserve_all_sound m (reserve_vlan mac x v) k ip h,
    lookup-insert (normalize_mac mac) k x v.dhcp.reservations,
  )

  -- no entry of the list has the key, once normalized
  abbrev pub Lacks : Text → Dict Text → Type 0
  Lacks k [] = Unit
  Lacks k ((mac, ip) ∷ m) = (text_eq (normalize_mac mac) k ≡ false) × Lacks k m

  reserve_all_other :
      (m : Dict Text) (v : VlanConfig) (k : Text)
      → Lacks k m
      → lookup k (reserve_all m v).dhcp.reservations ≡ lookup k v.dhcp.reservations
  unfolding reserve_all reserve_vlan
  reserve_all_other [] v k h = refl
  reserve_all_other ((mac, x) ∷ m) v k h = ground (
    arith,
    reserve_all_other m (reserve_vlan mac x v) k h.1,
    lookup-insert (normalize_mac mac) k x v.dhcp.reservations,
  )

  -- An entry whose address is in the VLAN's subnet, and which no later entry has the key of, is the VLAN's
  -- reservation.
  reserve_all_complete :
      (before after : Dict Text) (mac ip : Text) (v : VlanConfig)
      → belongs v.address ip ≡ true
      → Lacks (normalize_mac mac) after
      → lookup (normalize_mac mac) (reserve_all (before ++ (mac, ip) ∷ after) v).dhcp.reservations
        ≡ some ip
  unfolding reserve_all reserve_vlan
  reserve_all_complete [] after mac ip v b h = ground (
    arith,
    reserve_all_other after (reserve_vlan mac ip v) (normalize_mac mac) h,
    lookup-insert (normalize_mac mac) (normalize_mac mac) ip v.dhcp.reservations,
    text_eq_refl (normalize_mac mac),
  )
  reserve_all_complete ((m, x) ∷ before) after mac ip v b h =
      reserve_all_complete before after mac ip (reserve_vlan m x v) (ground arith) h

  abbrev pub reservations_of : List VlanConfig → List (Dict Text)
  reservations_of = map (λ v. v.dhcp.reservations)

  reservations-vlan_dhcp :
      (f : DhcpConfig → DhcpConfig)
      → ((d : DhcpConfig) → (f d).reservations ≡ d.reservations)
      → (vs : List VlanConfig) → reservations_of (map (vlan_dhcp f) vs) ≡ reservations_of vs
  reservations-vlan_dhcp f h [] = refl
  reservations-vlan_dhcp f h (v ∷ vs) = cc (h v.dhcp, reservations-vlan_dhcp f h vs)

  reservations-set_vlan_address :
      (id : ℤ) (addr : Text) (vs : List VlanConfig)
      → reservations_of (set_vlan_address id addr vs) ≡ reservations_of vs
  unfolding set_vlan_address
  reservations-set_vlan_address id addr [] = refl
  reservations-set_vlan_address id addr (v ∷ vs) =
      ground (arith, reservations-set_vlan_address id addr vs)

  reservations-apply_vlan_addresses :
      (m : List (ℤ × Text)) (vs : List VlanConfig)
      → reservations_of (apply_vlan_addresses m vs) ≡ reservations_of vs
  unfolding apply_vlan_addresses
  reservations-apply_vlan_addresses [] vs = refl
  reservations-apply_vlan_addresses ((id, addr) ∷ m) vs =
      reservations-apply_vlan_addresses m (set_vlan_address id addr vs)
      ∙ reservations-set_vlan_address id addr vs

  reservations-apply_dns :
      (dns : List Text) (c : Config)
      → reservations_of (apply_dns dns c).vlans ≡ reservations_of c.vlans
  unfolding apply_dns
  reservations-apply_dns [] c = refl
  reservations-apply_dns (d ∷ ds) c = reservations-vlan_dhcp (with_dns (d ∷ ds)) (λ x. refl) c.vlans

  -- The reservations of the VLANs after `ApplyExtras` are those that the loop over the file's
  -- reservations leaves, decided by the addresses that the VLANs had before the file's overrides.
  pub reservations-apply_extras :
      (e : ExtrasConfig) (c : Config)
      → reservations_of (apply_extras parse_ip parse_cidr e c).vlans
        ≡ map (λ v. (reserve_all e.reservations v).dhcp.reservations) c.vlans
  unfolding apply_extras apply_pxe
  reservations-apply_extras e c =
      reservations-apply_dns e.dns _
      ∙ reservations-apply_vlan_addresses e.vlan_addresses _
      ∙ reservations-vlan_dhcp (with_boot_file e.pxe_boot_file) (λ x. refl) _
      ∙ ap reservations_of (vlans-apply_reservations e.reservations c)
      ∙ map-map (λ v. v.dhcp.reservations) (reserve_all e.reservations) c.vlans
