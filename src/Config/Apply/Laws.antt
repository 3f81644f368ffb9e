-- ===== src/Config/Apply/Laws.antt =====
-- `ApplyExtras` of pkg/config/config.go: what a second extras file leaves of the first.
use gokrazy_router.Prelude.{◌≡◌, refl, ◌∙◌, Option, List, [], ◌∷◌, arith, Text, Dict}
use gokrazy_router.Net.{Ip}
use gokrazy_router.Dhcp.State.{Cidr}
use gokrazy_router.Config.{Config, ExtrasConfig}
use gokrazy_router.Config.Apply.{
  apply_reservation, apply_reservations, apply_pxe, apply_dns, apply_extras,
}

module _ (parse_ip : Text → Ip) (parse_cidr : Text → Option Cidr) where
  services-apply_reservation :
      (mac ip : Text) (c : Config)
      → (apply_reservation parse_ip parse_cidr mac ip c).services ≡ c.services
  unfolding apply_reservation
  services-apply_reservation mac ip c = ground arith

  services-apply_reservations :
      (m : Dict Text) (c : Config)
      → (apply_reservations parse_ip parse_cidr m c).services ≡ c.services
  unfolding apply_reservations
  services-apply_reservations [] c = refl
  services-apply_reservations ((mac, ip) ∷ m) c =
      services-apply_reservations m (apply_reservation parse_ip parse_cidr mac ip c)
      ∙ services-apply_reservation mac ip c

  services-apply_dns : (dns : List Text) (c : Config) → (apply_dns dns c).services ≡ c.services
  unfolding apply_dns
  services-apply_dns [] c = refl
  services-apply_dns (d ∷ ds) c = refl

  pub services-apply_extras :
      (e : ExtrasConfig) (c : Config)
      → (apply_extras parse_ip parse_cidr e c).services ≡ (apply_pxe e c).services
  unfolding apply_extras apply_pxe
  services-apply_extras e c =
      services-apply_dns e.dns _ ∙ rw (services-apply_reservations e.reservations c)

  -- An extras file leaves nothing behind in the PXE settings: under a later one they are as if the
  -- earlier had never been applied.
  pub apply_extras_last_wins :
      (e f : ExtrasConfig) (c : Config)
      → (apply_extras parse_ip parse_cidr f (apply_extras parse_ip parse_cidr e c)).services
        ≡ (apply_extras parse_ip parse_cidr f c).services
  unfolding apply_pxe
  apply_extras_last_wins e f c =
      rw (services-apply_extras f c, services-apply_extras f, services-apply_extras e)
