-- ===== src/Config/Apply/Seed.antt =====
-- The extras file that is made from the configuration, `ExtrasFromConfig` of pkg/config/config.go,
-- and the configuration after it is applied.
use gokrazy_router.Prelude.{◌≡◌, refl, ap, Option, [], Text}
use gokrazy_router.Net.{Ip}
use gokrazy_router.Dhcp.State.{Cidr}
use gokrazy_router.Config.{Config}
use gokrazy_router.Config.Apply.{
  apply_pxe, apply_dns, apply_extras, extras_from_config, copy_onto, clone_string_map,
}
use gokrazy_router.Config.Apply.Laws.{services-apply_extras}

module _ (parse_ip : Text → Ip) (parse_cidr : Text → Option Cidr) (c : Config) where
  -- The file made from a configuration brings back the boot files of the PXE service, and its images
  -- under normalized keys.
  pub pxe-extras_from_config :
      (apply_extras parse_ip parse_cidr (extras_from_config c) c).services.pxe
      ≡ record (c.services.pxe) {
        mac_images = clone_string_map (copy_onto [] c.services.pxe.mac_images);
      }
  unfolding extras_from_config apply_pxe
  pxe-extras_from_config =
      ap (λ s. s.pxe) (services-apply_extras parse_ip parse_cidr (extras_from_config c) c)

  -- Each scope's own boot file is replaced by the one of the PXE service.
  pub boot_file-extras_from_config :
      ((apply_extras parse_ip parse_cidr (extras_from_config c) c).lan.dhcp.pxe_boot_file
        ≡ c.services.pxe.boot_file)
      × ((apply_extras parse_ip parse_cidr (extras_from_config c) c).wifi.dhcp.pxe_boot_file
          ≡ c.services.pxe.boot_file)
  unfolding apply_extras extras_from_config apply_pxe apply_dns
  boot_file-extras_from_config = (refl, refl)
