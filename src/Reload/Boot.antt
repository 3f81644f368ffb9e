-- ===== src/Reload/Boot.antt =====
-- `applyDHCPOptions` and `applyPXEBootOptions` of cmd/gokrazy-router/main.go: the boot options that a
-- DHCP server gets, when it starts and on a reload.
use gokrazy_router.Prelude.{
  ◌≡◌, refl, ◌∙◌, ◌≢◌, Bool, true, false, not, ◌||◌, [], arith, if◌then◌else◌, Text, codes,
  is_empty, Dict,
}
use gokrazy_router.Net.{Ip}
use gokrazy_router.Config.{DhcpConfig, PxeConfig}
use gokrazy_router.Dhcp.State.{
  Server, set_reservations, set_pxe_options, set_legacy_boot_file, set_uefi_boot_file,
  set_ipxe_boot_file, set_mac_pxe_boot_files,
}

-- a text, or another where it is empty
abbrev pub or_else : Text → Text → Text
or_else a b = if is_empty a then b else a

abbrev pub boot_file_of : PxeConfig → Text
boot_file_of pxe = or_else (or_else pxe.boot_file pxe.default_image) (codes "netboot.xyz.efi")

abbrev pub legacy_file_of : PxeConfig → Text
legacy_file_of pxe = or_else pxe.legacy_boot_file (boot_file_of pxe)

abbrev pub uefi_file_of : PxeConfig → Text
uefi_file_of pxe = or_else pxe.uefi_boot_file (codes "netboot.xyz.efi")

abbrev pub ipxe_file_of : PxeConfig → Text
ipxe_file_of pxe = or_else pxe.ipxe_script (codes "boot.ipxe")

module _ (parse_ip : Text → Ip) where
  unfoldable pub apply_pxe_boot_options : Bool → Text → Dict Text → PxeConfig → Server → Server
  apply_pxe_boot_options false tftp_server mac_images pxe srv = srv
  apply_pxe_boot_options true tftp_server mac_images pxe srv =
      let boot_file = boot_file_of pxe in
      let located =
        if not (is_empty tftp_server) || not (is_empty boot_file)
        then set_pxe_options parse_ip srv tftp_server boot_file
        else srv in
      let with_legacy = set_legacy_boot_file located (legacy_file_of pxe) in
      let with_uefi = set_uefi_boot_file with_legacy (uefi_file_of pxe) in
      let with_ipxe = set_ipxe_boot_file with_uefi (ipxe_file_of pxe) in
      set_mac_pxe_boot_files with_ipxe mac_images

  unfoldable pub apply_dhcp_options :
      DhcpConfig → Bool → Text → Dict Text → PxeConfig → Server → Server
  apply_dhcp_options dhcpcfg pxe_enabled tftp_server mac_images pxe srv =
      let reserved =
        if is_empty dhcpcfg.reservations
        then srv
        else set_reservations parse_ip srv dhcpcfg.reservations in
      let boot_server = or_else dhcpcfg.pxe_boot_server tftp_server in
      let scope_pxe : PxeConfig = record pxe {
        boot_file = or_else dhcpcfg.pxe_boot_file pxe.boot_file;
      } in
      if not pxe_enabled
      then reserved
      else apply_pxe_boot_options true boot_server mac_images scope_pxe reserved

  -- A server with PXE enabled never lacks a boot file, for any kind of client.
  pub apply_pxe_boot_options-ne-nil :
      (tftp_server : Text) (mac_images : Dict Text) (pxe : PxeConfig) (srv : Server)
      → let s = apply_pxe_boot_options true tftp_server mac_images pxe srv in
        (s.pxe_boot_file ≢ [])
        × (s.legacy_boot_file ≢ [])
        × (s.uefi_boot_file ≢ [])
        × (s.ipxe_boot_file ≢ [])
  unfolding apply_pxe_boot_options set_pxe_options set_legacy_boot_file set_uefi_boot_file
      set_ipxe_boot_file set_mac_pxe_boot_files
  apply_pxe_boot_options-ne-nil tftp_server mac_images pxe srv =
      (ground arith, ground arith, ground arith, ground arith)

  -- the options leave the leases and the next address of a server alone
  pub leases-apply_pxe_boot_options :
      (enabled : Bool) (tftp_server : Text) (mac_images : Dict Text) (pxe : PxeConfig)
      (srv : Server)
      → ((apply_pxe_boot_options enabled tftp_server mac_images pxe srv).leases ≡ srv.leases)
        × ((apply_pxe_boot_options enabled tftp_server mac_images pxe srv).next_ip ≡ srv.next_ip)
  unfolding apply_pxe_boot_options set_pxe_options set_legacy_boot_file set_uefi_boot_file
      set_ipxe_boot_file set_mac_pxe_boot_files
  leases-apply_pxe_boot_options false tftp_server mac_images pxe srv = (refl, refl)
  leases-apply_pxe_boot_options true tftp_server mac_images pxe srv = (ground arith, ground arith)

  pub boot_file-apply_pxe_boot_options :
      (enabled : Bool) (tftp_server : Text) (mac_images : Dict Text) (pxe : PxeConfig)
      (srv : Server)
      → enabled ≡ true
      → (apply_pxe_boot_options enabled tftp_server mac_images pxe srv).pxe_boot_file
        ≡ boot_file_of pxe
  unfolding apply_pxe_boot_options set_pxe_options set_legacy_boot_file set_uefi_boot_file
      set_ipxe_boot_file set_mac_pxe_boot_files
  boot_file-apply_pxe_boot_options false tftp_server mac_images pxe srv h = cc
  boot_file-apply_pxe_boot_options true tftp_server mac_images pxe srv h = ground arith

  -- Where PXE is enabled and the scope has a boot file of its own, the server is started with that one.
  pub apply_dhcp_options_boot_file :
      (d : DhcpConfig) (tftp_server : Text) (mac_images : Dict Text) (pxe : PxeConfig)
      (srv : Server)
      → d.pxe_boot_file ≢ []
      → (apply_dhcp_options d true tftp_server mac_images pxe srv).pxe_boot_file ≡ d.pxe_boot_file
  unfolding apply_dhcp_options
  apply_dhcp_options_boot_file d tftp_server mac_images pxe srv h =
      boot_file-apply_pxe_boot_options true _ mac_images _ _ refl ∙ ground arith
