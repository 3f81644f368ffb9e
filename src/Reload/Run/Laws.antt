-- ===== src/Reload/Run/Laws.antt =====
-- What a reload of cmd/gokrazy-router/main.go does to the router.
use gokrazy_router.Prelude.{
  ◌≡◌, refl, ◌∙◌, ◌≢◌, ◌⊎◌, inl, inr, true, Option, none, some, List, [], ◌∷◌, map, arith,
  Bool-cases, All, Text, text_eq, text_eq_iff, is_empty, Dict, lookup, insert, lookup-insert,
  Distinct,
}
use mathlib.Core.Path.{subst}
use gokrazy_router.Net.{Ip}
use gokrazy_router.Config.{Config, ExtrasConfig, empty_extras}
use gokrazy_router.Config.Apply.{
  apply_extras, copy_onto, apply_pxe, extras_from_config, clone_string_map, clone_onto,
}
use gokrazy_router.Config.Apply.Laws.{services-apply_extras}
use gokrazy_router.Dhcp.State.{Cidr, Lease, set_reservations, normalized_onto}
use gokrazy_router.Pxe.Image.{ImageServer, set_mac_images, set_default_image}
use gokrazy_router.Reload.Boot.{
  leases-apply_pxe_boot_options, boot_file-apply_pxe_boot_options, boot_file_of,
}
use gokrazy_router.Reload.Users.{equal_smb_users, smb_users_key, sort_strings, join_nul}
use gokrazy_router.Reload.Run.Loaded.{loaded, not_exist, unreadable}
use gokrazy_router.Reload.Run.Save.{written, write_failed}
use gokrazy_router.Reload.Run.{
  DhcpEntry, Reloader, Loaded, Save, load_or_create_extras, addresses_changed, ReloadError,
  reload_extras, check_restart_required, reload_entry, merged_reservations, apply_reload, reload,
}

lookup-copy_onto :
    (k : Text) (out m : Dict Text)
    → Distinct m
    → lookup k (copy_onto out m) ≡ elim (lookup k m) [ none ↦ lookup k out | some v ↦ some v ]
unfolding copy_onto lookup
lookup-copy_onto k out [] d = refl
lookup-copy_onto k out ((j, v) ∷ m) d = ground (
  arith,
  lookup-copy_onto k (insert j v out) m d.1,
  lookup-insert j k v out,
  text_eq_iff j k,
  d.0,
)

or_none : (o : Option Text) → elim o [ none ↦ none | some v ↦ some v ] ≡ o
or_none none = refl
or_none (some v) = refl

lookup-copy_nil : (k : Text) (m : Dict Text) → Distinct m → lookup k (copy_onto [] m) ≡ lookup k m
unfolding lookup
lookup-copy_nil k m d = lookup-copy_onto k [] m d ∙ or_none (lookup k m)

-- The reservations of a reload are those of the extras file, and where it has none for a client, those
-- of the scope in the base configuration.
pub merged_reservations_lem :
    (k : Text) (base extras : Dict Text)
    → Distinct base
    → Distinct extras
    → lookup k (merged_reservations base extras)
      ≡ elim (lookup k extras) [ none ↦ lookup k base | some ip ↦ some ip ]
unfolding merged_reservations
merged_reservations_lem k base extras db de =
    lookup-copy_onto k (copy_onto [] base) extras de ∙ ground (arith, lookup-copy_nil k base db)

-- a file that is created from the configuration, or what a failed write of it left
abbrev pub Created : Config → Save → Loaded → Type 0
Created cfg save after =
    ((save ≡ written) × (after ≡ loaded (extras_from_config cfg))) ⊎ (save ≡ write_failed after)

module _ (parse_ip : Text → Ip) (parse_cidr : Text → Option Cidr) where
  Created-load_or_create_extras :
      (file : Loaded) (save : Save) (cfg : Config)
      → ((load_or_create_extras file save cfg).1 ≡ file)
        ⊎ ((file ≡ not_exist) × Created cfg save (load_or_create_extras file save cfg).1)
  unfolding load_or_create_extras
  Created-load_or_create_extras (loaded e) save cfg = inl refl
  Created-load_or_create_extras unreadable save cfg = inl refl
  Created-load_or_create_extras not_exist written cfg = inr (refl, inl (refl, refl))
  Created-load_or_create_extras not_exist (write_failed left) cfg = inr (refl, inr refl)

  -- A reload that reports an error leaves the router as it is, its configuration, its DHCP servers and the PXE
  -- server. It leaves the extras file as it is, too; or there was none, and it is created from the configuration, or
  -- the write of it fails and leaves what it has written.
  pub reload_refused :
      (file : Loaded) (save : Save) (r : Reloader) (e : ReloadError)
      → (reload parse_ip parse_cidr file save r).1 ≡ some e
      → ((reload parse_ip parse_cidr file save r).0 ≡ r)
        × (((reload parse_ip parse_cidr file save r).2 ≡ file)
            ⊎ ((file ≡ not_exist) × Created r.cfg save (reload parse_ip parse_cidr file save r).2))
  unfolding reload
  reload_refused file save r e h = (
    ground arith,
    elim (Bool-cases (is_empty r.extras_path)) [
      | inl none_given ↦ rw none_given (inl refl)
      | inr given ↦ elim (Created-load_or_create_extras file save r.cfg) [
        | inl same ↦ inl (ground (arith, same, given))
        | inr (missing, made) ↦
            let after : (load_or_create_extras file save r.cfg).1
                ≡ (reload parse_ip parse_cidr file save r).2 =
              ground (arith, given) in
            inr (missing, subst (Created r.cfg save) after made)
      ]
    ],
  )

  leases-reload_entry :
      (cfg : Config) (e : ExtrasConfig) (d : DhcpEntry)
      → ((reload_entry parse_ip parse_cidr cfg e d).srv.leases ≡ d.srv.leases)
        × ((reload_entry parse_ip parse_cidr cfg e d).srv.next_ip ≡ d.srv.next_ip)
  unfolding reload_entry set_reservations
  leases-reload_entry cfg e d =
      leases-apply_pxe_boot_options parse_ip cfg.services.pxe.enabled _ cfg.services.pxe.mac_images
        cfg.services.pxe _

  -- the leases of the servers, and the addresses that they give out next
  abbrev pub leases_of : List DhcpEntry → List (Dict Lease × Ip)
  leases_of ds = map (λ d. (d.srv.leases, d.srv.next_ip)) ds

  leases-reload_entries :
      (cfg : Config) (e : ExtrasConfig) (ds : List DhcpEntry)
      → leases_of (map (reload_entry parse_ip parse_cidr cfg e) ds) ≡ leases_of ds
  leases-reload_entries cfg e [] = refl
  leases-reload_entries cfg e (d ∷ ds) =
      let h = leases-reload_entry cfg e d in rw (h.0, h.1, leases-reload_entries cfg e ds)

  -- A reload keeps the leases of every server, and the address each gives out next, whether it
  -- succeeds or not.
  pub reload_keeps_leases :
      (file : Loaded) (save : Save) (r : Reloader)
      → leases_of (reload parse_ip parse_cidr file save r).0.dhcp_entries ≡ leases_of r.dhcp_entries
  unfolding reload apply_reload
  reload_keeps_leases file save r = ground (
    arith,
    leases-reload_entries (apply_extras parse_ip parse_cidr (reload_extras file save r.cfg) r.cfg)
        (reload_extras file save r.cfg) r.dhcp_entries,
  )

  reload-unreadable :
      (save : Save) (r : Reloader)
      → r.extras_path ≢ []
      → r.applied_smb_users ≡ []
      → reload parse_ip parse_cidr unreadable save r
        ≡ (apply_reload parse_ip parse_cidr r empty_extras, none, unreadable)
  unfolding reload load_or_create_extras check_restart_required addresses_changed equal_smb_users
      smb_users_key sort_strings join_nul text_eq
  reload-unreadable save r hp hu = rw hu (ground arith)

  -- Where the extras file cannot be read and SMB was started without users of its own, the reload
  -- succeeds and takes the images of the clients and the default image out of the PXE server and the
  -- configuration, whatever the base configuration has there.
  reload_unreadable :
      (save : Save) (r : Reloader) (s : ImageServer)
      → r.extras_path ≢ []
      → r.applied_smb_users ≡ []
      → r.pxe_srv ≡ some s
      → ((reload parse_ip parse_cidr unreadable save r).1 ≡ none)
        × ((reload parse_ip parse_cidr unreadable save r).0.pxe_srv
            ≡ some (record { handler = []; default_image = [] }))
        × ((reload parse_ip parse_cidr unreadable save r).0.cfg.services.pxe.mac_images ≡ [])
        × ((reload parse_ip parse_cidr unreadable save r).0.cfg.services.pxe.default_image ≡ [])
  unfolding apply_reload apply_pxe clone_string_map clone_onto set_mac_images set_default_image
      normalized_onto
  reload_unreadable save r s hp hu hs =
      rw
        (
          reload-unreadable save r hp hu,
          hs,
          services-apply_extras parse_ip parse_cidr empty_extras r.cfg,
        )
        (refl, refl, refl, refl)

  pxe-apply_extras :
      (e : ExtrasConfig) (c : Config)
      → ((apply_extras parse_ip parse_cidr e c).services.pxe.enabled ≡ c.services.pxe.enabled)
        × (boot_file_of (apply_extras parse_ip parse_cidr e c).services.pxe
            ≡ boot_file_of (record (c.services.pxe) { default_image = e.default_image }))
  unfolding apply_pxe
  pxe-apply_extras e c = rw (services-apply_extras parse_ip parse_cidr e c) (refl, refl)

  boot_file-reload_entries :
      (c : Config) (e : ExtrasConfig) (file : Text) (ds : List DhcpEntry)
      → c.services.pxe.enabled ≡ true
      → boot_file_of c.services.pxe ≡ file
      → All (λ d. d.srv.pxe_boot_file ≡ file) (map (reload_entry parse_ip parse_cidr c e) ds)
  unfolding reload_entry
  boot_file-reload_entries c e file [] h k = tt
  boot_file-reload_entries c e file (d ∷ ds) h k = (
    boot_file-apply_pxe_boot_options parse_ip c.services.pxe.enabled _ c.services.pxe.mac_images
          c.services.pxe _ h
        ∙ k,
    boot_file-reload_entries c e file ds h k,
  )

  -- Where PXE is enabled, a reload gives every server the boot file of the PXE settings, or the default
  -- image of the extras where these have none: the boot file of the extras, which a start puts into
  -- every scope, has no part in it.
  reload_boot_file :
      (r : Reloader) (e : ExtrasConfig)
      → r.cfg.services.pxe.enabled ≡ true
      → All
          (λ d.
            d.srv.pxe_boot_file
            ≡ boot_file_of (record (r.cfg.services.pxe) { default_image = e.default_image }))
          (apply_reload parse_ip parse_cidr r e).dhcp_entries
  unfolding apply_reload
  reload_boot_file r e h =
      let p = pxe-apply_extras e r.cfg in
      boot_file-reload_entries _ e _ r.dhcp_entries (p.0 ∙ h) p.1
