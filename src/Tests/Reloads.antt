-- ===== src/Tests/Reloads.antt =====
-- A router with one DHCP server whose scope has a boot file of its own.
use gokrazy_router.Prelude.{
  ◌≡◌, refl, ◌⊎◌, true, false, Option, some, List, [], ◌∷◌, codes, text_eq,
}
use gokrazy_router.Config.{
  Config, DhcpConfig, PxeConfig, AdminApiConfig, SmbUser, ExtrasConfig, empty_dhcp, empty_pxe,
}
use gokrazy_router.Pxe.Image.{ImageServer}
use gokrazy_router.Reload.Users.{
  equal_smb_users, smb_users_key, sort_strings, insert_text, text_lt, join_nul, user_part,
}
use gokrazy_router.Config.Apply.{extras_from_config}
use gokrazy_router.Reload.Run.{
  Reloader, unreadable, not_exist, loaded, written, write_failed, restart_required, ReloadError,
  reload, load_or_create_extras, check_restart_required, addresses_changed,
}
use gokrazy_router.Reload.Run.Laws.{leases_of, reload_refused, reload_keeps_leases}
use gokrazy_router.Reload.Admin.{
  HttpRequest, method_not_allowed, unauthorized, status_of, handle_reload, MayReload,
  handle_reload_lem,
}
use gokrazy_router.Tests.Addresses.{parse_ip, parse_cidr, printer_text}
use gokrazy_router.Tests.Configs.{config, extras}
use gokrazy_router.Tests.Leases.{server}

abbrev users : List SmbUser
users =
    record { name = codes "bob"; password = codes "secret99" }
    ∷ record { name = codes "ann"; password = codes "secret42" }
    ∷ []

abbrev users' : List SmbUser
users' =
    record { name = codes "ann"; password = codes "secret42" }
    ∷ record { name = codes "bob"; password = codes "secret99" }
    ∷ []

abbrev scope : DhcpConfig
scope = record empty_dhcp {
  pxe_boot_file = codes "own.efi";
  reservations = (codes "aa:0b", printer_text) ∷ [];
}

abbrev pxe : PxeConfig
pxe = record empty_pxe { enabled = true; boot_file = codes "boot.efi" }

abbrev live : Config
live = record config { services = record (config.services) { pxe = pxe } }

abbrev images : ImageServer
images = record {
  handler = (codes "aa:0b", codes "memtest.efi") ∷ [];
  default_image = codes "boot.efi";
}

abbrev router : Reloader
router = record {
  cfg = live;
  base = live;
  extras_path = codes "/perm/extras.toml";
  dhcp_entries = record { srv = server; tftp_addr = codes "10.0.0.9"; base_scope = scope } ∷ [];
  pxe_srv = some images;
  applied_smb_users = [];
}

abbrev new_users : ExtrasConfig
new_users = record extras { smb_users = users }

-- new SMB users need a restart
refused_run :
    (reload parse_ip parse_cidr (loaded new_users) written router).1 ≡ some restart_required
unfolding reload load_or_create_extras check_restart_required addresses_changed equal_smb_users
    smb_users_key sort_strings insert_text text_lt join_nul user_part text_eq
refused_run = refl

reload_refused_example :
    ((reload parse_ip parse_cidr (loaded new_users) written router).0 ≡ router)
    × (((reload parse_ip parse_cidr (loaded new_users) written router).2 ≡ loaded new_users)
        ⊎ ((loaded new_users ≡ not_exist)
            × (((written ≡ written)
                  × ((reload parse_ip parse_cidr (loaded new_users) written router).2
                      ≡ loaded (extras_from_config live)))
                ⊎ (written
                    ≡ write_failed
                        (reload parse_ip parse_cidr (loaded new_users) written router).2))))
reload_refused_example =
    reload_refused parse_ip parse_cidr (loaded new_users) written router restart_required
      refused_run

reload_keeps_leases_example :
    leases_of parse_ip parse_cidr
      (reload parse_ip parse_cidr (loaded extras) written router).0.dhcp_entries
    ≡ leases_of parse_ip parse_cidr router.dhcp_entries
reload_keeps_leases_example = reload_keeps_leases parse_ip parse_cidr (loaded extras) written router

abbrev admin : AdminApiConfig
admin = record { listen = []; token = codes "key"; allow_unauthenticated_reload = false }

abbrev post : HttpRequest
post = record { method = codes "POST"; authorization = codes "Bearer key" }

abbrev reload_unread : Reloader → Reloader × Option ReloadError
reload_unread r =
    let result = reload parse_ip parse_cidr unreadable written r in (result.0, result.1)

handle_reload_lem_example :
    (MayReload admin post
      → handle_reload admin reload_unread post router
        ≡ ((reload_unread router).0, status_of (reload_unread router).1))
    × (¬ MayReload admin post
        → ((handle_reload admin reload_unread post router).0 ≡ router)
          × (((handle_reload admin reload_unread post router).1 ≡ method_not_allowed)
              ⊎ ((handle_reload admin reload_unread post router).1 ≡ unauthorized)))
handle_reload_lem_example = handle_reload_lem admin reload_unread post router
