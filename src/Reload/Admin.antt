-- ===== src/Reload/Admin.antt =====
-- The handler of `/api/reload` in cmd/gokrazy-router/main.go.
use gokrazy_router.Prelude.{
  ◌≡◌, ◌≢◌, ◌↔◌, ◌⊎◌, Bool, true, false, not, Option, none, some, [], ◌++◌, arith, if◌then◌else◌,
  Text, codes, text_eq, text_eq_iff, is_empty,
}
use gokrazy_router.Config.{AdminApiConfig}
use gokrazy_router.Reload.Run.{Reloader, ReloadError}
use gokrazy_router.Reload.Run.ReloadError.{no_extras_file, restart_required}

pub data Status : Type 0 where
  ok method_not_allowed unauthorized conflict internal_server_error : Status

pub record HttpRequest : Type 0 where
  pub method : Text
  pub authorization : Text

-- the test of the token: `ConstantTimeCompare` on texts of one length
unfoldable pub is_authorized : AdminApiConfig → HttpRequest → Bool
is_authorized admin req =
    if admin.allow_unauthenticated_reload
    then true
    else if is_empty admin.token
    then false
    else text_eq req.authorization (codes "Bearer " ++ admin.token)

abbrev pub status_of : Option ReloadError → Status
status_of none = ok
status_of (some restart_required) = conflict
status_of (some no_extras_file) = internal_server_error

-- the handler, with the reload it may run
unfoldable pub handle_reload :
    AdminApiConfig
    → (Reloader → Reloader × Option ReloadError)
    → HttpRequest
    → Reloader
    → Reloader × Status
handle_reload admin run req r =
    if not (text_eq req.method (codes "POST"))
    then (r, method_not_allowed)
    else if not (is_authorized admin req)
    then (r, unauthorized)
    else (let (r', error) = run r in (r', status_of error))

-- what a request needs for a reload
abbrev pub MayReload : AdminApiConfig → HttpRequest → Type 0
MayReload admin req =
    (req.method ≡ codes "POST")
    × ((admin.allow_unauthenticated_reload ≡ true)
        ⊎ ((admin.token ≢ []) × (req.authorization ≡ codes "Bearer " ++ admin.token)))

is_authorized_iff :
    (admin : AdminApiConfig) (req : HttpRequest)
    → is_authorized admin req ≡ true ↔ (
        (admin.allow_unauthenticated_reload ≡ true)
        ⊎ ((admin.token ≢ []) × (req.authorization ≡ codes "Bearer " ++ admin.token)))
unfolding is_authorized
is_authorized_iff admin req =
    ground (arith, text_eq_iff req.authorization (codes "Bearer " ++ admin.token))

-- A POST that carries the token, which is not empty, or that needs none, runs the reload once and
-- reports its error; every other request is refused and changes nothing.
pub handle_reload_lem :
    (admin : AdminApiConfig) (run : Reloader → Reloader × Option ReloadError) (req : HttpRequest)
    (r : Reloader)
    → (MayReload admin req → handle_reload admin run req r ≡ ((run r).0, status_of (run r).1))
      × (¬ MayReload admin req
          → ((handle_reload admin run req r).0 ≡ r)
            × (((handle_reload admin run req r).1 ≡ method_not_allowed)
                ⊎ ((handle_reload admin run req r).1 ≡ unauthorized)))
unfolding handle_reload
handle_reload_lem admin run req r = (
  ground (arith, text_eq_iff req.method (codes "POST"), is_authorized_iff admin req),
  ground (arith, text_eq_iff req.method (codes "POST"), is_authorized_iff admin req),
)
