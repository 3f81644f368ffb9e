-- ===== src/Smb/Start/Safety.antt =====
-- The checks of `Start` of pkg/smb/smb.go, and the lines of the `smb.conf` that it writes.
use gokrazy_router.Prelude.{
  ◌≡◌, refl, sym, ap, ◌∙◌, inl, inr, Bool, true, false, Option, none, some, List, [], ◌∷◌, ◌++◌,
  map, arith, Option-cases, All, All-append, Text, codes,
}
use gokrazy_router.Prelude.Action.{Action, done, wrap, wrap-eq-done, and_then, and_then-eq-done}
use gokrazy_router.Config.{SmbUser}
use gokrazy_router.Smb.{Host, Server}
use gokrazy_router.Smb.Validate.{
  simple_name, validate_simple_name, has_control, validate_user, validate_users, validate_path,
  has_unsafe, validate_interface,
}
use gokrazy_router.Smb.Conf.{
  conf_lines, interface_lines, render_conf, conf_of, conf_path, listen_interface, share_name_of,
  join_spaces, user_names,
}
use gokrazy_router.Prelude.Template.{
  no_newline, no_newline-append, IsLine, whole, split_lines, split_lines-render_lines,
}
use gokrazy_router.Smb.Start.{
  settings_error, start_samba, start, check, is_portable, listen_of, bin_of,
}

simple_name-no_newline :
    (first : Bool) (name : Text) → simple_name first name ≡ true → no_newline name ≡ true
unfolding simple_name no_newline
simple_name-no_newline first [] h = refl
simple_name-no_newline first (c ∷ cs) h = ground (arith, simple_name-no_newline false cs)

control-no_newline : (t : Text) → has_control t ≡ false → no_newline t ≡ true
unfolding has_control no_newline
control-no_newline [] h = refl
control-no_newline (c ∷ cs) h = ground (arith, control-no_newline cs)

unsafe-no_newline : (t : Text) → has_unsafe t ≡ false → no_newline t ≡ true
unfolding has_unsafe no_newline
unsafe-no_newline [] h = refl
unsafe-no_newline (c ∷ cs) h = ground (arith, unsafe-no_newline cs)

name-no_newline :
    (name what : Text) → validate_simple_name name what ≡ none → no_newline name ≡ true
unfolding validate_simple_name
name-no_newline name what h = ground (arith, simple_name-no_newline true name)

path-no_newline : (p : Text) → validate_path p ≡ none → no_newline p ≡ true
unfolding validate_path
path-no_newline p h = ground (arith, control-no_newline p)

interface-no_newline : (host : Text) → validate_interface host ≡ none → no_newline host ≡ true
unfolding validate_interface
interface-no_newline host h = ground (arith, unsafe-no_newline host)

user-no_newline :
    (name password : Text) → validate_user name password ≡ none → no_newline name ≡ true
unfolding validate_user
user-no_newline name password h =
    elim (Option-cases (validate_simple_name name (codes "user name"))) [
      | inl e ↦ name-no_newline name (codes "user name") e
      | inr (x, e) ↦ absurd (ground (arith, e, h))
    ]

users-no_newline :
    (us : List SmbUser)
    → validate_users us ≡ none
    → All (λ n. no_newline n ≡ true) (map (λ u. u.name) us)
unfolding validate_users
users-no_newline [] h = tt
users-no_newline (u ∷ us) h = elim (Option-cases (validate_user u.name u.password)) [
  | inl e ↦ (user-no_newline u.name u.password e, users-no_newline us (ground (arith, e, h)))
  | inr (x, e) ↦ absurd (ground (arith, e, h))
]

join_spaces-no_newline :
    (ns : List Text) → All (λ n. no_newline n ≡ true) ns → no_newline (join_spaces ns) ≡ true
unfolding join_spaces no_newline
join_spaces-no_newline [] h = refl
join_spaces-no_newline (n ∷ []) h = h.0
join_spaces-no_newline (n ∷ m ∷ ns) h =
    no_newline-append n (b' ' ∷ join_spaces (m ∷ ns)) h.0
      (ground (arith, join_spaces-no_newline (m ∷ ns) h.1))

interface_lines-All : (iface : Text) → no_newline iface ≡ true → All IsLine (interface_lines iface)
unfolding interface_lines no_newline
interface_lines-All [] h = tt
interface_lines-All (c ∷ cs) h = ((refl, h), ((refl, refl), tt))

conf_lines-All :
    (iface share path users : Text)
    → no_newline iface ≡ true
    → no_newline share ≡ true
    → no_newline path ≡ true
    → no_newline users ≡ true
    → All IsLine (conf_lines iface share path users)
unfolding conf_lines no_newline
conf_lines-All iface share path users hi hs hp hu =
    let plain : (true ≡ true) × (true ≡ true) = (refl, refl) in
    (
      plain,
      (
        plain,
        (
          plain,
          (
            plain,
            (
              plain,
              (
                plain,
                (
                  plain,
                  (
                    plain,
                    (
                      plain,
                      (
                        plain,
                        (
                          plain,
                          (
                            plain,
                            All-append IsLine (interface_lines iface) _
                                (interface_lines-All iface hi)
                                (
                                  plain,
                                  (
                                    plain,
                                    (
                                      plain,
                                      (
                                        (refl, no_newline-append share (codes "]") hs refl),
                                        ((refl, hp), ((refl, hu), (plain, (plain, (plain, tt))))),
                                      ),
                                    ),
                                  ),
                                ),
                          ),
                        ),
                      ),
                    ),
                  ),
                ),
              ),
            ),
          ),
        ),
      ),
    )

settings_error-users :
    (s : Server) → settings_error s ≡ none → All (λ n. no_newline n ≡ true) (user_names s)
unfolding settings_error
settings_error-users s h = elim (Option-cases (validate_user s.cfg.user s.cfg.password)) [
  | inl e ↦ (
    user-no_newline s.cfg.user s.cfg.password e,
    users-no_newline s.extra_users (ground (arith, e, h)),
  )
  | inr (x, e) ↦ absurd (ground (arith, e, h))
]

-- the lines of the template with the values of a server
abbrev pub template_lines : Server → Text → List Text
template_lines s host = map whole (
    conf_lines (listen_interface host) (share_name_of s) s.cfg.share_path
      (join_spaces (user_names s)))

-- the values of the file that `startSamba` writes are checked
conf_of-lines :
    (s : Server) (host : Text)
    → settings_error s ≡ none
    → validate_simple_name (share_name_of s) (codes "share name") ≡ none
    → validate_path s.cfg.share_path ≡ none
    → validate_interface (listen_interface host) ≡ none
    → split_lines (conf_of s host) ≡ template_lines s host ++ [] ∷ []
unfolding conf_of render_conf
conf_of-lines s host he hs hp hi =
    split_lines-render_lines
      (conf_lines (listen_interface host) (share_name_of s) s.cfg.share_path
        (join_spaces (user_names s)))
      (conf_lines-All (listen_interface host) (share_name_of s) s.cfg.share_path
        (join_spaces (user_names s)) (interface-no_newline _ hi) (name-no_newline _ _ hs)
        (path-no_newline _ hp) (join_spaces-no_newline (user_names s) (settings_error-users s he)))

-- `check` passes only where there is no error, and does nothing
check-eq-done :
    {World : Type 0}
    → (context : Text) (e : Option Text) (w : World) {w2 : World} {u : Unit {0}}
    → check context e w ≡ (done u, w2)
    → (e ≡ none) × (w ≡ w2)
check-eq-done context none w h = (refl, ap (λ x. x.1) h)
check-eq-done context (some x) w h = absurd cc

module _ {World : Type 0} (os : Host World) where
  -- the host of the listen address, and the file that was written with it
  abbrev pub WroteConf : Server → Text → Type 0
  WroteConf s listen =
      (host port : Text) × (w1 w2 : World) × (os.split_host_port listen ≡ done (host, port))
      × (os.write_file conf_path (conf_of s host) w1 ≡ (done tt, w2))
      × (split_lines (conf_of s host) ≡ template_lines s host ++ [] ∷ [])

  start_samba-WroteConf :
      (s s2 : Server) (bin listen : Text) (w w2 : World)
      → settings_error s ≡ none
      → start_samba os s bin listen w ≡ (done s2, w2)
      → WroteConf s listen
  unfolding start_samba
  start_samba-WroteConf s s2 bin listen w w2 he e =
      let name_check = validate_simple_name (share_name_of s) (codes "share name") in
      let splitting = codes "smb: invalid listen address " ++ listen in
      let writing = codes "smb: write config" in
      let ((host, port), w1, splits, e1) =
        and_then-eq-done (wrap splitting (os.split_host_port listen, w)) _ e in
      let (u2, w3, names, e2) = and_then-eq-done (check (codes "smb: ") name_check w1) _ e1 in
      let (u3, w4, paths, e3) =
        and_then-eq-done (check (codes "smb: ") (validate_path s.cfg.share_path) w3) _ e2 in
      let (u4, w5, ifaces, e4) =
        and_then-eq-done (check (codes "smb: ") (validate_interface (listen_interface host)) w4) _
          e3 in
      let (u5, w6, writes, e5) =
        and_then-eq-done (wrap writing (os.write_file conf_path (conf_of s host) w5)) _ e4 in
      let no_name = check-eq-done (codes "smb: ") name_check w1 names in
      let no_path = check-eq-done (codes "smb: ") (validate_path s.cfg.share_path) w3 paths in
      let no_iface =
        check-eq-done (codes "smb: ") (validate_interface (listen_interface host)) w4 ifaces in
      (
        host,
        port,
        w5,
        w6,
        ap (λ x. x.0) (wrap-eq-done splitting (os.split_host_port listen, w) splits),
        wrap-eq-done writing (os.write_file conf_path (conf_of s host) w5) writes,
        conf_of-lines s host he no_name.0 no_path.0 no_iface.0,
      )

  -- Where the server is enabled and is not the portable one, a start without an error has written a
  -- `smb.conf` whose lines, split at each newline, are exactly those of the template: whatever the user
  -- names, the share, its path and the listen address are, no value adds a line to the file.
  pub start-WroteConf :
      (s s2 : Server) (w w2 : World)
      → s.cfg.enabled ≡ true
      → is_portable os s ≡ false
      → start os s w ≡ (done s2, w2)
      → WroteConf s (listen_of s)
  unfolding start
  start-WroteConf s s2 w w2 on samba e =
      let run = start os s w in
      let error = settings_error s in
      let making = codes "smb: mkdir " ++ s.cfg.share_path in
      let finding = codes "smb: smbd binary not found at " ++ bin_of s in
      let act : Action World Server = λ w'. and_then (check [] error w') (λ _ w1.
        and_then (wrap making (os.mkdir_all s.cfg.share_path w1)) (λ _ w3.
          and_then (wrap finding (os.stat (bin_of s) w3))
            (λ _. start_samba os s (bin_of s) (listen_of s)))) in
      let goes : run ≡ act w = rw (on, samba) refl in
      let (u1, w1, checks, e1) = and_then-eq-done (check [] error w) _ (sym goes ∙ e) in
      let (u2, w3, makes, e2) =
        and_then-eq-done (wrap making (os.mkdir_all s.cfg.share_path w1)) _ e1 in
      let (u3, w4, finds, e3) = and_then-eq-done (wrap finding (os.stat (bin_of s) w3)) _ e2 in
      start_samba-WroteConf s s2 (bin_of s) (listen_of s) w4 w2 (check-eq-done [] error w checks).0
        e3
