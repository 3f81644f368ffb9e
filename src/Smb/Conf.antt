-- ===== src/Smb/Conf.antt =====
-- `smb.conf`, as `startSamba` of pkg/smb/smb.go renders it.
use gokrazy_router.Prelude.{
  ◌||◌, List, [], ◌∷◌, ◌++◌, map, if◌then◌else◌, Text, codes, text_eq, is_empty,
}
use gokrazy_router.Prelude.Template.{Line, fixed, render_lines}
use gokrazy_router.Smb.{Server}

-- `strings.Join(names, " ")`
unfoldable pub join_spaces : List Text → Text
join_spaces [] = []
join_spaces (n ∷ []) = n
join_spaces (n ∷ m ∷ ns) = n ++ b' ' ∷ join_spaces (m ∷ ns)

-- the part of the template between `{{- if .IfaceParam }}` and `{{- end }}`
unfoldable pub interface_lines : Text → List Line
interface_lines iface =
    if is_empty iface
    then []
    else (codes "interfaces = ", iface) ∷ fixed "bind interfaces only = yes" ∷ []

-- `confTemplate`
unfoldable pub conf_lines : Text → Text → Text → Text → List Line
unfolding interface_lines
conf_lines iface share path users =
    fixed "[global]"
    ∷ fixed "workgroup = WORKGROUP"
    ∷ fixed "server role = standalone server"
    ∷ fixed "security = user"
    ∷ fixed "map to guest = never"
    ∷ fixed "min protocol = SMB2"
    ∷ fixed "passdb backend = tdbsam:/tmp/smbpassdb.tdb"
    ∷ fixed "pid directory = /tmp"
    ∷ fixed "lock directory = /tmp"
    ∷ fixed "state directory = /tmp"
    ∷ fixed "cache directory = /tmp"
    ∷ fixed "private dir = /tmp"
    ∷ (interface_lines iface
        ++ fixed "server min protocol = SMB2_10"
          ∷ fixed "server max protocol = SMB3_11"
          ∷ fixed ""
          ∷ (codes "[", share ++ codes "]")
          ∷ (codes "path = ", path)
          ∷ (codes "valid users = ", users)
          ∷ fixed "read only = no"
          ∷ fixed "browsable = yes"
          ∷ fixed "guest ok = no"
          ∷ [])

unfoldable pub render_conf : Text → Text → Text → Text → Text
unfolding conf_lines render_lines
render_conf iface share path users = render_lines (conf_lines iface share path users)

abbrev pub conf_path : Text
conf_path = codes "/tmp/smb.conf"

-- the host of the listen address, where it is not every address
unfoldable pub listen_interface : Text → Text
listen_interface host =
    if text_eq host (codes "0.0.0.0") || text_eq host (codes "::") then [] else host

abbrev pub share_name_of : Server → Text
share_name_of s = if is_empty s.cfg.share_name then codes "data" else s.cfg.share_name

abbrev pub user_names : Server → List Text
user_names s = s.cfg.user ∷ map (λ u. u.name) s.extra_users

-- the configuration that `startSamba` writes for a host
unfoldable pub conf_of : Server → Text → Text
unfolding render_conf listen_interface join_spaces
conf_of s host =
    render_conf (listen_interface host) (share_name_of s) s.cfg.share_path
      (join_spaces (user_names s))
