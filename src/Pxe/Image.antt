-- ===== src/Pxe/Image.antt =====
-- The choice of the image in pkg/pxe/pxe.go: `filenameToMAC`, `resolveImage` and the setters of the
-- maps behind them. Paths have `/` as the separator.
use gokrazy_router.Prelude.{
  ℕ, ◌+◌, Bool, not, ◌&&◌, none, some, [], ◌∷◌, reverse, ◌==◌, if◌then◌else◌, length, drop, Text,
  codes, is_empty, to_lower, replace_byte, has_prefix, Dict, lookup,
}
use gokrazy_router.Mac.{normalize_mac}
use gokrazy_router.Dhcp.State.{normalized_onto}

-- the fields of `Server` that the choice reads
pub record ImageServer : Type 0 where
  pub handler : Dict Text
  pub default_image : Text

unfoldable pub set_default_image : Text → ImageServer → ImageServer
set_default_image img s = record s { default_image = img }

unfoldable pub set_mac_images : Dict Text → ImageServer → ImageServer
set_mac_images m s = record s { handler = normalized_onto [] m }

-- the bytes up to the first that passes the test, and the list from that byte on
unfoldable pub split_at : (ℕ → Bool) → Text → Text × Text
split_at p [] = ([], [])
split_at p (c ∷ cs) =
    let (before, rest) = split_at p cs in if p c then ([], c ∷ cs) else (c ∷ before, rest)

unfoldable pub drop_slashes : Text → Text
drop_slashes [] = []
drop_slashes (c ∷ cs) = if c == b'/' then drop_slashes cs else c ∷ cs

-- `filepath.Base`
unfoldable pub base_name : Text → Text
base_name path =
    let trimmed = drop_slashes (reverse path) in
    if is_empty path
    then codes "."
    else if is_empty trimmed
    then codes "/"
    else reverse (split_at (λ c. c == b'/') trimmed).0

-- `strings.TrimSuffix(base, filepath.Ext(base))` for a name without a slash: the extension runs from
-- the last dot on
unfoldable pub trim_extension : Text → Text
trim_extension base =
    let (ext, rest) = split_at (λ c. c == b'.') (reverse base) in
    if is_empty rest then base else reverse (drop 1 rest)

unfoldable pub trim_prefix : Text → Text → Text
trim_prefix p s = if has_prefix p s then drop (length p) s else s

unfoldable pub count_byte : ℕ → Text → ℕ
count_byte b [] = 0
count_byte b (c ∷ cs) = (if c == b then 1 else 0) + count_byte b cs

unfoldable pub filename_to_mac : Text → Text
filename_to_mac name =
    let base = trim_prefix (codes "01-") (trim_extension (to_lower (base_name name))) in
    if length base == 17 && count_byte b'-' base == 5 then replace_byte b'-' b':' base else []

-- the branch of `resolveImage` for a name that is a MAC address
unfoldable pub image_of_mac : Text → ImageServer → Text → Text
image_of_mac mac s filename =
    let img : Text = elim (lookup (normalize_mac mac) s.handler) [
      | some i ↦ i
      | none ↦ if not (is_empty s.default_image) then s.default_image else []
    ] in
    if not (is_empty img) then img else filename

unfoldable pub resolve_image : ImageServer → Text → Text
resolve_image s filename =
    let mac = filename_to_mac filename in
    if is_empty mac then filename else image_of_mac mac s filename
