-- ===== src/Smb/Validate.antt =====
-- The checks of pkg/smb/smb.go on names, passwords, paths and interfaces. An error is a text, without
-- the quoted value.
use gokrazy_router.Prelude.{
  ℕ, Bool, true, false, not, ◌&&◌, ◌||◌, Option, none, some, List, [], ◌∷◌, ◌++◌, ltb, leb, ◌==◌,
  if◌then◌else◌, length, Text, codes, is_empty,
}
use gokrazy_router.Config.{SmbUser}

abbrev is_punctuation : ℕ → Bool
is_punctuation c = c == b'.' || c == b'_' || c == b'-'

abbrev pub is_alphanumeric : ℕ → Bool
is_alphanumeric c =
    (leb b'a' c && leb c b'z') || (leb b'A' c && leb c b'Z') || (leb b'0' c && leb c b'9')

-- the loop of `validateSimpleName`: punctuation is not allowed in the first place
unfoldable pub simple_name : Bool → Text → Bool
simple_name first [] = true
simple_name first (c ∷ cs) =
    ((is_punctuation c && not first) || is_alphanumeric c) && simple_name false cs

-- `validateSimpleName`; `some` is an error
unfoldable pub validate_simple_name : Text → Text → Option Text
unfolding simple_name
validate_simple_name name what =
    if is_empty name
    then some (what ++ codes " must not be empty")
    else if ltb 32 (length name)
    then some (what ++ codes " too long")
    else if simple_name true name
    then none
    else some (codes "invalid " ++ what)

abbrev pub is_control : ℕ → Bool
is_control c = c == 10 || c == 13 || (ltb c 32 && not (c == 9)) || c == 127

unfoldable pub has_control : Text → Bool
has_control [] = false
has_control (c ∷ cs) = is_control c || has_control cs

unfoldable pub validate_user : Text → Text → Option Text
unfolding validate_simple_name has_control
validate_user name password = elim (validate_simple_name name (codes "user name")) [
  | some e ↦ some e
  | none ↦
      if is_empty password
      then some (codes "password must not be empty")
      else if ltb 128 (length password)
      then some (codes "password too long")
      else if has_control password
      then some (codes "password contains a control character")
      else none
]

unfoldable pub validate_path : Text → Option Text
unfolding has_control
validate_path p =
    if is_empty p
    then some (codes "share path must not be empty")
    else if has_control p
    then some (codes "share path contains a control character")
    else none

abbrev pub is_unsafe : ℕ → Bool
is_unsafe c = c == 10 || c == 13 || c == b';' || c == b'[' || c == b']' || ltb c 32 || c == 127

unfoldable pub has_unsafe : Text → Bool
has_unsafe [] = false
has_unsafe (c ∷ cs) = is_unsafe c || has_unsafe cs

unfoldable pub validate_interface : Text → Option Text
unfolding has_unsafe
validate_interface host = if has_unsafe host then some (codes "invalid interface value") else none

-- the loop over the extra users
unfoldable pub validate_users : List SmbUser → Option Text
unfolding validate_user
validate_users [] = none
validate_users (u ∷ us) = elim (validate_user u.name u.password) [
  | some e ↦ some (codes "smb: extras user: " ++ e)
  | none ↦ validate_users us
]
