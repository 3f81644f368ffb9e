-- ===== src/Reload/Users.antt =====
-- `smbUsersKey` and `equalSMBUsers` of cmd/gokrazy-router/main.go. `sort.Strings` is a sort by the order
-- of the bytes.
use mathlib.Core.List.{Permᴰ}
use gokrazy_router.Prelude.{
  ◌≡◌, refl, ap, ◌∙◌, Bool, true, false, ◌&&◌, ◌||◌, List, [], ◌∷◌, ◌++◌, map, arith, ltb, ◌==◌,
  if◌then◌else◌, Text, text_eq, text_eq_refl,
}
use gokrazy_router.Config.{SmbUser}

-- a < b, byte by byte
unfoldable pub text_lt : Text → Text → Bool
text_lt [] [] = false
text_lt [] (y ∷ ys) = true
text_lt (x ∷ xs) [] = false
text_lt (x ∷ xs) (y ∷ ys) = ltb x y || (x == y && text_lt xs ys)

unfoldable pub insert_text : Text → List Text → List Text
insert_text s [] = s ∷ []
insert_text s (t ∷ ts) = if text_lt t s then t ∷ insert_text s ts else s ∷ t ∷ ts

-- `sort.Strings`
unfoldable pub sort_strings : List Text → List Text
sort_strings [] = []
sort_strings (s ∷ ss) = insert_text s (sort_strings ss)

-- `strings.Join` with a NUL between the parts
unfoldable pub join_nul : List Text → Text
join_nul [] = []
join_nul (s ∷ []) = s
join_nul (s ∷ t ∷ ss) = s ++ (0 ∷ join_nul (t ∷ ss))

unfoldable pub user_part : SmbUser → Text
user_part u = u.name ++ (b':' ∷ u.password)

unfoldable pub smb_users_key : List SmbUser → Text
smb_users_key users = join_nul (sort_strings (map user_part users))

unfoldable pub equal_smb_users : List SmbUser → List SmbUser → Bool
equal_smb_users a b = text_eq (smb_users_key a) (smb_users_key b)

text_lt_total : (a b : Text) → text_lt a b ≡ false → text_lt b a ≡ false → a ≡ b
unfolding text_lt
text_lt_total [] [] h k = refl
text_lt_total [] (y ∷ ys) h k = cc
text_lt_total (x ∷ xs) [] h k = cc
text_lt_total (x ∷ xs) (y ∷ ys) h k = ground (arith, text_lt_total xs ys)

text_lt_asymm : (a b : Text) → text_lt a b ≡ true → text_lt b a ≡ false
unfolding text_lt
text_lt_asymm [] [] h = refl
text_lt_asymm [] (y ∷ ys) h = refl
text_lt_asymm (x ∷ xs) [] h = cc
text_lt_asymm (x ∷ xs) (y ∷ ys) h = ground (arith, text_lt_asymm xs ys)

text_lt_trans : (a b c : Text) → text_lt a b ≡ true → text_lt b c ≡ true → text_lt a c ≡ true
unfolding text_lt
text_lt_trans [] [] c h k = cc
text_lt_trans [] (y ∷ ys) [] h k = cc
text_lt_trans [] (y ∷ ys) (z ∷ zs) h k = refl
text_lt_trans (x ∷ xs) [] c h k = cc
text_lt_trans (x ∷ xs) (y ∷ ys) [] h k = cc
text_lt_trans (x ∷ xs) (y ∷ ys) (z ∷ zs) h k = ground (arith, text_lt_trans xs ys zs)

-- two insertions commute
insert_text_comm :
    (s t : Text) (ts : List Text)
    → insert_text s (insert_text t ts) ≡ insert_text t (insert_text s ts)
unfolding insert_text
insert_text_comm s t [] = ground (arith, text_lt_total s t, text_lt_asymm s t, text_lt_asymm t s)
insert_text_comm s t (u ∷ us) = ground (
  arith,
  insert_text_comm s t us,
  text_lt_total s t,
  text_lt_asymm s t,
  text_lt_asymm t s,
  text_lt_trans u s t,
  text_lt_trans u t s,
  text_lt_trans t s u,
  text_lt_trans s t u,
  text_lt_trans s u t,
  text_lt_trans t u s,
  text_lt_total s u,
  text_lt_total t u,
  text_lt_asymm u s,
  text_lt_asymm u t,
)

sort_strings_perm : {ss ts : List Text} → Permᴰ ss ts → sort_strings ss ≡ sort_strings ts
unfolding sort_strings
sort_strings_perm Permᴰ.nil = refl
sort_strings_perm (Permᴰ.cons e p) = rw (e, sort_strings_perm p)
sort_strings_perm (Permᴰ.swap {a = a} {b = b} {a' = a'} {b' = b'} {l = l} e f) =
    insert_text_comm a b (sort_strings l) ∙ (rw (e, f))
sort_strings_perm (Permᴰ.trans p q) = sort_strings_perm p ∙ sort_strings_perm q

parts_perm : {us vs : List SmbUser} → Permᴰ us vs → Permᴰ (map user_part us) (map user_part vs)
parts_perm Permᴰ.nil = Permᴰ.nil
parts_perm (Permᴰ.cons e p) = Permᴰ.cons (ap user_part e) (parts_perm p)
parts_perm (Permᴰ.swap e f) = Permᴰ.swap (ap user_part e) (ap user_part f)
parts_perm (Permᴰ.trans p q) = Permᴰ.trans (parts_perm p) (parts_perm q)

-- The order in which the users stand in the file makes no difference to a reload.
equal_smb_users_perm : {us vs : List SmbUser} → Permᴰ us vs → equal_smb_users us vs ≡ true
unfolding equal_smb_users smb_users_key
equal_smb_users_perm {us} {vs} p = rw (sort_strings_perm (parts_perm p)) (text_eq_refl _)
