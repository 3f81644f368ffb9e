-- ===== src/Mac/Laws.antt =====
-- The spellings of a MAC address that `normalizeMAC` takes for one.
use mathlib.Core.List.{reverse-reverse, reverse-append, map-append}
use gokrazy_router.Prelude.{
  ℕ, ◌≡◌, refl, sym, ap, ◌∙◌, ◌⊎◌, inl, inr, false, [], ◌∷◌, ◌++◌, map, reverse, arith, ◌==◌,
  if◌then◌else◌, Bool-cases, Text, lower, to_lower, replace_byte, is_space, trim_left, trim_space,
}
use gokrazy_router.Mac.{normalize_mac}

-- `trim_space` goes past a change of bytes that keeps the white space where it is.
module _ (f : ℕ → ℕ) (spaces : (c : ℕ) → is_space (f c) ≡ is_space c) where
  trim_left-map : (s : Text) → trim_left (map f s) ≡ map f (trim_left s)
  unfolding trim_left
  trim_left-map [] = refl
  trim_left-map (c ∷ s) = ground (arith, spaces c, trim_left-map s)

  reverse-map : (s : Text) → reverse (map f s) ≡ map f (reverse s)
  reverse-map [] = refl
  reverse-map (c ∷ s) =
      reverse-append (f c ∷ []) (map f s)
      ∙ ap (λ r. r ++ f c ∷ []) (reverse-map s)
      ∙ sym (map-append f (reverse s) (c ∷ []))
      ∙ sym (ap (map f) (reverse-append (c ∷ []) s))

  trim_space-map : (s : Text) → trim_space (map f s) ≡ map f (trim_space s)
  unfolding trim_space
  trim_space-map s = simp (trim_left-map, reverse-map)

trim_left_idem : (s : Text) → trim_left (trim_left s) ≡ trim_left s
unfolding trim_left
trim_left_idem [] = refl
trim_left_idem (c ∷ s) = ground (arith, trim_left_idem s)

trim_left-append :
    (s : Text) (c : ℕ) → is_space c ≡ false → trim_left (s ++ c ∷ []) ≡ trim_left s ++ c ∷ []
unfolding trim_left
trim_left-append [] c h = ground arith
trim_left-append (x ∷ s) c h = ground (arith, trim_left-append s c h)

trim_left-cases :
    (s : Text)
    → (trim_left s ≡ []) ⊎ ((c : ℕ) × (cs : Text) × (trim_left s ≡ c ∷ cs) × (is_space c ≡ false))
unfolding trim_left
trim_left-cases [] = inl refl
trim_left-cases (c ∷ s) = elim (Bool-cases (is_space c)) [
  | inl h ↦ rw h (trim_left-cases s)
  | inr h ↦ rw h (inr (c, s, refl, h))
]

-- trimming on the right leaves a first byte that is no space
trim_right-cons :
    (c : ℕ) (cs : Text)
    → is_space c ≡ false
    → reverse (trim_left (reverse (c ∷ cs))) ≡ c ∷ reverse (trim_left (reverse cs))
trim_right-cons c cs h =
    ap (λ r. reverse (trim_left r)) (reverse-append (c ∷ []) cs)
    ∙ ap reverse (trim_left-append (reverse cs) c h)
    ∙ reverse-append (trim_left (reverse cs)) (c ∷ [])

trim_left_cons : (c : ℕ) (cs : Text) → is_space c ≡ false → trim_left (c ∷ cs) ≡ c ∷ cs
unfolding trim_left
trim_left_cons c cs h = rw h

trim_space_idem : (s : Text) → trim_space (trim_space s) ≡ trim_space s
unfolding trim_space
trim_space_idem s = elim (trim_left-cases s) [
  | inl e ↦ rw e (unfold trim_left in refl)
  | inr (c, cs, e, h) ↦
      rw (e, trim_right-cons c cs h, trim_left_cons c (reverse (trim_left (reverse cs))) h)
        (trim_right-cons c (reverse (trim_left (reverse cs))) h
          ∙ ap (◌∷◌ c) (
              ap (λ r. reverse (trim_left r)) (reverse-reverse (trim_left (reverse cs)))
              ∙ ap reverse (trim_left_idem (reverse cs))))
]

-- one byte, as it comes out
normal_byte : ℕ → ℕ
normal_byte c = lower (if c == b'-' then b':' else c)

map-normal_byte_idem : (s : Text) → map normal_byte (map normal_byte s) ≡ map normal_byte s
map-normal_byte_idem [] = refl
map-normal_byte_idem (c ∷ s) = cc (byte_idem c, map-normal_byte_idem s)
  where
    byte_idem : (c : ℕ) → normal_byte (normal_byte c) ≡ normal_byte c
    byte_idem c = unfold normal_byte lower in ground arith

is_space-normal_byte : (c : ℕ) → is_space (normal_byte c) ≡ is_space c
unfolding normal_byte lower is_space
is_space-normal_byte c = ground arith

is_space-lower : (c : ℕ) → is_space (lower c) ≡ is_space c
unfolding lower is_space
is_space-lower c = ground arith

map-lower : (s : Text) → map lower (replace_byte b'-' b':' s) ≡ map normal_byte s
unfolding replace_byte normal_byte
map-lower [] = refl
map-lower (c ∷ s) = cc (map-lower s)

-- the two maps of the code, around the trim, are one map
normalize_mac-trim : (s : Text) → normalize_mac s ≡ trim_space (map normal_byte s)
unfolding normalize_mac to_lower
normalize_mac-trim s =
    sym (trim_space-map lower is_space-lower (replace_byte b'-' b':' s))
    ∙ ap trim_space (map-lower s)

-- `normalizeMAC` of a normalized address is that address.
pub normalize_mac_idem : (s : Text) → normalize_mac (normalize_mac s) ≡ normalize_mac s
normalize_mac_idem s =
    normalize_mac-trim (normalize_mac s)
    ∙ ap (λ t. trim_space (map normal_byte t)) (normalize_mac-trim s)
    ∙ ap trim_space (sym (trim_space-map normal_byte is_space-normal_byte (map normal_byte s)))
    ∙ trim_space_idem (map normal_byte (map normal_byte s))
    ∙ ap trim_space (map-normal_byte_idem s)
    ∙ sym (normalize_mac-trim s)
