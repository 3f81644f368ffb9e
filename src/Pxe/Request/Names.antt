-- ===== src/Pxe/Request/Names.antt =====
-- `sanitizeTFTPName` of pkg/pxe/pxe.go.
use mathlib.Core.List.{reverse-reverse, reverse-append}
use gokrazy_router.Prelude.{
  ℕ, ◌≡◌, refl, sym, ap, ◌∙◌, ◌⊎◌, inl, inr, true, false, [], ◌∷◌, ◌++◌, reverse, Bool-cases, All,
  All-append, Text,
}
use gokrazy_router.Pxe.Request.{is_printable, drop_junk, sanitize_tftp_name}

-- no byte of the text is printable
abbrev pub IsJunk : Text → Type 0
IsJunk s = All (λ c. is_printable c ≡ false) s

-- nothing, or a text that begins with a printable byte
abbrev Starts : Text → Type 0
Starts [] = Unit
Starts (c ∷ cs) = is_printable c ≡ true

drop_junk_lem :
    (s : Text) → (junk : Text) × IsJunk junk × (s ≡ junk ++ drop_junk s) × Starts (drop_junk s)
unfolding drop_junk
drop_junk_lem [] = ([], tt, refl, tt)
drop_junk_lem (c ∷ s) = elim (Bool-cases (is_printable c)) [
  | inl t ↦ ([], tt, rw t, rw t t)
  | inr f ↦ let (junk, j, e, p) = drop_junk_lem s in (c ∷ junk, (f, j), rw f (ap (◌∷◌ c) e), rw f p)
]

All-reverse : (s : Text) → IsJunk s → IsJunk (reverse s)
All-reverse [] h = tt
All-reverse (x ∷ xs) h =
    rw (reverse-append (x ∷ []) xs) (
      All-append (λ c. is_printable c ≡ false) (reverse xs) (x ∷ []) (All-reverse xs h.1) (h.0, tt))

-- nothing, or a text that ends in a printable byte
abbrev pub Ends : Text → Type 0
Ends s = (s ≡ []) ⊎ ((before : Text) × (c : ℕ) × (s ≡ before ++ c ∷ []) × (is_printable c ≡ true))

reverse-Ends : (s : Text) → Starts s → Ends (reverse s)
reverse-Ends [] h = inl refl
reverse-Ends (c ∷ s) h = inr (reverse s, c, reverse-append (c ∷ []) s, h)

-- The name that is served is the requested name without the junk at its end: what is cut off has no
-- printable byte, and what is left ends in one, or is empty.
sanitize_tftp_name_lem :
    (name : Text)
    → (junk : Text) × IsJunk junk
      × (name ≡ sanitize_tftp_name name ++ junk)
      × Ends (sanitize_tftp_name name)
unfolding sanitize_tftp_name
sanitize_tftp_name_lem name =
    let (junk, j, e, p) = drop_junk_lem (reverse name) in
    (
      reverse junk,
      All-reverse junk j,
      sym (reverse-reverse name) ∙ ap reverse e ∙ reverse-append junk (drop_junk (reverse name)),
      reverse-Ends (drop_junk (reverse name)) p,
    )
