-- ===== src/Prelude/Space.antt =====
-- White space in texts: the fields of `strings.Fields`, and what trimming leaves. White space is ASCII.
use Prim.Native.Nat.{ℕ}
use mathlib.Core.Path.{◌≡◌, refl, ◌∙◌, ap}
use mathlib.Core.Logic.{◌⊎◌, inl, inr}
use mathlib.Core.Bool.{Bool, true, false, not}
use mathlib.Core.List.{List, [], ◌∷◌, ◌++◌, reverse, reverse-append, reverse-cons}
use gokrazy_router.Prelude.Tests.{if◌then◌else◌, Bool-cases}
use gokrazy_router.Prelude.Strings.{Text, is_space, trim_left, trim_space, text_eq, text_eq_iff}

abbrev starts_field : Text → Bool
starts_field [] = false
starts_field (c ∷ cs) = not (is_space c)

abbrev onto_field : ℕ → Bool → List Text → List Text
onto_field c true (field ∷ rest) = (c ∷ field) ∷ rest
onto_field c _ rest = (c ∷ []) ∷ rest

unfoldable pub fields : Text → List Text
unfolding is_space
fields [] = []
fields (c ∷ cs) =
    let rest = fields cs in if is_space c then rest else onto_field c (starts_field cs) rest

-- `strings.TrimSuffix`
unfoldable pub trim_suffix : Text → Text → Text
trim_suffix suffix [] = []
trim_suffix suffix (c ∷ cs) = if text_eq suffix (c ∷ cs) then [] else c ∷ trim_suffix suffix cs

-- a text that begins with no white space
abbrev pub Starts : Text → Type 0
Starts t = (c : ℕ) × (cs : Text) × (t ≡ c ∷ cs) × (is_space c ≡ false)

onto_field-cons :
    (c : ℕ) (b : Bool) (fs : List Text)
    → (f : Text) × (rest : List Text) × (onto_field c b fs ≡ f ∷ rest)
onto_field-cons c true (field ∷ rest) = (c ∷ field, rest, refl)
onto_field-cons c true [] = (c ∷ [], [], refl)
onto_field-cons c false fs = (c ∷ [], fs, refl)

-- such a text has a field
pub fields-Starts : (t : Text) → Starts t → (f : Text) × (rest : List Text) × (fields t ≡ f ∷ rest)
unfolding fields
fields-Starts t (c, cs, e, h) =
    let (f, rest, g) = onto_field-cons c (starts_field cs) (fields cs) in (f, rest, rw (e, h) g)

trim_left-cases : (t : Text) → (trim_left t ≡ []) ⊎ Starts (trim_left t)
unfolding trim_left
trim_left-cases [] = inl refl
trim_left-cases (c ∷ cs) = elim (Bool-cases (is_space c)) [
  | inl e ↦ rw e (trim_left-cases cs)
  | inr e ↦ rw e (inr (c, cs, refl, e))
]

-- what is trimmed off stands before the last byte that is no white space
trim_left-snoc :
    (c : ℕ) (xs : Text)
    → is_space c ≡ false
    → (ys : Text) × (trim_left (xs ++ c ∷ []) ≡ ys ++ c ∷ [])
unfolding trim_left
trim_left-snoc c [] h = ([], rw h refl)
trim_left-snoc c (x ∷ xs) h = elim (Bool-cases (is_space x)) [
  | inl e ↦ (let (ys, g) = trim_left-snoc c xs h in (ys, rw e g))
  | inr e ↦ (x ∷ xs, rw e refl)
]

trim_reverse-Starts : (t : Text) → Starts t → Starts (reverse (trim_left (reverse t)))
trim_reverse-Starts t (c, cs, e, h) =
    let (ys, g) = trim_left-snoc c (reverse cs) h in
    (
      c,
      reverse ys,
      ap (λ x. reverse (trim_left (reverse x))) e
          ∙ ap (λ x. reverse (trim_left x)) (reverse-cons c cs)
          ∙ ap reverse g
          ∙ reverse-append ys (c ∷ []),
      h,
    )

-- a trimmed text is empty or begins with no white space
pub trim_space-cases : (t : Text) → (trim_space t ≡ []) ⊎ Starts (trim_space t)
unfolding trim_space
trim_space-cases t = elim (trim_left-cases t) [
  | inl e ↦ inl (ap (λ x. reverse (trim_left (reverse x))) e)
  | inr s ↦ inr (trim_reverse-Starts (trim_left t) s)
]

trim_left_of_Starts : (t : Text) → Starts t → trim_left t ≡ t
unfolding trim_left
trim_left_of_Starts t (c, cs, e, h) = rw e (rw h refl)

-- trimming keeps a text that begins with no white space from being empty
pub trim_space-Starts : (t : Text) → Starts t → Starts (trim_space t)
unfolding trim_space
trim_space-Starts t s = rw (trim_left_of_Starts t s) (trim_reverse-Starts t s)

-- a suffix that begins with white space leaves the beginning
pub trim_suffix-Starts :
    (c : ℕ) (cs t : Text) → is_space c ≡ true → Starts t → Starts (trim_suffix (c ∷ cs) t)
unfolding trim_suffix text_eq
trim_suffix-Starts c cs t sp (d, ds, e, h) = elim (Bool-cases (text_eq (c ∷ cs) (d ∷ ds))) [
  | inl q ↦ (let p : c ∷ cs ≡ d ∷ ds = (text_eq_iff (c ∷ cs) (d ∷ ds)).0 q in absurd cc)
  | inr q ↦ (d, trim_suffix (c ∷ cs) ds, rw e (rw q refl), h)
]
