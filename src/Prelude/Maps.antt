-- ===== src/Prelude/Maps.antt =====
-- Go maps as association lists: a write replaces the entry of its key, a range runs down the list.
pub mod Laws
use mathlib.Core.Path.{◌≡◌, refl}
use mathlib.Core.Bool.{Bool, false, ◌||◌}
use mathlib.Core.List.{List, [], ◌∷◌}
use mathlib.Core.Option.{Option, none, some}
use native.Mathlib.Omega.{arith}
use gokrazy_router.Prelude.Tests.{if◌then◌else◌}
use gokrazy_router.Prelude.Strings.{Text, text_eq, text_eq_iff}

abbrev pub Dict {ℓ} : Type ℓ → Type ℓ
Dict V = List (Text × V)

module _ {ℓ} {V : Type ℓ} where
  unfoldable pub lookup : Text → Dict V → Option V
  lookup k [] = none
  lookup k ((j, v) ∷ m) = if text_eq j k then some v else lookup k m

  -- `m[k] = v`
  unfoldable pub insert : Text → V → Dict V → Dict V
  insert k v [] = (k, v) ∷ []
  insert k v ((j, w) ∷ m) = if text_eq j k then (k, v) ∷ m else (j, w) ∷ insert k v m

  -- `delete(m, k)`
  unfoldable pub erase : Text → Dict V → Dict V
  erase k [] = []
  erase k ((j, w) ∷ m) = let rest = erase k m in if text_eq j k then rest else (j, w) ∷ rest

  -- keeps the entries that pass the test
  unfoldable pub keep : (Text → V → Bool) → Dict V → Dict V
  keep p [] = []
  keep p ((j, w) ∷ m) = let rest = keep p m in if p j w then (j, w) ∷ rest else rest

  -- `m[k]` where a missing key gives the zero value
  abbrev pub lookup_or : Text → V → Dict V → V
  lookup_or k d m = elim (lookup k m) [ none ↦ d | some v ↦ v ]

  pub lookup-insert :
      (written read : Text) (v : V) (m : Dict V)
      → lookup read (insert written v m) ≡ (if text_eq written read then some v else lookup read m)
  unfolding insert lookup
  lookup-insert written read v [] = refl
  lookup-insert written read v ((key, old) ∷ m) = ground (
    arith,
    lookup-insert written read v m,
    text_eq_iff written read,
    text_eq_iff key written,
    text_eq_iff key read,
  )

  pub lookup-erase :
      (k j : Text) (m : Dict V) → lookup j (erase k m) ≡ (if text_eq k j then none else lookup j m)
  unfolding lookup erase
  lookup-erase k j [] = ground arith
  lookup-erase k j ((i, w) ∷ m) =
      ground (arith, text_eq_iff k j, text_eq_iff i k, text_eq_iff i j, lookup-erase k j m)

  -- a loop that looks for an entry
  unfoldable pub any_entry : (Text → V → Bool) → Dict V → Bool
  any_entry p [] = false
  any_entry p ((j, w) ∷ m) = p j w || any_entry p m

  -- each key stands once, as in a Go map
  abbrev pub Distinct : Dict V → Type ℓ
  Distinct [] = Unit
  Distinct ((j, w) ∷ m) = (lookup j m ≡ none) × Distinct m
