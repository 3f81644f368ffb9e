-- ===== src/Prelude/Maps/Laws.antt =====
-- Lookups and predicates through writes and filters of a map.
use mathlib.Core.Path.{◌≡◌, refl, subst}
use mathlib.Core.Logic.{inl, inr}
use mathlib.Core.Bool.{Bool, true}
use mathlib.Core.List.{[], ◌∷◌}
use mathlib.Core.Option.{Option, none, some}
use native.Mathlib.Omega.{arith}
use gokrazy_router.Prelude.Lists.{All}
use gokrazy_router.Prelude.Tests.{if◌then◌else◌, Bool-cases}
use gokrazy_router.Prelude.Strings.{Text, text_eq, text_eq_iff}
use gokrazy_router.Prelude.Maps.{Dict, lookup, insert, keep, any_entry, Distinct, lookup-insert}

module _ {ℓ} {V : Type ℓ} where
  -- the value found, if it passes the test
  abbrev pub guarded : (V → Bool) → Option V → Option V
  guarded p none = none
  guarded p (some v) = if p v then some v else none

  pub insert-Distinct : (k : Text) (v : V) (m : Dict V) → Distinct m → Distinct (insert k v m)
  unfolding insert lookup
  insert-Distinct k v [] d = ground arith
  insert-Distinct k v ((j, w) ∷ m) d =
      ground
        (arith, text_eq_iff j k, text_eq_iff k j, lookup-insert k j v m, insert-Distinct k v m d.1)

  lookup-keep-none :
      (p : Text → V → Bool) (j : Text) (m : Dict V) → lookup j m ≡ none → lookup j (keep p m) ≡ none
  unfolding lookup keep
  lookup-keep-none p j [] h = refl
  lookup-keep-none p j ((i, w) ∷ m) h = ground (arith, lookup-keep-none p j m)

  pub keep-Distinct : (p : Text → V → Bool) (m : Dict V) → Distinct m → Distinct (keep p m)
  unfolding keep
  keep-Distinct p [] d = d
  keep-Distinct p ((j, w) ∷ m) d = ground (arith, keep-Distinct p m d.1, lookup-keep-none p j m d.0)

  pub lookup-keep :
      (p : Text → V → Bool) (j : Text) (m : Dict V)
      → Distinct m
      → lookup j (keep p m) ≡ guarded (p j) (lookup j m)
  unfolding lookup keep
  lookup-keep p j [] d = refl
  lookup-keep p j ((i, w) ∷ m) d = ground (
    arith,
    text_eq_iff i j,
    lookup-keep p j m d.1,
    lookup-keep-none p j m,
    lookup-keep-none p i m,
  )

  pub lookup-keep-some :
      (p : Text → V → Bool) (j : Text) (v : V) (m : Dict V)
      → Distinct m
      → lookup j (keep p m) ≡ some v
      → (lookup j m ≡ some v) × (p j v ≡ true)
  lookup-keep-some p j v m d h = ground (arith, lookup-keep p j m d)

  pub any_entry-lookup :
      (p : Text → V → Bool) (k : Text) (v : V) (m : Dict V)
      → lookup k m ≡ some v
      → p k v ≡ true
      → any_entry p m ≡ true
  unfolding lookup any_entry
  any_entry-lookup p k v [] h q = ground arith
  any_entry-lookup p k v ((j, w) ∷ m) h q =
      ground (arith, text_eq_iff j k, any_entry-lookup p k v m)

module _ {ℓ κ} {V : Type ℓ} (P : V → Type κ) where
  -- every value of the map satisfies `P`
  abbrev pub Values : Dict V → Type κ
  Values m = All (λ e. P e.1) m

  pub Values-lookup : (k : Text) (v : V) (m : Dict V) → Values m → lookup k m ≡ some v → P v
  unfolding lookup
  Values-lookup k v [] h e = ground arith
  Values-lookup k v ((j, w) ∷ m) h e = elim (Bool-cases (text_eq j k)) [
    | inl t ↦ let e' : w ≡ v = ground arith in subst P e' h.0
    | inr f ↦ Values-lookup k v m h.1 (rw f at e)
  ]

  pub Values-insert : (k : Text) (v : V) (m : Dict V) → P v → Values m → Values (insert k v m)
  unfolding insert
  Values-insert k v [] p h = (p, tt)
  Values-insert k v ((j, w) ∷ m) p h = elim (Bool-cases (text_eq j k)) [
    | inl t ↦ rw t (p, h.1)
    | inr f ↦ rw f (h.0, Values-insert k v m p h.1)
  ]

  pub Values-keep : (p : Text → V → Bool) (m : Dict V) → Values m → Values (keep p m)
  unfolding keep
  Values-keep p [] h = h
  Values-keep p ((j, w) ∷ m) h = elim (Bool-cases (p j w)) [
    | inl t ↦ rw t (h.0, Values-keep p m h.1)
    | inr f ↦ rw f (Values-keep p m h.1)
  ]
