-- ===== src/Prelude/Action.antt =====
-- Calls that act on the world outside: they return a value or an error, and the world after them.
use mathlib.Core.Path.{◌≡◌, refl}
use mathlib.Core.Path.{ap}
use mathlib.Core.List.{◌++◌}
use gokrazy_router.Prelude.Strings.{Text, codes}

pub data Outcome {ℓ} (Value : Type ℓ) : Type ℓ where
  failed : Text → Outcome Value
  done : Value → Outcome Value

-- `World` is what the calls act on
abbrev pub Action : Type 0 → Type 0 → Type 0
Action World Value = World → Outcome Value × World

module _ {World : Type 0} where
  -- an early return of the error, and the statements after it
  abbrev pub and_then :
      {Value Next : Type 0}
      → Outcome Value × World
      → (Value → Action World Next)
      → Outcome Next × World
  and_then (failed e, w) next = (failed e, w)
  and_then (done v, w) next = next v w

  infixl 5 ◌>>=◌
  abbrev pub ◌>>=◌ :
      {Value Next : Type 0} → Action World Value → (Value → Action World Next) → Action World Next
  (act >>= next) w = and_then (act w) next

  abbrev pub return : {Value : Type 0} → Value → Action World Value
  return v w = (done v, w)

  abbrev pub fail : {Value : Type 0} → Text → Action World Value
  fail e w = (failed e, w)

  -- `fmt.Errorf("…: %w", err)`
  abbrev pub wrap : {Value : Type 0} → Text → Outcome Value × World → Outcome Value × World
  wrap context (failed e, w) = (failed (context ++ codes ": " ++ e), w)
  wrap context (done v, w) = (done v, w)

  pub done_inj :
      {Value : Type 0}
      → {a b : Value} {w w2 : World} → Path (Outcome Value × World) (done a, w) (done b, w2)
      → (a ≡ b) × (w ≡ w2)
  done_inj {a = a} h = (ap (λ x. elim x.0 [ done v ↦ v | failed e ↦ a ]) h, ap (λ x. x.1) h)

  pub wrap-eq-done :
      {Value : Type 0}
      → (context : Text) (result : Outcome Value × World) {v : Value} {w2 : World}
      → wrap context result ≡ (done v, w2)
      → result ≡ (done v, w2)
  wrap-eq-done context (failed e, w) h = absurd cc
  wrap-eq-done context (done v, w) h = h

  -- what a successful sequence of two calls did
  pub and_then-eq-done :
      {Value Next : Type 0}
      → (result : Outcome Value × World) (next : Value → Action World Next) {b : Next} {w2 : World}
      → and_then result next ≡ (done b, w2)
      → (v : Value) × (w1 : World) × (result ≡ (done v, w1)) × (next v w1 ≡ (done b, w2))
  and_then-eq-done (failed e, w) next h = absurd cc
  and_then-eq-done (done v, w) next h = (v, w, refl, h)
