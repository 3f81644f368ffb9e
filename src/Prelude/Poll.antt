-- ===== src/Prelude/Poll.antt =====
-- Loops that try a call until it succeeds or a deadline has passed, with a sleep after each failure. Times are
-- in milliseconds.
use Prim.Native.Nat.{ℕ, zero, suc, ◌+◌, ◌*◌, ◌≤◌}
use mathlib.Core.Path.{◌≡◌, refl}
use mathlib.Core.Logic.{◌⊎◌, inl, inr}
use native.Mathlib.Omega.{arith}
use gokrazy_router.Prelude.Tests.{ltb, if◌then◌else◌, Bool-cases}
use gokrazy_router.Prelude.Strings.{Text}
use gokrazy_router.Prelude.Action.{Action, Outcome, failed, done}

-- `time.Now` and `time.Sleep`
pub record Clock (World : Type 0) : Type 0 where
  pub now : World → ℕ
  pub sleep : ℕ → World → World

module _ {World Value : Type 0} (clock : Clock World) (attempt : Action World Value) (pause : ℕ)
    (late : Text) where
  -- what follows an attempt
  abbrev after_attempt :
      Outcome Value × World → Action World (Unit {0}) → Outcome (Unit {0}) × World
  after_attempt (done v, w) next = (done tt, w)
  after_attempt (failed e, w) next = next (clock.sleep pause w)

  unfoldable pub poll : ℕ → ℕ → Action World (Unit {0})
  poll deadline zero w = (failed late, w)
  poll deadline (suc fuel) w =
      if ltb (clock.now w) deadline
      then after_attempt (attempt w) (poll deadline fuel)
      else (failed late, w)

  -- an attempt succeeded, and nothing was done since; or the clock has reached the deadline
  abbrev pub Ending : ℕ → Outcome (Unit {0}) × World → Type 0
  Ending deadline r =
      ((r.0 ≡ done tt) × (w1 : World) × (v : Value) × (attempt w1 ≡ (done v, r.1)))
      ⊎ ((r.0 ≡ failed late) × (deadline ≤ clock.now r.1))

  after_attempt-Ending :
      (deadline : ℕ) (w : World) (r : Outcome Value × World) (next : Action World (Unit {0}))
      → attempt w ≡ r
      → Ending deadline (next (clock.sleep pause r.1))
      → Ending deadline (after_attempt r next)
  after_attempt-Ending deadline w (done v, w1) next e h = inl (refl, w, v, e)
  after_attempt-Ending deadline w (failed x, w1) next e h = h

  -- Where the clock does not go back and a sleep takes its time, the fuel is enough if it covers the wait.
  pub poll-Ending :
      ((w : World) → clock.now w ≤ clock.now (attempt w).1)
      → ((n : ℕ) (w : World) → clock.now w + n ≤ clock.now (clock.sleep n w))
      → (deadline fuel : ℕ) (w : World) → deadline ≤ clock.now w + pause * fuel
      → Ending deadline (poll deadline fuel w)
  unfolding poll
  poll-Ending later sleeps deadline zero w h = inr (refl, ground (arith, h))
  poll-Ending later sleeps deadline (suc fuel) w h =
      elim (Bool-cases (ltb (clock.now w) deadline)) [
        | inl e ↦ rw e (
            after_attempt-Ending deadline w (attempt w) (poll deadline fuel) refl (
              poll-Ending later sleeps deadline fuel (clock.sleep pause (attempt w).1)
                (grind (arith, h, later w, sleeps pause (attempt w).1))))
        | inr e ↦ rw e (inr (refl, ground (arith, e)))
      ]

  after_attempt-keeps :
      (P : World → Type 0) (r : Outcome Value × World) (next : Action World (Unit {0}))
      → P r.1
      → P (next (clock.sleep pause r.1)).1
      → P (after_attempt r next).1
  after_attempt-keeps P (done v, w) next h k = h
  after_attempt-keeps P (failed e, w) next h k = k

  -- what the attempts and the sleeps keep, the loop keeps
  pub poll-keeps :
      (P : World → Type 0)
      → ((w : World) → P w → P (attempt w).1)
      → ((w : World) → P w → P (clock.sleep pause w))
      → (deadline fuel : ℕ) (w : World) → P w
      → P (poll deadline fuel w).1
  unfolding poll
  poll-keeps P tries sleeps deadline zero w h = h
  poll-keeps P tries sleeps deadline (suc fuel) w h =
      elim (Bool-cases (ltb (clock.now w) deadline)) [
        | inr e ↦ rw e h
        | inl e ↦ rw e (
            after_attempt-keeps P (attempt w) (poll deadline fuel) (tries w h) (
              poll-keeps P tries sleeps deadline fuel (clock.sleep pause (attempt w).1)
                (sleeps (attempt w).1 (tries w h))))
      ]
