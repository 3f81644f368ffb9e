-- ===== src/Wifi/Backoff.antt =====
-- The restarts of hostapd in `supervise` of pkg/wifi/wifi.go. Times are in seconds.
use gokrazy_router.Prelude.{
  ℕ, zero, suc, ◌*◌, ◌^◌, ◌≤◌, ◌<◌, ◌≡◌, refl, ap, Bool, true, false, List, [], ◌∷◌, arith, ltb,
  leb, if◌then◌else◌, All, length,
}

-- one pass of the loop: how long hostapd ran, whether `Stop` was called before it ended or during the
-- wait, and whether it could be launched again
pub record Exit : Type 0 where
  pub ran_for : ℕ
  pub stopped : Bool
  pub stopped_waiting : Bool
  pub launched : Bool

-- the fields of `AP` that `Stop` reads: the channel it closes, and whether there is a process
pub record Running : Type 0 where
  pub stop_ch : Bool
  pub process : Bool

-- `Stop`, with whether it interrupts hostapd
unfoldable pub stop : Running → Running × Bool
stop r = (record r { stop_ch = true }, r.process)

-- what `supervise` does
pub data Act : Type 0 where
  clear_clients shut_down : Act
  wait : ℕ → Act
  launch : Bool → Act

abbrev initial_backoff : ℕ
initial_backoff = 1

abbrev max_backoff : ℕ
max_backoff = 30

-- the backoff of this pass: a run of ten seconds resets it
unfoldable pub current_backoff : ℕ → ℕ → ℕ
current_backoff ran_for backoff = if leb 10 ran_for then initial_backoff else backoff

unfoldable pub next_backoff : ℕ → ℕ
next_backoff backoff = if ltb max_backoff (backoff * 2) then max_backoff else backoff * 2

unfoldable pub supervise_from : ℕ → List Exit → List Act
unfolding current_backoff next_backoff
supervise_from backoff [] = []
supervise_from backoff (e ∷ es) =
    let now = current_backoff e.ran_for backoff in
    let rest = supervise_from (next_backoff now) es in
    if e.stopped
    then shut_down ∷ []
    else clear_clients
      ∷ wait now
      ∷ (if e.stopped_waiting then shut_down ∷ [] else launch e.launched ∷ rest)

unfoldable pub supervise : List Exit → List Act
unfolding supervise_from
supervise es = supervise_from initial_backoff es

-- the waits of a run
unfoldable pub waits : List Act → List ℕ
waits [] = []
waits (wait n ∷ acts) = n ∷ waits acts
waits (clear_clients ∷ acts) = waits acts
waits (shut_down ∷ acts) = waits acts
waits (launch b ∷ acts) = waits acts

abbrev InBounds : ℕ → Type 0
InBounds n = (1 ≤ n) × (n ≤ 30)

-- a pass in which nobody stops the access point
abbrev IsCrash : Exit → Type 0
IsCrash e = (e.stopped ≡ false) × (e.stopped_waiting ≡ false)

-- for each end the clients are cleared, then comes a wait of one to thirty seconds, then a launch with the outcome
-- of that pass, and nothing else
abbrev pub Restarts : List Exit → List Act → Type 0
Restarts [] acts = acts ≡ []
Restarts (e ∷ es) acts =
    (n : ℕ) × (rest : List Act) × (acts ≡ clear_clients ∷ wait n ∷ launch e.launched ∷ rest)
    × InBounds n
    × Restarts es rest

supervise_from-Restarts :
    (es : List Exit) (backoff : ℕ)
    → InBounds backoff
    → All IsCrash es
    → Restarts es (supervise_from backoff es)
unfolding supervise_from current_backoff next_backoff
supervise_from-Restarts [] backoff b h = refl
supervise_from-Restarts (e ∷ es) backoff b h =
    let now = current_backoff e.ran_for backoff in
    (
      now,
      supervise_from (next_backoff now) es,
      rw (h.0.0, h.0.1) refl,
      (ground arith, ground arith),
      supervise_from-Restarts es (next_backoff now) (ground arith, ground arith) h.1,
    )

abbrev capped : ℕ → ℕ
capped n = if ltb max_backoff n then max_backoff else n

-- powers of two from 2 ^ k on, capped
unfoldable pub doubling : ℕ → ℕ → List ℕ
doubling k zero = []
doubling k (suc n) = capped (2 ^ k) ∷ doubling (suc k) n

abbrev IsQuick : Exit → Type 0
IsQuick e = e.ran_for < 10

next_backoff-capped : (k : ℕ) → next_backoff (capped (2 ^ k)) ≡ capped (2 ^ (suc k))
unfolding next_backoff
next_backoff-capped k = let twice : 2 ^ (suc k) ≡ 2 * 2 ^ k = omega arith in ground (arith, twice)

waits-doubling :
    (es : List Exit) (k : ℕ)
    → All IsCrash es
    → All IsQuick es
    → waits (supervise_from (capped (2 ^ k)) es) ≡ doubling k (length es)
unfolding supervise_from waits doubling current_backoff
waits-doubling [] k h q = refl
waits-doubling (e ∷ es) k h q =
    let quick : current_backoff e.ran_for (capped (2 ^ k)) ≡ capped (2 ^ k) = ground (arith, q.0) in
    rw (h.0.0, h.0.1, quick, next_backoff-capped k)
      (ap (λ ns. capped (2 ^ k) ∷ ns) (waits-doubling es (suc k) h.1 q.1))

-- However often hostapd ends, as long as nobody stops the access point: for each end the clients are cleared, and
-- after a wait of one to thirty seconds hostapd is launched again, in this order and without anything else.
pub supervise-Restarts : (es : List Exit) → All IsCrash es → Restarts es (supervise es)
unfolding supervise
supervise-Restarts es h = supervise_from-Restarts es 1 (omega arith, omega arith) h

-- Where nobody stops the access point and each run is shorter than ten seconds, the waits are the powers
-- of two from one on, up to thirty.
waits-supervise :
    (es : List Exit)
    → All IsCrash es
    → All IsQuick es
    → waits (supervise es) ≡ doubling 0 (length es)
unfolding supervise
waits-supervise es h q = waits-doubling es 0 h q
