-- ===== src/Pxe/Wire/Retries.antt =====
-- The retry loop of pkg/pxe/pxe.go: how often a block is sent, and when it counts as delivered.
use gokrazy_router.Prelude.{
  ℕ, zero, suc, ◌+◌, ◌*◌, ◌<◌, ◌≡◌, refl, sym, ap, ◌↔◌, ◌⊎◌, inl, inr, Bool, true, false, ◌&&◌,
  ◌||◌, List, [], ◌∷◌, arith, if◌then◌else◌, Bool-cases,
}
use mathlib.Core.Path.{subst}
use gokrazy_router.Pxe.Wire.{
  UdpAddr, Datagram, WaitEnd, timeout, read_error, Attempt, same_addr, is_ack, Wait, acked,
  timed_out, failed, wait_for_ack, attempt_once, Outcome, delivered, gave_up, send_rounds,
  send_block,
}

-- some datagram is the client's acknowledgement of the block
unfoldable pub has_ack : UdpAddr → ℕ → List Datagram → Bool
has_ack client block [] = false
has_ack client block (d ∷ ds) =
    (same_addr d.sender client && is_ack block d.payload) || has_ack client block ds

-- how a wait ends when the acknowledgement does not come
abbrev pub wait_result : WaitEnd → Wait
wait_result timeout = timed_out
wait_result read_error = failed

-- `waitForAck` succeeds exactly if the client's own acknowledgement of this block arrives; nothing
-- else that arrives has an effect.
pub wait_for_ack_lem :
    (client : UdpAddr) (block : ℕ) (ds : List Datagram) (end : WaitEnd)
    → wait_for_ack client block ds end
      ≡ (if has_ack client block ds then acked else wait_result end)
unfolding wait_for_ack has_ack
wait_for_ack_lem client block [] timeout = refl
wait_for_ack_lem client block [] read_error = refl
wait_for_ack_lem client block (d ∷ ds) end = ground (arith, wait_for_ack_lem client block ds end)

-- the payload acknowledges the block: four bytes at least, the opcode 4 and the number of the block
abbrev pub IsAck : ℕ → List ℕ → Type 0
IsAck block payload =
    (a : ℕ) × (b : ℕ) × (c : ℕ) × (d : ℕ) × (rest : List ℕ) × (payload ≡ a ∷ b ∷ c ∷ d ∷ rest)
    × (a * 256 + b ≡ 4)
    × (c * 256 + d ≡ block)

-- some datagram is from the client and acknowledges the block
abbrev pub Arrives : UdpAddr → ℕ → List Datagram → Type 0
Arrives client block [] = ⊥
Arrives client block (d ∷ ds) =
    ((same_addr d.sender client ≡ true) × IsAck block d.payload) ⊎ Arrives client block ds

is_ack_iff : (block : ℕ) (payload : List ℕ) → (is_ack block payload ≡ true) ↔ IsAck block payload
unfolding is_ack
is_ack_iff block (a ∷ b ∷ c ∷ d ∷ rest) = (
  λ h. (a, b, c, d, rest, refl, ground (arith, h), ground (arith, h)),
  λ (a2, b2, c2, d2, rest2, e, op, number).
      let ea : a ≡ a2 = cc e in
      let eb : b ≡ b2 = cc e in
      let ec : c ≡ c2 = cc e in
      let ed : d ≡ d2 = cc e in ground (arith, ea, eb, ec, ed, op, number),
)
is_ack_iff block (a ∷ b ∷ c ∷ []) =
    (λ h. absurd cc, λ (a2, b2, c2, d2, rest2, e, op, number). absurd cc)
is_ack_iff block (a ∷ b ∷ []) =
    (λ h. absurd cc, λ (a2, b2, c2, d2, rest2, e, op, number). absurd cc)
is_ack_iff block (a ∷ []) = (λ h. absurd cc, λ (a2, b2, c2, d2, rest2, e, op, number). absurd cc)
is_ack_iff block [] = (λ h. absurd cc, λ (a2, b2, c2, d2, rest2, e, op, number). absurd cc)

has_ack_iff :
    (client : UdpAddr) (block : ℕ) (ds : List Datagram)
    → (has_ack client block ds ≡ true) ↔ Arrives client block ds
unfolding has_ack
has_ack_iff client block [] = (λ h. absurd cc, λ h. absurd h)
has_ack_iff client block (d ∷ ds) = (
  λ h. elim (Bool-cases (same_addr d.sender client && is_ack block d.payload)) [
    | inl both ↦ inl (ground (arith, both), (is_ack_iff block d.payload).0 (ground (arith, both)))
    | inr other ↦ inr ((has_ack_iff client block ds).0 (ground (arith, other, h)))
  ],
  λ h. elim h [
    | inl (from, ack) ↦ (let own = (is_ack_iff block d.payload).1 ack in ground (arith, from, own))
    | inr later ↦ (let more = (has_ack_iff client block ds).1 later in ground (arith, more))
  ],
)

-- the packet is written and the deadline set
abbrev pub Goes : Attempt → Type 0
Goes a = (a.write_ok ≡ true) × (a.deadline_ok ≡ true)

-- the attempt brings the acknowledgement
abbrev pub Acks : UdpAddr → ℕ → Attempt → Type 0
Acks client block a = Goes a × Arrives client block a.arrivals

-- the time runs out before the acknowledgement
abbrev pub TimesOut : UdpAddr → ℕ → Attempt → Type 0
TimesOut client block a = Goes a × ¬ Arrives client block a.arrivals × (a.wait_end ≡ timeout)

-- the write or the deadline fails, or the read before the acknowledgement
abbrev pub Breaks : UdpAddr → ℕ → Attempt → Type 0
Breaks client block a =
    (a.write_ok ≡ false)
    ⊎ (a.deadline_ok ≡ false)
    ⊎ (¬ Arrives client block a.arrivals × (a.wait_end ≡ read_error))

-- what a wait means
abbrev Means : UdpAddr → ℕ → Attempt → Wait → Type 0
Means client block a acked = Acks client block a
Means client block a timed_out = TimesOut client block a
Means client block a failed = Breaks client block a

attempt_once-Means :
    (client : UdpAddr) (block : ℕ) (a : Attempt)
    → Means client block a (attempt_once client block a)
unfolding attempt_once
attempt_once-Means client block a = elim (Bool-cases a.write_ok) [
  | inr w ↦ of_result failed (ground (arith, w)) (inl w)
  | inl w ↦ elim (Bool-cases a.deadline_ok) [
    | inr d ↦ of_result failed (ground (arith, w, d)) (inr (inl d))
    | inl d ↦ elim (Bool-cases (has_ack client block a.arrivals)) [
      | inl h ↦
          of_result acked
            (ground (arith, w, d, h, wait_for_ack_lem client block a.arrivals a.wait_end))
            ((w, d), (has_ack_iff client block a.arrivals).0 h)
      | inr h ↦
          let missing : ¬ Arrives client block a.arrivals =
            (λ k. (let found = (has_ack_iff client block a.arrivals).1 k in absurd cc)) in
          of_result (wait_result a.wait_end)
            (ground (arith, w, d, h, wait_for_ack_lem client block a.arrivals a.wait_end))
            (ended a.wait_end refl (w, d) missing)
    ]
  ]
]
  where
    of_result :
        (r : Wait)
        → attempt_once client block a ≡ r
        → Means client block a r
        → Means client block a (attempt_once client block a)
    of_result r q m = subst (Means client block a) (sym q) m

    ended :
        (e : WaitEnd)
        → a.wait_end ≡ e
        → Goes a
        → ¬ Arrives client block a.arrivals
        → Means client block a (wait_result e)
    ended timeout q goes missing = (goes, missing, q)
    ended read_error q goes missing = inr (inr (missing, q))

-- all of the `n` attempts from `i` on time out
abbrev pub AllTimeOut : UdpAddr → ℕ → (ℕ → Attempt) → ℕ → ℕ → Type 0
AllTimeOut client block network i zero = Unit
AllTimeOut client block network i (suc n) =
    TimesOut client block (network i) × AllTimeOut client block network (i + 1) n

-- how the loop ended after `n` attempts that timed out
pub data Ending (left : ℕ) (client : UdpAddr) (block : ℕ) (network : ℕ → Attempt) (i : ℕ)
    (r : Outcome × ℕ) : Type 0 where
  delivers :
      (n : ℕ)
      → n < left
      → AllTimeOut client block network i n
      → Acks client block (network (i + n))
      → r ≡ (delivered, i + n + 1)
      → Ending left client block network i r
  breaks :
      (n : ℕ)
      → n < left
      → AllTimeOut client block network i n
      → Breaks client block (network (i + n))
      → r ≡ (gave_up, i + n + 1)
      → Ending left client block network i r
  exhausts :
      AllTimeOut client block network i left
      → r ≡ (gave_up, i + left)
      → Ending left client block network i r

Ending-suc :
    {left : ℕ} {client : UdpAddr} {block : ℕ} {network : ℕ → Attempt} {i : ℕ} {r : Outcome × ℕ}
    → TimesOut client block (network i)
    → Ending left client block network (i + 1) r
    → Ending (suc left) client block network i r
Ending-suc {i} t (delivers n h a e q) =
    let shift : i + 1 + n ≡ i + suc n = omega arith in
    delivers (suc n) (omega arith) (t, a) (rw shift at e) (rw shift at q)
Ending-suc {i} t (breaks n h a e q) =
    let shift : i + 1 + n ≡ i + suc n = omega arith in
    breaks (suc n) (omega arith) (t, a) (rw shift at e) (rw shift at q)
Ending-suc {left} {i} t (exhausts a q) =
    let shift : i + 1 + left ≡ i + suc left = omega arith in exhausts (t, a) (rw shift at q)

send_rounds-Ending :
    (left : ℕ) (client : UdpAddr) (block : ℕ) (network : ℕ → Attempt) (i : ℕ)
    → Ending left client block network i (send_rounds left client block network i)
unfolding send_rounds
send_rounds-Ending zero client block network i =
    exhausts tt (let e : i ≡ i + 0 = omega arith in ap (λ j. (gave_up, j)) e)
send_rounds-Ending (suc left) client block network i =
    of_wait (attempt_once client block (network i)) refl
      (attempt_once-Means client block (network i))
      (send_rounds-Ending left client block network (i + 1))
  where
    of_wait :
        (w : Wait)
        → attempt_once client block (network i) ≡ w
        → Means client block (network i) w
        → Ending left client block network (i + 1) (send_rounds left client block network (i + 1))
        → Ending (suc left) client block network i (send_rounds (suc left) client block network i)
    of_wait acked e m later =
        let z : i ≡ i + 0 = omega arith in
        delivers 0 (omega arith) tt (subst (λ j. Acks client block (network j)) z m)
          (rw (e, send_rounds) (ap (λ j. (delivered, j + 1)) z))
    of_wait timed_out e m later =
        let step : send_rounds (suc left) client block network i
            ≡ send_rounds left client block network (i + 1) =
          rw (e, send_rounds) in
        rw step (Ending-suc m later)
    of_wait failed e m later =
        let z : i ≡ i + 0 = omega arith in
        breaks 0 (omega arith) tt (subst (λ j. Breaks client block (network j)) z m)
          (rw (e, send_rounds) (ap (λ j. (gave_up, j + 1)) z))

-- A block is sent twelve times at most. It is delivered exactly on the first attempt that brings the client's
-- acknowledgement of this block, after attempts that all timed out; an attempt whose write, deadline or read fails
-- ends the transfer at once.
pub send_block-Ending :
    (client : UdpAddr) (block : ℕ) (network : ℕ → Attempt) (i : ℕ)
    → Ending 12 client block network i (send_block client block network i)
unfolding send_block
send_block-Ending = send_rounds-Ending 12
