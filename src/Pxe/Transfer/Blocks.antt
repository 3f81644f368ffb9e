-- ===== src/Pxe/Transfer/Blocks.antt =====
-- The blocks of a transfer in pkg/pxe/pxe.go, against the file that they are cut from.
use gokrazy_router.Prelude.{
  ℕ, zero, suc, ◌+◌, ◌≤◌, ◌<◌, ◌≡◌, refl, ◌⊎◌, inl, inr, Bool, true, false, none, some, List, [],
  ◌∷◌, ◌++◌, arith, length, take, drop, Text, Dict,
}
use native.Mathlib.Numerals.{add-one}
use gokrazy_router.Pxe.Wire.{UdpAddr, Attempt, Outcome, delivered, gave_up, send_block, send_oack}
use gokrazy_router.Pxe.Transfer.{
  requested_size, negotiate, data_packet, Ready, set_ready, abort, completed, aborted, Sent,
  next_block, keep_first, transmit, serve, serve_file,
}

Outcome-cases : (o : Outcome) → (o ≡ delivered) ⊎ (o ≡ gave_up)
Outcome-cases delivered = inl refl
Outcome-cases gave_up = inr refl

-- The block size of every transfer is from 1 to 1468, whatever the client asks for.
pub negotiate_bounds : (opts : Dict Text) → (1 ≤ negotiate opts) × (negotiate opts ≤ 1468)
unfolding negotiate requested_size
negotiate_bounds opts = ground arith

-- The blocks carry the file: numbered from `block` on, modulo 2^16, each but the last full, the last
-- shorter than a block.
abbrev pub IsChunked : ℕ → ℕ → List ℕ → List (ℕ × List ℕ) → Type 0
IsChunked size block file [] = ⊥
IsChunked size block file ((b, chunk) ∷ []) = (b ≡ block) × (chunk ≡ file) × (length chunk < size)
IsChunked size block file ((b, chunk) ∷ next ∷ more) =
    (b ≡ block)
    × (length chunk ≡ size)
    × ((rest : List ℕ) × (file ≡ chunk ++ rest)
        × IsChunked size (next_block block) rest (next ∷ more))

-- The blocks carry the beginning of the file, each of them full.
abbrev pub IsBeginning : ℕ → ℕ → List ℕ → List (ℕ × List ℕ) → Type 0
IsBeginning size block file [] = Unit
IsBeginning size block file ((b, chunk) ∷ more) =
    (b ≡ block)
    × (length chunk ≡ size)
    × ((rest : List ℕ) × (file ≡ chunk ++ rest) × IsBeginning size (next_block block) rest more)

module _ (client : UdpAddr) (network : ℕ → Attempt) where
  -- from the attempt `i` on, each of the blocks is acknowledged, one after the other
  abbrev pub Acked : ℕ → List (ℕ × List ℕ) → Type 0
  Acked i [] = Unit
  Acked i ((b, chunk) ∷ more) =
      ((send_block client b network i).0 ≡ delivered) × Acked (send_block client b network i).1 more

  -- and then the block with the next number is given up
  abbrev pub Stops : ℕ → ℕ → List (ℕ × List ℕ) → Type 0
  Stops i block [] = (send_block client block network i).0 ≡ gave_up
  Stops i block ((b, chunk) ∷ more) =
      ((send_block client b network i).0 ≡ delivered)
      × Stops (send_block client b network i).1 (next_block block) more

  -- how the transfer ends: with the whole file, all of it acknowledged, or on a block that is given up
  abbrev pub Delivers : ℕ → ℕ → ℕ → List ℕ → Sent → Type 0
  Delivers i size block file s =
      ((s.end ≡ completed) × IsChunked size block file s.blocks × Acked i s.blocks)
      ⊎ ((s.end ≡ aborted) × IsBeginning size block file s.blocks × Stops i block s.blocks)

  -- the option acknowledgement, where there is one, is given up, or the blocks follow it
  abbrev pub Serves : Bool → ℕ → List ℕ → Sent → Type 0
  Serves false size file s = Delivers 0 size 1 file s
  Serves true size file s =
      (((send_oack client network 0).0 ≡ gave_up) × (s.end ≡ aborted) × (s.blocks ≡ []))
      ⊎ (((send_oack client network 0).0 ≡ delivered)
          × Delivers (send_oack client network 0).1 size 1 file s)

module _ (client : UdpAddr) (network : ℕ → Attempt) (size : ℕ) (positive : 0 < size) where
  -- Once fired, the kept first block stays, also when the block number comes round to 1 again.
  transmit_fired :
      (fuel i : ℕ) (rest : List ℕ) (block : ℕ) (ready : Ready)
      → ready.fired ≡ true
      → (transmit fuel client network size i rest block ready).ready ≡ ready
  unfolding transmit set_ready
  transmit_fired zero i rest block ready h = refl
  transmit_fired (suc fuel) i rest block ready h =
      let kept : keep_first block (take size rest) ready ≡ ready = ground arith in
      let later =
        transmit_fired fuel (send_block client block network i).1 (drop size rest)
          (next_block block) ready h in
      ground (arith, kept, later)

  transmit_first :
      (fuel i : ℕ) (file : List ℕ)
      → (transmit
          (suc fuel)
          client
          network
          size
          i
          file
          1
          (record { fired = false; block1 = none })).ready.block1
        ≡ some (data_packet 1 (take size file))
  unfolding transmit set_ready
  transmit_first fuel i file =
      let kept : Ready = record { fired = true; block1 = some (data_packet 1 (take size file)) } in
      let later =
        transmit_fired fuel (send_block client 1 network i).1 (drop size file) (next_block 1) kept
          refl in
      ground (arith, later)

  serve_first :
      (i : ℕ) (file : List ℕ)
      → (transmit
          (length file + 1)
          client
          network
          size
          i
          file
          1
          (record { fired = false; block1 = none })).ready.block1
        ≡ some (data_packet 1 (take size file))
  serve_first i file = rw add-one (transmit_first (length file) i file)

  pub serve_keeps_first :
      (with_options : Bool) (file : List ℕ)
      → ((serve client network with_options size file).blocks ≡ [])
        ⊎ ((serve client network with_options size file).ready.block1
            ≡ some (data_packet 1 (take size file)))
  unfolding serve abort
  serve_keeps_first false file = inr (serve_first 0 file)
  serve_keeps_first true file = elim (Outcome-cases (send_oack client network 0).0) [
    | inl greeted ↦ inr (rw (greeted, serve) (serve_first (send_oack client network 0).1 file))
    | inr failed ↦ inl (rw (failed, serve))
  ]

module _ (client : UdpAddr) (network : ℕ → Attempt) (opts : Dict Text) (file : List ℕ) where
  -- When a transfer has delivered a block, it has kept the first packet, for duplicate requests, to the
  -- end.
  serve_file_keeps_first :
      ((serve_file client network opts file).blocks ≡ [])
      ⊎ ((serve_file client network opts file).ready.block1
          ≡ some (data_packet 1 (take (negotiate opts) file)))
  unfolding serve_file
  serve_file_keeps_first =
      serve_keeps_first client network (negotiate opts) (negotiate_bounds opts).0 _ file
