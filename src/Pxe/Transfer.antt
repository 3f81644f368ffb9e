-- ===== src/Pxe/Transfer.antt =====
-- `serveFile` of pkg/pxe/pxe.go behind the opening of the file: the negotiated block size, the loop
-- over the blocks, and `setReady` and `abort` of the transfer. A file is its bytes, and a read of a
-- regular file fills the buffer or takes what is left.
pub mod Blocks
use gokrazy_router.Prelude.{
  ℕ, zero, suc, ◌+◌, ◌/◌, ◌%◌, ◌^◌, Bool, true, false, not, Option, none, some, List, [], ◌∷◌, ltb,
  ◌==◌, if◌then◌else◌, length, take, drop, Text, codes, is_empty, Dict, lookup, ℤ, pos, negsuc,
}
use gokrazy_router.Prelude.Decimal.{atoi}
use gokrazy_router.Pxe.Request.{build_oack}
use gokrazy_router.Pxe.Wire.{UdpAddr, Attempt, Outcome, delivered, gave_up, send_block, send_oack}

abbrev pub tftp_block_size : ℕ
tftp_block_size = 512

abbrev pub max_block_size : ℕ
max_block_size = 1468

-- what a client's `blksize` makes of the block size
unfoldable pub requested_size : Option ℤ → ℕ
requested_size none = tftp_block_size
requested_size (some (negsuc n)) = tftp_block_size
requested_size (some (pos req)) =
    if ltb 0 req then (if ltb max_block_size req then max_block_size else req) else tftp_block_size

unfoldable pub negotiate : Dict Text → ℕ
negotiate opts = elim (lookup (codes "blksize") opts) [
  | none ↦ tftp_block_size
  | some bs ↦ requested_size (atoi bs)
]

-- a DATA packet; the block number is a `uint16`
unfoldable pub data_packet : ℕ → List ℕ → List ℕ
data_packet block chunk = 0 ∷ 3 ∷ block / 256 ∷ block % 256 ∷ chunk

-- the part of `transfer` behind its `sync.Once`: whether it has run, and the first block it kept
pub record Ready : Type 0 where
  pub fired : Bool
  pub block1 : Option (List ℕ)

unfoldable pub set_ready : List ℕ → Ready → Ready
set_ready packet r = if r.fired then r else record { fired = true; block1 = some packet }

unfoldable pub abort : Ready → Ready
abort r = record r { fired = true }

pub data End : Type 0 where
  completed aborted out_of_fuel : End

-- what a transfer has done: the blocks delivered, in order, and how it ended
pub record Sent : Type 0 where
  pub blocks : List (ℕ × List ℕ)
  pub ready : Ready
  pub end : End

abbrev pub with_block : ℕ → List ℕ → Sent → Sent
with_block block chunk s = record s { blocks = (block, chunk) ∷ s.blocks }

abbrev pub next_block : ℕ → ℕ
next_block block = (block + 1) % 2 ^ 16

abbrev pub keep_first : ℕ → List ℕ → Ready → Ready
keep_first block chunk r = if block == 1 then set_ready (data_packet block chunk) r else r

-- the loop of `serveFile`, from a block number on, on the bytes that are left
unfoldable pub transmit : ℕ → UdpAddr → (ℕ → Attempt) → ℕ → ℕ → List ℕ → ℕ → Ready → Sent
transmit zero client network size i rest block ready = record {
  blocks = [];
  ready = ready;
  end = out_of_fuel;
}
transmit (suc fuel) client network size i rest block ready =
    let chunk = take size rest in
    let ready' = keep_first block chunk ready in
    let (outcome, j) = send_block client block network i in
    let later = transmit fuel client network size j (drop size rest) (next_block block) ready' in
    elim outcome [
      | gave_up ↦ record { blocks = []; ready = ready'; end = aborted }
      | delivered ↦
          if ltb (length chunk) size
          then record { blocks = (block, chunk) ∷ []; ready = ready'; end = completed }
          else with_block block chunk later
    ]

-- The transfer of a file: the option acknowledgement, if options were asked for, then the blocks. The
-- deferred `abort` runs last.
unfoldable pub serve : UdpAddr → (ℕ → Attempt) → Bool → ℕ → List ℕ → Sent
serve client network with_options size file =
    let fresh : Ready = record { fired = false; block1 = none } in
    let (greeted, i) = if with_options then send_oack client network 0 else (delivered, 0) in
    let sent : Sent = elim greeted [
      | gave_up ↦ record { blocks = []; ready = fresh; end = aborted }
      | delivered ↦ transmit (length file + 1) client network size i file 1 fresh
    ] in
    record sent { ready = abort sent.ready }

-- `serveFile` with the options of the request: the block size is the negotiated one, and the option
-- acknowledgement is sent if it is not nil
unfoldable pub serve_file : UdpAddr → (ℕ → Attempt) → Dict Text → List ℕ → Sent
serve_file client network opts file =
    let size = negotiate opts in
    let oack = build_oack opts size (length file) in
    serve client network (not (is_empty oack)) size file
