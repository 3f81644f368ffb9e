-- ===== src/Pxe/Reader.antt =====
-- The reader of pkg/pxe/pxe.go and its table of active transfers. A transfer that was started runs until
-- it ends, whatever the reader does; its key is taken out of the table then.
pub mod Consistency
use gokrazy_router.Prelude.{
  ℕ, ◌+◌, ◌*◌, false, not, ◌||◌, Option, none, some, List, [], ◌∷◌, ◌++◌, ◌==◌, if◌then◌else◌, Text,
  text_eq, is_empty, Dict, lookup, insert, erase,
}
use gokrazy_router.Pxe.Request.{Rrq, parse_rrq, sanitize_tftp_name}
use gokrazy_router.Pxe.Transfer.{Ready, set_ready, abort}

-- `Server.active`, and the keys of the calls of `serveFile` that have not returned
pub record Table : Type 0 where
  pub active : Dict Ready
  pub running : List Text

abbrev pub new_table : Table
new_table = record { active = []; running = [] }

-- a transfer that has sent nothing
abbrev pub new_transfer : Ready
new_transfer = record { fired = false; block1 = none }

-- what the reader does with a packet
pub data Answer : Type 0 where
  ignored : Answer
  started : Text → Text → Dict Text → Answer
  duplicate : Option (List ℕ) → Answer

-- `resendBlock1`, when its wait has ended: the block that is sent again
unfoldable pub resend_block1 : Ready → Option (List ℕ)
resend_block1 r = if r.fired then r.block1 else none

abbrev pub key_of : Text → Text → Text
key_of client filename = client ++ b'|' ∷ filename

-- `LoadOrStore`, and what follows it
unfoldable pub admit : Text → Text → Dict Text → Table → Answer × Table
unfolding resend_block1
admit key filename opts t = elim (lookup key t.active) [
  | some existing ↦ (duplicate (resend_block1 existing), t)
  | none ↦ (
    started key filename opts,
    record { active = insert key new_transfer t.active; running = key ∷ t.running },
  )
]

-- the file name of a read request
unfoldable pub requested_name : List ℕ → Text
unfolding sanitize_tftp_name parse_rrq
requested_name pkt = sanitize_tftp_name (parse_rrq pkt).filename

-- the body of the loop of `reader`, for a packet from a client
unfoldable pub read_packet : Text → List ℕ → Table → Answer × Table
unfolding admit requested_name
read_packet client (hi ∷ lo ∷ rest) t =
    let pkt = hi ∷ lo ∷ rest in
    let filename = requested_name pkt in
    let result = admit (key_of client filename) filename (parse_rrq pkt).opts t in
    if not (hi * 256 + lo == 1) || is_empty filename then (ignored, t) else result
read_packet client _ t = (ignored, t)

-- removes one call
unfoldable pub leave : Text → List Text → List Text
leave key [] = []
leave key (k ∷ ks) = let rest = leave key ks in if text_eq k key then ks else k ∷ rest

abbrev pub update : Text → (Ready → Ready) → Dict Ready → Dict Ready
update key f m = elim (lookup key m) [ none ↦ m | some r ↦ insert key (f r) m ]

unfoldable pub count_key : Text → List Text → ℕ
count_key key [] = 0
count_key key (k ∷ ks) = (if text_eq k key then 1 else 0) + count_key key ks

-- what happens to the table: a packet is read, a transfer sends its first block, a transfer ends
pub data Event : Type 0 where
  packet : Text → List ℕ → Event
  first_block : Text → List ℕ → Event
  ended : Text → Event

-- `defer s.active.Delete(key)`, for a call that has not returned
unfoldable pub end_transfer : Text → Table → Table
unfolding leave
end_transfer key t =
    if count_key key t.running == 0
    then t
    else record { active = erase key t.active; running = leave key t.running }

unfoldable pub step : Event → Table → Table
unfolding read_packet set_ready end_transfer
step (packet client pkt) t = (read_packet client pkt t).1
step (first_block key data_packet) t = record t {
  active = update key (set_ready data_packet) t.active;
}
step (ended key) t = end_transfer key t

unfoldable pub run : List Event → Table → Table
unfolding step
run [] t = t
run (e ∷ es) t = run es (step e t)
