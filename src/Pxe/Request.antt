-- ===== src/Pxe/Request.antt =====
-- Read requests in pkg/pxe/pxe.go: `parseRRQ`, `cstring` and `sanitizeTFTPName`, and the option
-- acknowledgement that `buildOACK` writes.
pub mod Parsing
pub mod Names
use gokrazy_router.Prelude.{
  ℕ, zero, suc, ◌+◌, Bool, true, false, ◌&&◌, none, some, List, [], ◌∷◌, ◌++◌, reverse, ltb, leb,
  ◌==◌, if◌then◌else◌, length, drop, Text, codes, is_empty, to_lower, Dict, lookup, insert,
}
use gokrazy_router.Prelude.Decimal.{print_nat}

-- `cstring`: the text up to the first NUL and the bytes behind it; with no NUL, nothing and nothing
unfoldable pub cstring_onto : Text → List ℕ → Text × List ℕ
cstring_onto before [] = ([], [])
cstring_onto before (v ∷ vs) =
    let rest = cstring_onto (before ++ v ∷ []) vs in if v == 0 then (before, vs) else rest

unfoldable pub cstring : List ℕ → Text × List ℕ
cstring = cstring_onto []

-- The loop over the options; each round takes a byte at least, so the length is fuel enough.
unfoldable pub parse_options : ℕ → List ℕ → Dict Text → Dict Text
parse_options zero rest opts = opts
parse_options (suc fuel) rest opts =
    let (key, r) = cstring rest in
    let (val, r2) = cstring r in
    let more = parse_options fuel r2 (insert (to_lower key) val opts) in
    if is_empty rest then opts else if is_empty key then opts else more

pub record Rrq : Type 0 where
  pub filename : Text
  pub mode : Text
  pub opts : Dict Text

-- `parseRRQ`, on a packet of two bytes at least
unfoldable pub parse_rrq : List ℕ → Rrq
parse_rrq pkt =
    let (filename, rest) = cstring (drop 2 pkt) in
    let (mode, rest') = cstring rest in
    record { filename = filename; mode = mode; opts = parse_options (length rest') rest' [] }

unfoldable pub is_printable : ℕ → Bool
is_printable c = leb 0x20 c && ltb c 0x7f

-- the loop of `sanitizeTFTPName` from the last byte: here the name is reversed
unfoldable pub drop_junk : Text → Text
drop_junk [] = []
drop_junk (c ∷ cs) = if is_printable c then c ∷ cs else drop_junk cs

unfoldable pub sanitize_tftp_name : Text → Text
sanitize_tftp_name name = reverse (drop_junk (reverse name))

-- what the code asks of a map: `if _, ok := opts[key]; ok`
abbrev pub has_option : Text → Dict Text → Bool
has_option key opts = elim (lookup key opts) [ none ↦ false | some _ ↦ true ]

-- the `pairs` of `buildOACK`
unfoldable pub oack_pairs : Dict Text → ℕ → ℕ → List Text
oack_pairs opts block_size file_size =
    (if has_option (codes "blksize") opts then codes "blksize" ∷ print_nat block_size ∷ [] else [])
    ++ (if has_option (codes "tsize") opts then codes "tsize" ∷ print_nat file_size ∷ [] else [])

unfoldable pub zero_terminated : List Text → List ℕ
zero_terminated [] = []
zero_terminated (s ∷ ss) = s ++ (0 ∷ zero_terminated ss)

-- `buildOACK`; nil is the empty packet
unfoldable pub build_oack : Dict Text → ℕ → ℕ → List ℕ
build_oack opts block_size file_size =
    let pairs = oack_pairs opts block_size file_size in
    if is_empty opts then [] else if is_empty pairs then [] else 0 ∷ 6 ∷ zero_terminated pairs
