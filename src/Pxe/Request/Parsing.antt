-- ===== src/Pxe/Request/Parsing.antt =====
-- `parseRRQ` of pkg/pxe/pxe.go, against a writer of read requests.
use mathlib.Core.List.{append-nil, append_assoc}
use gokrazy_router.Prelude.{
  ℕ, zero, suc, ◌≤◌, ◌≡◌, refl, sym, ap, ◌∙◌, ◌≢◌, false, List, [], ◌∷◌, ◌++◌, arith, All, length,
  length-append, Text, is_empty, to_lower, Dict, insert,
}
use gokrazy_router.Pxe.Request.{cstring_onto, cstring, parse_options, parse_rrq}

-- a text without a NUL
abbrev pub NoNul : Text → Type 0
NoNul s = All (λ c. c ≢ 0) s

cstring_onto-append :
    (before s : Text) (rest : List ℕ)
    → NoNul s
    → cstring_onto before (s ++ (0 ∷ rest)) ≡ (before ++ s, rest)
unfolding cstring_onto
cstring_onto-append before [] rest h = ap (λ b. (b, rest)) (sym (append-nil before))
cstring_onto-append before (c ∷ s) rest h =
    ground
      (arith, cstring_onto-append (before ++ c ∷ []) s rest h.1, append_assoc before (c ∷ []) s)

cstring-append : (s : Text) (rest : List ℕ) → NoNul s → cstring (s ++ (0 ∷ rest)) ≡ (s, rest)
unfolding cstring
cstring-append s rest h = cstring_onto-append [] s rest h

-- the bytes of a list of options
unfoldable pub encode_options : List (Text × Text) → List ℕ
encode_options [] = []
encode_options ((k, v) ∷ os) = k ++ (0 ∷ (v ++ (0 ∷ encode_options os)))

-- the map of a list of options, the last of a key winning, on top of another map
unfoldable pub options_onto : Dict Text → List (Text × Text) → Dict Text
options_onto opts [] = opts
options_onto opts ((k, v) ∷ os) = options_onto (insert (to_lower k) v opts) os

-- the names are not empty, and no text has a NUL
abbrev pub IsWire : List (Text × Text) → Type 0
IsWire [] = Unit
IsWire ((k, v) ∷ os) = (is_empty k ≡ false) × NoNul k × NoNul v × IsWire os

parse_options-encode :
    (fuel : ℕ) (os : List (Text × Text)) (opts : Dict Text)
    → IsWire os
    → length (encode_options os) ≤ fuel
    → parse_options fuel (encode_options os) opts ≡ options_onto opts os
unfolding parse_options encode_options options_onto
parse_options-encode zero [] opts w h = refl
parse_options-encode (suc fuel) [] opts w h = refl
parse_options-encode fuel (([], v) ∷ os) opts w h = cc (w.0)
parse_options-encode zero ((c ∷ k, v) ∷ os) opts w h = absurd (omega arith)
parse_options-encode (suc fuel) ((c ∷ k, v) ∷ os) opts w h =
    let after = encode_options os in
    let long : length after ≤ fuel =
      omega (arith, length-append k (0 ∷ (v ++ (0 ∷ after))), length-append v (0 ∷ after)) in
    rw (cstring-append (c ∷ k) (v ++ (0 ∷ after)) w.1, cstring-append v after w.2)
      (parse_options-encode fuel os (insert (to_lower (c ∷ k)) v opts) w.3 long)

-- the bytes of a read request
unfoldable pub encode_rrq : Text → Text → List (Text × Text) → List ℕ
encode_rrq filename mode os = 0 ∷ 1 ∷ (filename ++ (0 ∷ (mode ++ (0 ∷ encode_options os))))

-- A well-formed read request reads back: its file name, its mode, and its options under lower-case
-- names, the last of a name winning.
pub parse_rrq-encode :
    (filename mode : Text) (os : List (Text × Text))
    → NoNul filename
    → NoNul mode
    → IsWire os
    → parse_rrq (encode_rrq filename mode os)
      ≡ record { filename = filename; mode = mode; opts = options_onto [] os }
unfolding parse_rrq encode_rrq
parse_rrq-encode filename mode os f m w = rw (
  cstring-append filename (mode ++ (0 ∷ encode_options os)) f,
  cstring-append mode (encode_options os) m,
  parse_options-encode (length (encode_options os)) os [] w (omega arith),
)

cstring_onto-shorter :
    (before : Text) (c : ℕ) (cs : List ℕ) → length (cstring_onto before (c ∷ cs)).1 ≤ length cs
unfolding cstring_onto
cstring_onto-shorter before c [] = ground arith
cstring_onto-shorter before c (d ∷ cs) =
    ground (arith, cstring_onto-shorter (before ++ c ∷ []) d cs)

cstring_onto-nil : (before : Text) → length (cstring_onto before []).1 ≤ 0
unfolding cstring_onto
cstring_onto-nil before = omega arith

cstring-shorter : (b : List ℕ) → length (cstring b).1 ≤ length b
unfolding cstring
cstring-shorter [] = omega (arith, cstring_onto-nil [])
cstring-shorter (c ∷ cs) = omega (arith, cstring_onto-shorter [] c cs)

cstring_cons-shorter : (c : ℕ) (cs : List ℕ) → length (cstring (c ∷ cs)).1 ≤ length cs
unfolding cstring
cstring_cons-shorter c cs = cstring_onto-shorter [] c cs

parse_options_nil : (fuel : ℕ) (opts : Dict Text) → parse_options fuel [] opts ≡ opts
unfolding parse_options
parse_options_nil zero opts = refl
parse_options_nil (suc fuel) opts = refl

-- Fuel for each byte is enough: more of it changes nothing, so the loop over the options ends by its
-- own tests on every packet.
pub parse_options_fuel :
    (fuel other : ℕ) (rest : List ℕ) (opts : Dict Text)
    → length rest ≤ fuel
    → length rest ≤ other
    → parse_options fuel rest opts ≡ parse_options other rest opts
unfolding parse_options
parse_options_fuel fuel other [] opts h k =
    parse_options_nil fuel opts ∙ sym (parse_options_nil other opts)
parse_options_fuel zero other (c ∷ cs) opts h k = absurd (omega arith)
parse_options_fuel (suc fuel) zero (c ∷ cs) opts h k = absurd (omega arith)
parse_options_fuel (suc fuel) (suc other) (c ∷ cs) opts h k =
    let (key, r) = cstring (c ∷ cs) in
    let (val, r2) = cstring r in
    let shorter : length r2 ≤ length cs =
      omega (arith, cstring-shorter r, cstring_cons-shorter c cs) in
    rw (
      parse_options_fuel fuel other r2 (insert (to_lower key) val opts) (omega arith) (omega arith))
