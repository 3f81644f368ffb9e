-- ===== src/Prelude/Template.antt =====
-- Files made from a template of lines: a value stays in the line of its entry.
use Prim.Native.String.{String}
use Prim.Native.Nat.{ℕ}
use mathlib.Core.Path.{◌≡◌, refl, sym, ap, ◌∙◌}
use mathlib.Core.Logic.{inl, inr}
use mathlib.Core.Bool.{Bool, true, false, not, ◌&&◌}
use mathlib.Core.List.{List, [], ◌∷◌, ◌++◌, map, append_assoc}
use native.Mathlib.Omega.{arith}
use gokrazy_router.Prelude.Tests.{◌==◌, if◌then◌else◌, Bool-cases}
use gokrazy_router.Prelude.Lists.{All}
use gokrazy_router.Prelude.Strings.{Text, codes}

-- a line of the template: what is fixed, and a value
abbrev pub Line : Type 0
Line = Text × Text

abbrev pub fixed : String → Line
fixed key = (codes key, [])

-- the template, executed
unfoldable pub render_lines : List Line → Text
render_lines [] = []
render_lines ((key, value) ∷ lines) = key ++ (value ++ 10 ∷ render_lines lines)

abbrev onto_first : ℕ → List Text → List Text
onto_first c [] = []
onto_first c (l ∷ ls) = (c ∷ l) ∷ ls

-- a reader that splits a text at each newline; what follows the last one is a line too
unfoldable pub split_lines : Text → List Text
split_lines [] = [] ∷ []
split_lines (c ∷ cs) = if c == 10 then [] ∷ split_lines cs else onto_first c (split_lines cs)

split_lines-ne-nil :
    (t : Text) → (line : Text) × (lines : List Text) × (split_lines t ≡ line ∷ lines)
unfolding split_lines
split_lines-ne-nil [] = ([], [], refl)
split_lines-ne-nil (c ∷ cs) =
    let (line, lines, e) = split_lines-ne-nil cs in
    elim (Bool-cases (c == 10)) [
      | inl h ↦ ([], split_lines cs, rw h refl)
      | inr h ↦ (c ∷ line, lines, rw (h, e) refl)
    ]

-- the first line of a text that begins with no newline
pub split_lines-cons :
    (c : ℕ) (cs : Text)
    → (c == 10) ≡ false
    → (line : Text) × (lines : List Text) × (split_lines (c ∷ cs) ≡ (c ∷ line) ∷ lines)
unfolding split_lines
split_lines-cons c cs h =
    let (line, lines, e) = split_lines-ne-nil cs in (line, lines, rw (h, e) refl)

unfoldable pub no_newline : Text → Bool
no_newline [] = true
no_newline (c ∷ cs) = not (c == 10) && no_newline cs

split_lines-line :
    (value rest : Text)
    → no_newline value ≡ true
    → split_lines (value ++ 10 ∷ rest) ≡ value ∷ split_lines rest
unfolding split_lines no_newline
split_lines-line [] rest h = refl
split_lines-line (c ∷ cs) rest h = ground (arith, split_lines-line cs rest, h)

-- neither part of the line has a newline
abbrev pub IsLine : Line → Type 0
IsLine (key, value) = (no_newline key ≡ true) × (no_newline value ≡ true)

pub no_newline-append :
    (a b : Text) → no_newline a ≡ true → no_newline b ≡ true → no_newline (a ++ b) ≡ true
unfolding no_newline
no_newline-append [] b ha hb = hb
no_newline-append (c ∷ cs) b ha hb = ground (arith, no_newline-append cs b)

abbrev pub whole : Line → Text
whole (key, value) = key ++ value

pub split_lines-render_lines :
    (lines : List Line)
    → All IsLine lines
    → split_lines (render_lines lines) ≡ map whole lines ++ [] ∷ []
unfolding render_lines split_lines
split_lines-render_lines [] h = refl
split_lines-render_lines ((key, value) ∷ lines) h =
    ap split_lines (sym (append_assoc key value (10 ∷ render_lines lines)))
    ∙ split_lines-line (key ++ value) (render_lines lines) (no_newline-append key value h.0.0 h.0.1)
    ∙ ap (λ ls. (key ++ value) ∷ ls) (split_lines-render_lines lines h.1)
