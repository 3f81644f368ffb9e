-- ===== src/Pxe/Files/Jail.antt =====
-- Which files `resolvePath` of pkg/pxe/pxe.go lets through.
use gokrazy_router.Prelude.{
  ◌≡◌, refl, sym, ap, ◌∙◌, Bool, true, false, not, ◌&&◌, ◌++◌, arith, Text, codes, text_eq,
  has_prefix,
}
use gokrazy_router.Prelude.Action.{Outcome, done, wrap, and_then-eq-done, wrap-eq-done, done_inj}
use gokrazy_router.Pxe.Image.{ImageServer, resolve_image}
use gokrazy_router.Pxe.Files.{Paths, path_within_root, require, resolve_path}

not-eq-true : (b : Bool) → not b ≡ true → b ≡ false
not-eq-true true h = cc
not-eq-true false h = refl

module _ {World : Type 0} (fs : Paths World) where
  require-eq-done :
      (b : Bool) (e : Text) (w w2 : World) (u : Unit {0})
      → Path (Outcome (Unit {0}) × World) (require fs b e w) (done u, w2)
      → (b ≡ true) × (w ≡ w2)
  require-eq-done true e w w2 u h = (refl, (done_inj h).1)
  require-eq-done false e w w2 u h = absurd cc

  -- the path does not lead up
  path_within_root-eq-true :
      (root full rel : Text)
      → fs.rel root full ≡ done rel
      → path_within_root fs root full ≡ true
      → (text_eq rel (codes "..") ≡ false) × (has_prefix (codes "../") rel ≡ false)
  unfolding path_within_root
  path_within_root-eq-true root full rel e h =
      let k : (not (text_eq rel (codes "..")) && not (has_prefix (codes "../") rel)) ≡ true =
        rw (e, path_within_root) at h in
      (ground (arith, k), ground (arith, k))

  -- with all links followed, first those of the root and then those of the file, the file is below the root, and
  -- this is how it is reached from there
  abbrev pub IsJailed : Text → Text → Text → Text → World → Type 0
  IsJailed root img real_root rel w =
      (full : Text) × (w1 : World) × (fs.is_abs img ≡ false)
      × ((w0 : World) × (fs.eval_symlinks root w0 ≡ (done real_root, w1)))
      × (fs.eval_symlinks (fs.join root img) w1 ≡ (done full, w))
      × (fs.rel real_root full ≡ done rel)
      × (text_eq rel (codes "..") ≡ false)
      × (has_prefix (codes "../") rel ≡ false)

  -- A path that `resolvePath` returns is that of the image for the name, which is not absolute. The
  -- root that it returns is the configured one with all links followed; from there the path leads to the file with
  -- all links followed, and not up.
  pub resolve_path-IsJailed :
      (s : ImageServer) (root filename real_root rel : Text) (w w2 : World)
      → resolve_path fs s root filename w ≡ (done (real_root, rel), w2)
      → IsJailed root (resolve_image s filename) real_root rel w2
  unfolding resolve_path
  resolve_path-IsJailed s root filename real_root rel w w2 h =
      let img = resolve_image s filename in
      let full = fs.join root img in
      let (u1, w3, e1, h1) =
        and_then-eq-done
          (require fs (not (fs.is_abs img)) (codes "absolute path rejected: " ++ img) w) _ h in
      let (u2, w4, e2, h2) =
        and_then-eq-done
          (require fs (path_within_root fs root full) (codes "path escapes TFTP root: " ++ img) w3)
          _ h1 in
      let (top, w5, e3, h3) =
        and_then-eq-done (wrap (codes "resolve root " ++ root) (fs.eval_symlinks root w4)) _ h2 in
      let (real_full, w6, e4, h4) =
        and_then-eq-done (wrap (codes "open " ++ img) (fs.eval_symlinks full w5)) _ h3 in
      let (u5, w7, e5, h5) =
        and_then-eq-done
          (require fs (path_within_root fs top real_full)
            (codes "symlink escapes TFTP root: " ++ img) w6)
          _ h4 in
      let (found, w8, e6, h6) =
        and_then-eq-done (wrap (codes "rel " ++ img) (fs.rel top real_full, w7)) _ h5 in
      let (within, k5) =
        require-eq-done (path_within_root fs top real_full)
          (codes "symlink escapes TFTP root: " ++ img) w6 w7 u5 e5 in
      let relative = wrap-eq-done (codes "rel " ++ img) (fs.rel top real_full, w7) e6 in
      let located = done_inj h6 in
      let same_root : top ≡ real_root = ap (λ x. x.0) located.0 in
      let same_rel : found ≡ rel = ap (λ x. x.1) located.0 in
      let found_rel : fs.rel top real_full ≡ done found = ap (λ x. x.0) relative in
      let real_rel : fs.rel real_root real_full ≡ done rel =
        ap (λ x. fs.rel x real_full) (sym same_root) ∙ found_rel ∙ ap done same_rel in
      let (no_up, no_prefix) =
        path_within_root-eq-true real_root real_full rel real_rel
          (ap (λ x. path_within_root fs x real_full) (sym same_root) ∙ within) in
      (
        real_full,
        w5,
        not-eq-true (fs.is_abs img)
            (require-eq-done (not (fs.is_abs img)) (codes "absolute path rejected: " ++ img) w w3 u1
              e1).0,
        (
          w4,
          wrap-eq-done (codes "resolve root " ++ root) (fs.eval_symlinks root w4) e3
              ∙ ap (λ x. (done x, w5)) same_root,
        ),
        wrap-eq-done (codes "open " ++ img) (fs.eval_symlinks full w5) e4
            ∙ ap (λ x. (done real_full, x)) (k5 ∙ ap (λ x. x.1) relative ∙ located.1),
        real_rel,
        no_up,
        no_prefix,
      )
