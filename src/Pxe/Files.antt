-- ===== src/Pxe/Files.antt =====
-- How pkg/pxe/pxe.go opens a file below the TFTP root, and its error packets. The calls of the operating
-- system and of `path/filepath` are parameters.
pub mod Descriptors
pub mod Jail
use gokrazy_router.Prelude.{
  ℕ, ◌+◌, ◌/◌, ◌%◌, Bool, true, false, not, ◌&&◌, ◌||◌, List, [], ◌∷◌, ◌++◌, ◌==◌, if◌then◌else◌,
  Text, codes, text_eq, is_empty, has_prefix,
}
use gokrazy_router.Prelude.Action.{Action, Outcome, failed, done, wrap, and_then, ◌>>=◌, return}
use gokrazy_router.Pxe.Image.{ImageServer, resolve_image}

-- `sendERR`
unfoldable pub err_packet : ℕ → Text → List ℕ
err_packet code msg = 0 ∷ 5 ∷ code / 256 ∷ code % 256 ∷ msg ++ 0 ∷ []

-- `filepath.Join`, `IsAbs`, `Rel` and `EvalSymlinks`
pub record Paths (World : Type 0) : Type 0 where
  pub join : Text → Text → Text
  pub is_abs : Text → Bool
  pub rel : Text → Text → Outcome Text
  pub eval_symlinks : Text → Action World Text

module _ {World : Type 0} (fs : Paths World) where
  unfoldable pub path_within_root : Text → Text → Bool
  path_within_root root full = elim (fs.rel root full) [
    | failed e ↦ false
    | done rel ↦ not (text_eq rel (codes "..")) && not (has_prefix (codes "../") rel)
  ]

  abbrev pub require : Bool → Text → Action World (Unit {0})
  require true e w = (done tt, w)
  require false e w = (failed e, w)

  -- `resolvePath`: the root and the path below it, without symbolic links
  unfoldable pub resolve_path : ImageServer → Text → Text → Action World (Text × Text)
  unfolding path_within_root resolve_image
  resolve_path s root filename = do
    let img = resolve_image s filename
    let full = fs.join root img
    _ ← require (not (fs.is_abs img)) (codes "absolute path rejected: " ++ img)
    _ ← require (path_within_root root full) (codes "path escapes TFTP root: " ++ img)
    real_root ← (λ w. wrap (codes "resolve root " ++ root) (fs.eval_symlinks root w))
    real_full ← (λ w. wrap (codes "open " ++ img) (fs.eval_symlinks full w))
    _ ← require (path_within_root real_root real_full) (codes "symlink escapes TFTP root: " ++ img)
    rel ← (λ w. wrap (codes "rel " ++ img) (fs.rel real_root real_full, w))
    return (real_root, rel)

abbrev onto_first : ℕ → List Text → List Text
onto_first c [] = []
onto_first c (l ∷ ls) = (c ∷ l) ∷ ls

-- `strings.Split(rel, "/")`
unfoldable pub split_path : Text → List Text
split_path [] = [] ∷ []
split_path (c ∷ cs) = if c == b'/' then [] ∷ split_path cs else onto_first c (split_path cs)

abbrev pub is_special : Text → Bool
is_special part = is_empty part || text_eq part (codes ".") || text_eq part (codes "..")

-- `open` of a directory, `openat` with `O_NOFOLLOW`, with `O_DIRECTORY` where the flag is set, and `close`
pub record Files (World : Type 0) : Type 0 where
  pub open_directory : Text → Action World ℕ
  pub openat_no_follow : ℕ → Text → Bool → Action World ℕ
  pub close : ℕ → World → World

module _ {World : Type 0} (os : Files World) where
  -- what follows a call of `openat`: the directory is closed, and the last descriptor is the result
  unfoldable pub after_openat :
      ℕ → Bool → Outcome ℕ × World → (ℕ → Action World ℕ) → Outcome ℕ × World
  after_openat dirfd last (failed e, w) next = (failed e, os.close dirfd w)
  after_openat dirfd last (done fd, w) next =
      if last then (done fd, os.close dirfd w) else next fd (os.close dirfd w)

  -- the loop of `openTFTPFile`
  unfoldable pub open_parts : ℕ → List Text → Action World ℕ
  unfolding after_openat
  open_parts dirfd [] w = (failed (codes "empty path"), os.close dirfd w)
  open_parts dirfd (part ∷ rest) w =
      if is_special part
      then (failed (codes "invalid path component"), os.close dirfd w)
      else after_openat dirfd (is_empty rest)
          (os.openat_no_follow dirfd part (not (is_empty rest)) w) (λ fd. open_parts fd rest)

  -- `openTFTPFile`
  unfoldable pub open_tftp_file : Text → Text → Action World ℕ
  unfolding open_parts split_path
  open_tftp_file root_dir rel = do
    dirfd ← os.open_directory root_dir
    open_parts dirfd (split_path rel)
