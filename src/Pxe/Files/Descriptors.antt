-- ===== src/Pxe/Files/Descriptors.antt =====
-- What opening a file below the TFTP root leaves open, and which paths it accepts.
use gokrazy_router.Prelude.{
  ℕ, ◌+◌, ◌-◌, ◌≤◌, ◌≡◌, refl, sym, ap, ◌∙◌, inl, inr, Bool, true, false, not, ◌&&◌, List, [], ◌∷◌,
  arith, if◌then◌else◌, Bool-cases, Text, codes, is_empty,
}
use gokrazy_router.Prelude.Action.{Action, Outcome, failed, done, and_then}
use gokrazy_router.Pxe.Files.{
  split_path, is_special, Files, after_openat, open_parts, open_tftp_file,
}

-- one descriptor more where there is a result, else none more
abbrev pub opened_by : Outcome ℕ → ℕ
opened_by (failed e) = 0
opened_by (done fd) = 1

-- no component is empty, `.` or `..`
unfoldable pub all_ordinary : List Text → Bool
all_ordinary [] = true
all_ordinary (part ∷ parts) = not (is_special part) && all_ordinary parts

-- the most descriptors that a path can be worth
abbrev pub allowed : List Text → ℕ
allowed parts = if all_ordinary parts then 1 else 0

opened_by-le :
    (o : Outcome ℕ) (parts : List Text)
    → ((fd : ℕ) → o ≡ done fd → all_ordinary parts ≡ true)
    → opened_by o ≤ allowed parts
opened_by-le (failed e) parts h = omega arith
opened_by-le (done fd) parts h = rw (h fd refl) omega arith

module _ {World : Type 0} (os : Files World) (descriptors : World → ℕ)
    -- a call that opens leaves one descriptor more, and a call that fails none; a call of `close` one less
    (open_counts : (dir : Text) (w : World)
      → descriptors (os.open_directory dir w).1
        ≡ opened_by (os.open_directory dir w).0 + descriptors w)
    (openat_counts : (fd : ℕ) (part : Text) (directory : Bool) (w : World)
      → descriptors (os.openat_no_follow fd part directory w).1
        ≡ opened_by (os.openat_no_follow fd part directory w).0 + descriptors w)
    (close_counts : (fd : ℕ) (w : World) → descriptors (os.close fd w) ≡ descriptors w - 1) where
  after_openat-descriptors :
      (dirfd : ℕ) (last : Bool) (r : Outcome ℕ × World) (next : ℕ → Action World ℕ) (n : ℕ)
      → descriptors r.1 ≡ opened_by r.0 + (1 + n)
      → ((fd : ℕ) (w : World)
          → descriptors w ≡ 1 + n
          → descriptors (next fd w).1 ≡ opened_by (next fd w).0 + n)
      → descriptors (after_openat os dirfd last r next).1
        ≡ opened_by (after_openat os dirfd last r next).0 + n
  unfolding after_openat
  after_openat-descriptors dirfd last (failed e, w) next n h rest =
      omega (arith, close_counts dirfd w, h)
  after_openat-descriptors dirfd true (done fd, w) next n h rest =
      omega (arith, close_counts dirfd w, h)
  after_openat-descriptors dirfd false (done fd, w) next n h rest =
      rest fd (os.close dirfd w) (omega (arith, close_counts dirfd w, h))

  open_parts-descriptors :
      (dirfd : ℕ) (parts : List Text) (w : World) (n : ℕ)
      → descriptors w ≡ 1 + n
      → descriptors (open_parts os dirfd parts w).1 ≡ opened_by (open_parts os dirfd parts w).0 + n
  unfolding open_parts
  open_parts-descriptors dirfd [] w n h = omega (arith, close_counts dirfd w, h)
  open_parts-descriptors dirfd (part ∷ rest) w n h =
      let call = os.openat_no_follow dirfd part (not (is_empty rest)) w in
      elim (Bool-cases (is_special part)) [
        | inl bad ↦ rw (bad) omega (arith, close_counts dirfd w, h)
        | inr good ↦ rw (good) (
            after_openat-descriptors dirfd (is_empty rest) call (λ fd. open_parts os fd rest) n
              (openat_counts dirfd part (not (is_empty rest)) w ∙ ap (λ k. opened_by call.0 + k) h)
              (λ fd w1 h1. open_parts-descriptors fd rest w1 n h1))
      ]

  -- the components after one that was opened
  after_openat-rest :
      (dirfd : ℕ) (rest : List Text) (r : Outcome ℕ × World) (w2 : World) (fd : ℕ)
      → after_openat os dirfd (is_empty rest) r (λ d. open_parts os d rest) ≡ (done fd, w2)
      → ((d : ℕ) (w1 : World) → open_parts os d rest w1 ≡ (done fd, w2) → all_ordinary rest ≡ true)
      → all_ordinary rest ≡ true
  unfolding after_openat all_ordinary
  after_openat-rest dirfd rest (failed e, w) w2 fd h next = absurd cc
  after_openat-rest dirfd [] (done d, w) w2 fd h next = refl
  after_openat-rest dirfd (part ∷ rest) (done d, w) w2 fd h next = next d (os.close dirfd w) h

  open_parts-all_ordinary :
      (dirfd : ℕ) (parts : List Text) (w w2 : World) (fd : ℕ)
      → open_parts os dirfd parts w ≡ (done fd, w2)
      → all_ordinary parts ≡ true
  unfolding open_parts all_ordinary
  open_parts-all_ordinary dirfd [] w w2 fd e = refl
  open_parts-all_ordinary dirfd (part ∷ rest) w w2 fd e =
      let run = open_parts os dirfd (part ∷ rest) w in
      let call = os.openat_no_follow dirfd part (not (is_empty rest)) w in
      elim (Bool-cases (is_special part)) [
        | inl bad ↦
            let fails : run ≡ (failed (codes "invalid path component"), os.close dirfd w) =
              rw (bad) refl in
            absurd cc
        | inr good ↦
            let goes : run
                ≡ after_openat os dirfd (is_empty rest) call (λ d. open_parts os d rest) =
              rw (good) refl in
            ground (
              arith,
              good,
              after_openat-rest dirfd rest call w2 fd (sym goes ∙ e)
                  (λ d w1. open_parts-all_ordinary d rest w1 w2 fd),
            )
      ]

  opened-descriptors :
      (r : Outcome ℕ × World) (parts : List Text) (n : ℕ)
      → descriptors r.1 ≡ opened_by r.0 + n
      → let result = and_then r (λ dirfd. open_parts os dirfd parts) in
        (descriptors result.1 ≡ opened_by result.0 + n) × (opened_by result.0 ≤ allowed parts)
  opened-descriptors (failed e, w) parts n h = (h, omega arith)
  opened-descriptors (done dirfd, w) parts n h =
      let result = open_parts os dirfd parts w in
      (
        open_parts-descriptors dirfd parts w n h,
        opened_by-le result.0 parts
            (λ fd k. open_parts-all_ordinary dirfd parts w result.1 fd (ap (λ o. (o, result.1)) k)),
      )

  -- Where the calls of the operating system open and close one descriptor each, and none where they fail:
  -- opening a file leaves exactly one descriptor open where it succeeds, and none where it fails, on
  -- every path through the loop. It succeeds only where no component of the path is empty, `.` or `..`.
  pub open_tftp_file-descriptors :
      (root_dir rel : Text) (w : World)
      → let result = open_tftp_file os root_dir rel w in
        (descriptors result.1 ≡ opened_by result.0 + descriptors w)
        × (opened_by result.0 ≤ allowed (split_path rel))
  unfolding open_tftp_file
  open_tftp_file-descriptors root_dir rel w =
      opened-descriptors (os.open_directory root_dir w) (split_path rel) (descriptors w)
        (open_counts root_dir w)
