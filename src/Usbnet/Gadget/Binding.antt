-- ===== src/Usbnet/Gadget/Binding.antt =====
-- When `setupUSBGadget` of cmd/milkv-usbnet/main.go binds the gadget.
use gokrazy_router.Prelude.{
  ◌≡◌, refl, sym, ap, ◌∙◌, ◌↔◌, ◌⊎◌, inl, inr, false, List, [], ◌∷◌, ◌++◌, Bool-cases, All, Text,
  codes, text_eq, is_empty, trim_space,
}
use gokrazy_router.Prelude.Action.{
  Action, Outcome, failed, done, and_then, wrap, and_then-eq-done, wrap-eq-done, done_inj,
}
use gokrazy_router.Usbnet.Gadget.{
  Host, Step, make_dir, try_dir, write_in, in_gadget, gadget_path, udc_path, gadget_steps,
  write_file, run_step, run_steps, after_lstat, symlink, first_udc, find_udc, prepare_gadget,
  bind_gadget, make_gadget, after_udc, after_stat, setup_usb_gadget,
}

-- which controller the gadget is bound to, and the calls that leave it so: all but a write of `UDC`
pub record Quiet (World : Type 0) (host : Host World) : Type 0 where
  pub bound : World → Text
  pub stat_quiet : (path : Text) (w : World) → bound (host.stat path w).1 ≡ bound w
  pub read_quiet : (path : Text) (w : World) → bound (host.read_file path w).1 ≡ bound w
  pub mkdir_quiet : (path : Text) (w : World) → bound (host.mkdir_all path w).1 ≡ bound w
  pub write_quiet :
      (path value : Text) (w : World)
      → text_eq path udc_path ≡ false
      → bound (host.write path value w).1 ≡ bound w
  pub lstat_quiet : (path : Text) (w : World) → bound (host.lstat path w).1 ≡ bound w
  pub remove_quiet : (path : Text) (w : World) → bound (host.remove path w).1 ≡ bound w
  pub link_quiet : (old new : Text) (w : World) → bound (host.link old new w).1 ≡ bound w
  pub dir_quiet : (path : Text) (w : World) → bound (host.read_dir path w).1 ≡ bound w

-- the step writes another file than `UDC`
abbrev Spares : Step → Type 0
Spares (write_in context dir path value) = text_eq path udc_path ≡ false
Spares (make_dir context dir) = Unit {0}
Spares (try_dir dir) = Unit {0}

gadget_steps-Spares : All Spares gadget_steps
unfolding text_eq
gadget_steps-Spares =
    (tt, (refl, (refl, (tt, (refl, (refl, (refl, (tt, (tt, (tt, (refl, (refl, tt))))))))))))

module _ {World : Type 0} (host : Host World) (quiet : Quiet World host) where
  and_then-quiet :
      {A B : Type 0}
      → (r : Outcome A × World) (next : A → Action World B) (b : Text) → quiet.bound r.1 ≡ b
      → ((v : A) (w : World) → quiet.bound w ≡ b → quiet.bound (next v w).1 ≡ b)
      → quiet.bound (and_then r next).1 ≡ b
  and_then-quiet (failed e, w) next b h k = h
  and_then-quiet (done v, w) next b h k = k v w h

  wrap-quiet :
      {A : Type 0}
      → (context : Text) (r : Outcome A × World) (b : Text) → quiet.bound r.1 ≡ b
      → quiet.bound (wrap context r).1 ≡ b
  wrap-quiet context (failed e, w) b h = h
  wrap-quiet context (done v, w) b h = h

  run_step-quiet :
      (step : Step) (w : World) (b : Text)
      → Spares step
      → quiet.bound w ≡ b
      → quiet.bound (run_step host step w).1 ≡ b
  unfolding write_file
  run_step-quiet (make_dir context dir) w b s h =
      wrap-quiet context (host.mkdir_all dir w) b (quiet.mkdir_quiet dir w ∙ h)
  run_step-quiet (try_dir dir) w b s h = quiet.mkdir_quiet dir w ∙ h
  run_step-quiet (write_in context dir path value) w b s h =
      wrap-quiet context (write_file host dir path value w) b (
        and_then-quiet (host.mkdir_all dir w) (λ u. host.write path value) b
          (quiet.mkdir_quiet dir w ∙ h) (λ u w1 k. quiet.write_quiet path value w1 s ∙ k))

  run_steps-quiet :
      (steps : List Step) (w : World) (b : Text)
      → All Spares steps
      → quiet.bound w ≡ b
      → quiet.bound (run_steps host steps w).1 ≡ b
  unfolding run_steps
  run_steps-quiet [] w b s h = h
  run_steps-quiet (step ∷ steps) w b (s, ss) h =
      and_then-quiet (run_step host step w) (λ u. run_steps host steps) b
        (run_step-quiet step w b s h) (λ u w1 k. run_steps-quiet steps w1 b ss k)

  after_lstat-quiet :
      (path : Text) (r : Outcome (Unit {0}) × World) (b : Text)
      → quiet.bound r.1 ≡ b
      → quiet.bound (after_lstat host path r) ≡ b
  after_lstat-quiet path (done u, w) b h = quiet.remove_quiet path w ∙ h
  after_lstat-quiet path (failed e, w) b h = h

  first_udc-quiet :
      (names : List Text) (w : World) (b : Text)
      → quiet.bound w ≡ b
      → quiet.bound (first_udc host names w).1 ≡ b
  first_udc-quiet [] w b h = h
  first_udc-quiet (n ∷ ns) w b h = h

  prepare_gadget-quiet :
      (w : World) (b : Text) → quiet.bound w ≡ b → quiet.bound (prepare_gadget host w).1 ≡ b
  unfolding prepare_gadget symlink find_udc
  prepare_gadget-quiet w b h =
      let linked =
        symlink host (in_gadget (codes "functions/ecm.usb0"))
          (in_gadget (codes "configs/c.1/ecm.usb0")) in
      and_then-quiet (run_steps host gadget_steps w) _ b
        (run_steps-quiet gadget_steps w b gadget_steps-Spares h)
        (λ u w1 k1.
          and_then-quiet (wrap (codes "symlink ecm") (linked w1)) _ b
            (wrap-quiet (codes "symlink ecm") (linked w1) b (
              quiet.link_quiet _ _ (after_lstat host _ (host.lstat _ w1))
              ∙ after_lstat-quiet _ (host.lstat _ w1) b (quiet.lstat_quiet _ w1 ∙ k1)))
            (λ u2 w2 k2. wrap-quiet (codes "find UDC") (find_udc host w2) b (
              and_then-quiet
                (wrap (codes "read /sys/class/udc") (host.read_dir (codes "/sys/class/udc") w2))
                (first_udc host) b
                (wrap-quiet (codes "read /sys/class/udc")
                  (host.read_dir (codes "/sys/class/udc") w2) b
                  (quiet.dir_quiet (codes "/sys/class/udc") w2 ∙ k2))
                (λ names w3 k3. first_udc-quiet names w3 b k3))))

  -- the file `UDC` named a controller when it was read
  abbrev pub WasActive : World → Type 0
  WasActive w =
      (w1 : World) × (text : Text) × (host.read_file udc_path w1 ≡ (done text, w))
      × (is_empty (trim_space text) ≡ false)

  -- the directory is made and the value written
  abbrev pub Written : Text → Text → Text → World → World → Type 0
  Written dir path value w w2 =
      (w1 : World) × (host.mkdir_all dir w ≡ (done tt, w1))
      × (host.write path value w1 ≡ (done tt, w2))

  -- the call of the step has succeeded, or its error is not looked at
  abbrev pub Done : Step → World → World → Type 0
  Done (make_dir context dir) w w2 = host.mkdir_all dir w ≡ (done tt, w2)
  Done (try_dir dir) w w2 = (host.mkdir_all dir w).1 ≡ w2
  Done (write_in context dir path value) w w2 = Written dir path value w w2

  -- the calls of the steps have succeeded, one after the other
  abbrev pub AllDone : List Step → World → World → Type 0
  AllDone [] w w2 = w ≡ w2
  AllDone (step ∷ steps) w w2 = (w1 : World) × Done step w w1 × AllDone steps w1 w2

  -- all files are written, the configuration has the function as a link, and the controller is the first there is
  abbrev pub Prepared : Text → World → World → Type 0
  Prepared udc w w2 =
      (w1 : World) × AllDone gadget_steps w w1
      × (w3 : World) × (w4 : World) × (host.link (in_gadget (codes "functions/ecm.usb0"))
            (in_gadget (codes "configs/c.1/ecm.usb0")) w3
          ≡ (done tt, w4))
      × (others : List Text) × (host.read_dir (codes "/sys/class/udc") w4
          ≡ (done (udc ∷ others), w2))

  -- the set-up leaves the gadget bound as it was, or all before the binding has succeeded; then it succeeds exactly
  -- where the name of the controller, with a newline, is written to `UDC`
  abbrev pub Bound : World → Outcome (Unit {0}) × World → Type 0
  Bound w r =
      ((quiet.bound r.1 ≡ quiet.bound w) × ((r.0 ≡ done tt) → WasActive r.1))
      ⊎ ((w1 : World) × (w2 : World) × (udc : Text) × Prepared udc w1 w2
          × ((r.0 ≡ done tt) ↔ Written gadget_path udc_path (udc ++ 10 ∷ []) w2 r.1))

  write_file-Written :
      (dir path value : Text) (w w2 : World) (u : Unit {0})
      → write_file host dir path value w ≡ (done u, w2)
      → Written dir path value w w2
  unfolding write_file
  write_file-Written dir path value w w2 u h =
      let (v, w1, e, k) = and_then-eq-done (host.mkdir_all dir w) _ h in (w1, e, k)

  run_step-Done :
      (step : Step) (w w2 : World) (u : Unit {0})
      → run_step host step w ≡ (done u, w2)
      → Done step w w2
  run_step-Done (make_dir context dir) w w2 u h = wrap-eq-done context (host.mkdir_all dir w) h
  run_step-Done (try_dir dir) w w2 u h = (done_inj h).1
  run_step-Done (write_in context dir path value) w w2 u h =
      write_file-Written dir path value w w2 u
        (wrap-eq-done context (write_file host dir path value w) h)

  run_steps-AllDone :
      (steps : List Step) (w w2 : World) (u : Unit {0})
      → run_steps host steps w ≡ (done u, w2)
      → AllDone steps w w2
  unfolding run_steps
  run_steps-AllDone [] w w2 u h = (done_inj h).1
  run_steps-AllDone (step ∷ steps) w w2 u h =
      let (v, w1, e, k) = and_then-eq-done (run_step host step w) _ h in
      (w1, run_step-Done step w w1 v e, run_steps-AllDone steps w1 w2 u k)

  first_udc-eq-done :
      (names : List Text) (w w2 : World) (udc : Text)
      → first_udc host names w ≡ (done udc, w2)
      → (others : List Text) × (names ≡ udc ∷ others) × (w ≡ w2)
  first_udc-eq-done [] w w2 udc h = absurd cc
  first_udc-eq-done (n ∷ ns) w w2 udc h = (ns, ap (λ x. x ∷ ns) (done_inj h).0, (done_inj h).1)

  prepare_gadget-Prepared :
      (w w2 : World) (udc : Text) → prepare_gadget host w ≡ (done udc, w2) → Prepared udc w w2
  unfolding prepare_gadget symlink find_udc
  prepare_gadget-Prepared w w2 udc h =
      let (u, w1, e, k) = and_then-eq-done (run_steps host gadget_steps w) _ h in
      let old = in_gadget (codes "functions/ecm.usb0") in
      let new = in_gadget (codes "configs/c.1/ecm.usb0") in
      let (v, w4, e2, k2) =
        and_then-eq-done (wrap (codes "symlink ecm") (symlink host old new w1)) _ k in
      let (names, w5, e3, k3) =
        and_then-eq-done
          (wrap (codes "read /sys/class/udc") (host.read_dir (codes "/sys/class/udc") w4)) _
          (wrap-eq-done (codes "find UDC") (find_udc host w4) k2) in
      let (others, first, stay) = first_udc-eq-done names w5 w2 udc k3 in
      (
        w1,
        run_steps-AllDone gadget_steps w w1 u e,
        after_lstat host new (host.lstat new w1),
        w4,
        wrap-eq-done (codes "symlink ecm") (symlink host old new w1) e2,
        others,
        wrap-eq-done (codes "read /sys/class/udc") (host.read_dir (codes "/sys/class/udc") w4) e3
            ∙ cc (first, stay),
      )

  bind_gadget_iff :
      (udc : Text) (w : World)
      → ((bind_gadget host udc w).0 ≡ done tt)
        ↔ Written gadget_path udc_path (udc ++ 10 ∷ []) w (bind_gadget host udc w).1
  unfolding bind_gadget write_file
  bind_gadget_iff udc w = of_mkdir (host.mkdir_all gadget_path w) refl
    where
      Result : Outcome (Unit {0}) × World → Outcome (Unit {0}) × World
      Result m = wrap (codes "write UDC") (and_then m (λ u. host.write udc_path (udc ++ 10 ∷ [])))

      of_write :
          (w1 : World) (r : Outcome (Unit {0}) × World)
          → host.mkdir_all gadget_path w ≡ (done tt, w1)
          → host.write udc_path (udc ++ 10 ∷ []) w1 ≡ r
          → ((wrap (codes "write UDC") r).0 ≡ done tt)
            ↔ Written gadget_path udc_path (udc ++ 10 ∷ []) w (wrap (codes "write UDC") r).1
      of_write w1 (done u, w2) e k = (λ h. (w1, e, k), λ h. refl)
      of_write w1 (failed x, w2) e k = (
        λ h. absurd cc,
        λ (w3, f, g). absurd (let same : w1 ≡ w3 = (done_inj (sym e ∙ f)).1 in cc (k, g, same)),
      )

      of_mkdir :
          (m : Outcome (Unit {0}) × World)
          → host.mkdir_all gadget_path w ≡ m
          → ((Result m).0 ≡ done tt) ↔ Written gadget_path udc_path (udc ++ 10 ∷ []) w (Result m).1
      of_mkdir (done u, w1) e = of_write w1 (host.write udc_path (udc ++ 10 ∷ []) w1) e refl
      of_mkdir (failed x, w1) e = (λ h. absurd cc, λ (w3, f, g). absurd (cc (e, f)))

  make_gadget-Bound :
      (w w0 : World) → quiet.bound w ≡ quiet.bound w0 → Bound w0 (make_gadget host w)
  unfolding make_gadget
  make_gadget-Bound w w0 h = made (prepare_gadget host w) refl
    where
      made :
          (r : Outcome Text × World)
          → prepare_gadget host w ≡ r
          → Bound w0 (and_then r (bind_gadget host))
      made (failed e, w1) q = inl (
        sym (ap (λ r. quiet.bound r.1) q) ∙ prepare_gadget-quiet w (quiet.bound w0) h,
        (λ x. absurd cc),
      )
      made (done udc, w1) q =
          inr (w, w1, udc, prepare_gadget-Prepared w w1 udc q, bind_gadget_iff udc w1)

  after_udc-Bound :
      (w w0 : World) (r : Outcome Text × World)
      → host.read_file udc_path w ≡ r
      → quiet.bound w ≡ quiet.bound w0
      → Bound w0 (after_udc host r)
  after_udc-Bound w w0 (failed e, w1) q h =
      make_gadget-Bound w1 w0 (sym (ap (λ r. quiet.bound r.1) q) ∙ quiet.read_quiet udc_path w ∙ h)
  after_udc-Bound w w0 (done text, w1) q h =
      let h1 = sym (ap (λ r. quiet.bound r.1) q) ∙ quiet.read_quiet udc_path w ∙ h in
      elim (Bool-cases (is_empty (trim_space text))) [
        | inl e ↦ rw e (make_gadget-Bound w1 w0 h1)
        | inr e ↦ rw e (inl (h1, (λ x. (w, text, q, e))))
      ]

  after_stat-Bound :
      (w0 : World) (r : Outcome (Unit {0}) × World)
      → quiet.bound r.1 ≡ quiet.bound w0
      → Bound w0 (after_stat host r)
  after_stat-Bound w0 (failed e, w1) h = make_gadget-Bound w1 w0 h
  after_stat-Bound w0 (done u, w1) h = after_udc-Bound w1 w0 (host.read_file udc_path w1) refl h

  -- Where only a write of `UDC` binds the gadget: the set-up leaves it bound as it was, and then it succeeds
  -- only if `UDC` named a controller; or each file has been written in order, the link of the function made and a
  -- controller found, and then the set-up succeeds exactly where the name of the first controller, with a newline,
  -- is written to `UDC`.
  pub setup_usb_gadget-Bound : (w : World) → Bound w (setup_usb_gadget host w)
  unfolding setup_usb_gadget
  setup_usb_gadget-Bound w = after_stat-Bound w (host.stat udc_path w) (quiet.stat_quiet udc_path w)
