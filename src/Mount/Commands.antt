-- ===== src/Mount/Commands.antt =====
-- Which commands a mount runs, and when.
use gokrazy_router.Prelude.{
  ℕ, ◌+◌, ◌/◌, ◌≡◌, refl, sym, ap, ◌∙◌, ◌≢◌, ◌↔◌, ◌⊎◌, inl, inr, Bool, true, false, not, List, [],
  ◌∷◌, ◌++◌, arith, if◌then◌else◌, Bool-cases, Text, codes, text_eq_iff, is_empty,
}
use gokrazy_router.Prelude.Action.{
  Action, Outcome, failed, done, done_inj, and_then, and_then-eq-done, wrap,
}
use gokrazy_router.Config.{MountConfig}
use gokrazy_router.Prelude.Poll.{poll-keeps}
use gokrazy_router.Prelude.Space.{fields}
use gokrazy_router.Prelude.Template.{split_lines}
use gokrazy_router.Mount.{
  clock, Host, names_target, listed, mount_args, wait_for_device, is_mounted, mount_unless,
  mount_device, mount,
}

-- how the calls of the system change the commands run so far, the last one first
pub record History (World : Type 0) (host : Host World) : Type 0 where
  pub commands : World → List (Text × List Text)
  pub sleep_quiet : (n : ℕ) (w : World) → commands (host.sleep n w) ≡ commands w
  pub stat_quiet : (path : Text) (w : World) → commands (host.stat path w).1 ≡ commands w
  pub mkdir_quiet : (path : Text) (w : World) → commands (host.mkdir_all path w).1 ≡ commands w
  pub read_quiet : (path : Text) (w : World) → commands (host.read_file path w).1 ≡ commands w
  pub run_adds :
      (name : Text) (args : List Text) (w : World)
      → commands (host.run name args w).1 ≡ (name, args) ∷ commands w

-- a line of the table has the target as its second field, and a third one
abbrev pub InTable : Text → List Text → Type 0
InTable target [] = ⊥
InTable target (line ∷ lines) =
    ((device : Text) × (kind : Text) × (rest : List Text) × (fields line
        ≡ device ∷ target ∷ kind ∷ rest))
    ⊎ InTable target lines

-- the table of mounts, as the kernel gives it at some time, after which the world is `w`
abbrev pub Table : {World : Type 0} → Host World → Text → World → Type 0
Table {World} host text w =
    (w1 : World) × (host.read_file (codes "/proc/mounts") w1 ≡ (done text, w))

-- the device on the target, with its file system or `auto`, and with the options where there are some
abbrev pub Mounts : MountConfig → List Text → Type 0
Mounts cfg args =
    (kind : Text) × (options : List Text) × (args
      ≡ codes "-t" ∷ kind ∷ options ++ cfg.device ∷ cfg.target ∷ [])
    × (((cfg.fs_type ≡ []) × (kind ≡ codes "auto")) ⊎ ((cfg.fs_type ≢ []) × (kind ≡ cfg.fs_type)))
    × (((cfg.options ≡ []) × (options ≡ []))
        ⊎ ((cfg.options ≢ []) × (options ≡ codes "-o" ∷ cfg.options ∷ [])))

nil-cases : (t : Text) → ((t ≡ []) × (is_empty t ≡ true)) ⊎ ((t ≢ []) × (is_empty t ≡ false))
nil-cases [] = inl (refl, refl)
nil-cases (c ∷ cs) = inr ((λ e. absurd cc), refl)

mount_args-Mounts : (cfg : MountConfig) → Mounts cfg (mount_args cfg)
unfolding mount_args
mount_args-Mounts cfg =
    let kind = if is_empty cfg.fs_type then codes "auto" else cfg.fs_type in
    let options = if is_empty cfg.options then [] else codes "-o" ∷ cfg.options ∷ [] in
    (
      kind,
      options,
      refl,
      elim (nil-cases cfg.fs_type) [
        | inl (e, b) ↦ inl (e, rw b refl)
        | inr (e, b) ↦ inr (e, rw b refl)
      ],
      elim (nil-cases cfg.options) [
        | inl (e, b) ↦ inl (e, rw b refl)
        | inr (e, b) ↦ inr (e, rw b refl)
      ],
    )

-- the operation ran no command, and it succeeds only if it is switched off or its target is in the table
abbrev pub Skipped :
    {World : Type 0}
    → (host : Host World) → History World host
    → MountConfig
    → World
    → Outcome (Unit {0}) × World
    → Type 0
Skipped {World} host history cfg w r =
    (history.commands r.1 ≡ history.commands w)
    × ((r.0 ≡ done tt)
        → (cfg.enabled ≡ false)
          ⊎ ((text : Text) × Table host text r.1 × InTable cfg.target (split_lines text)))

-- the operation is switched on, ran `mount` for a target that was not in the table, and has its outcome
abbrev pub Ran :
    {World : Type 0}
    → (host : Host World) → History World host
    → MountConfig
    → World
    → Outcome (Unit {0}) × World
    → Type 0
Ran {World} host history cfg w r =
    (cfg.enabled ≡ true)
    × (args : List Text) × Mounts cfg args
    × (history.commands r.1 ≡ (codes "mount", args) ∷ history.commands w)
    × (w2 : World) × ((text : Text) × Table host text w2
        × (¬ InTable cfg.target (split_lines text)))
    × ((r.0 ≡ done tt) ↔ ((host.run (codes "mount") args w2).0 ≡ done tt))

-- both branches of a test have the property
choose :
    {Value : Type 0}
    → (P : Value → Type 0) (b : Bool) (x y : Value) → (b ≡ true → P x)
    → (b ≡ false → P y)
    → P (if b then x else y)
choose P true x y f g = f refl
choose P false x y f g = g refl

names_target_iff :
    (target : Text) (fs : List Text)
    → (names_target target fs ≡ true) ↔ (
        (device : Text) × (kind : Text) × (rest : List Text) × (fs ≡ device ∷ target ∷ kind ∷ rest))
unfolding names_target
names_target_iff target (device ∷ point ∷ kind ∷ rest) = (
  λ h.
      let same : point ≡ target = (text_eq_iff point target).0 h in
      (device, kind, rest, ap (λ p. device ∷ p ∷ kind ∷ rest) same),
  λ (d, k, r, e). (let same : point ≡ target = cc e in (text_eq_iff point target).1 same),
)
names_target_iff target (device ∷ point ∷ []) = (λ h. absurd cc, λ (d, k, r, e). absurd cc)
names_target_iff target (device ∷ []) = (λ h. absurd cc, λ (d, k, r, e). absurd cc)
names_target_iff target [] = (λ h. absurd cc, λ (d, k, r, e). absurd cc)

listed_iff :
    (target : Text) (lines : List Text) → (listed target lines ≡ true) ↔ InTable target lines
unfolding listed
listed_iff target [] = (λ h. absurd cc, λ h. absurd h)
listed_iff target (line ∷ lines) = (
  λ h. elim (Bool-cases (names_target target (fields line))) [
    | inl here ↦ inl ((names_target_iff target (fields line)).0 here)
    | inr other ↦ inr ((listed_iff target lines).0 (ground (arith, h, other)))
  ],
  λ h. elim h [
    | inl here ↦ (let t = (names_target_iff target (fields line)).1 here in ground (arith, t))
    | inr later ↦ (let t = (listed_iff target lines).1 later in ground (arith, t))
  ],
)

module _ {World : Type 0} (host : Host World) (history : History World host) where
  is_mounted-Table :
      (target : Text) (w1 w2 : World) (b : Bool)
      → is_mounted host target w1 ≡ (done b, w2)
      → (text : Text) × Table host text w2 × (listed target (split_lines text) ≡ b)
  unfolding is_mounted
  is_mounted-Table target w1 w2 b h =
      let (text, w3, e, k) = and_then-eq-done (host.read_file (codes "/proc/mounts") w1) _ h in
      let (same, stay) = done_inj k in (text, (w1, e ∙ ap (λ x. (done text, x)) stay), same)

  wait_for_device-quiet :
      (device : Text) (timeout : ℕ) (w : World)
      → history.commands (wait_for_device host device timeout w).1 ≡ history.commands w
  unfolding wait_for_device
  wait_for_device-quiet device timeout w =
      poll-keeps (clock host) (host.stat device) 500 (codes "timeout waiting for " ++ device)
        (λ w1. history.commands w1 ≡ history.commands w) (λ w1 h. history.stat_quiet device w1 ∙ h)
        (λ w1 h. history.sleep_quiet 500 w1 ∙ h) (host.now w + timeout) (timeout / 500 + 1) w refl

  after_read-quiet :
      {A B : Type 0}
      → (r : Outcome A × World) (f : A → B)
      → history.commands (and_then r (λ v w. (done (f v), w))).1 ≡ history.commands r.1
  after_read-quiet (failed e, w) f = refl
  after_read-quiet (done v, w) f = refl

  is_mounted-quiet :
      (target : Text) (w : World)
      → history.commands (is_mounted host target w).1 ≡ history.commands w
  unfolding is_mounted
  is_mounted-quiet target w =
      after_read-quiet (host.read_file (codes "/proc/mounts") w) _
      ∙ history.read_quiet (codes "/proc/mounts") w

  wrap-done :
      (context : Text) (r : Outcome (Unit {0}) × World)
      → ((wrap context r).0 ≡ done tt) ↔ (r.0 ≡ done tt)
  wrap-done context (failed e, w) = ((λ h. absurd cc), (λ h. absurd cc))
  wrap-done context (done u, w) = ((λ h. refl), (λ h. refl))

  wrap-world : {A : Type 0} → (context : Text) (r : Outcome A × World) → (wrap context r).1 ≡ r.1
  wrap-world context (failed e, w) = refl
  wrap-world context (done v, w) = refl

  -- a step before the command: where it fails nothing has run
  step-Ending :
      {A : Type 0}
      → (cfg : MountConfig) (w : World) (context : Text) (r : Outcome A × World)
        (next : A → Action World (Unit {0}))
      → history.commands r.1 ≡ history.commands w
      → ((v : A) (w1 : World)
          → r ≡ (done v, w1)
          → Skipped host history cfg w (next v w1) ⊎ Ran host history cfg w (next v w1))
      → Skipped host history cfg w (and_then (wrap context r) next)
        ⊎ Ran host history cfg w (and_then (wrap context r) next)
  step-Ending cfg w context (failed e, w1) next h k = inl (h, (λ q. absurd cc))
  step-Ending cfg w context (done v, w1) next h k = k v w1 refl

  mount_unless-Ending :
      (cfg : MountConfig) (w w1 w2 : World) (mounted : Bool)
      → cfg.enabled ≡ true
      → is_mounted host cfg.target w1 ≡ (done mounted, w2)
      → history.commands w2 ≡ history.commands w
      → Skipped host history cfg w (mount_unless host cfg mounted w2)
        ⊎ Ran host history cfg w (mount_unless host cfg mounted w2)
  unfolding mount_unless
  mount_unless-Ending cfg w w1 w2 true on e h =
      let (text, table, found) = is_mounted-Table cfg.target w1 w2 true e in
      inl (h, (λ q. inr (text, table, (listed_iff cfg.target (split_lines text)).0 found)))
  mount_unless-Ending cfg w w1 w2 false on e h =
      let (text, table, absent) = is_mounted-Table cfg.target w1 w2 false e in
      let missing : ¬ InTable cfg.target (split_lines text) =
        (λ k. (let found = (listed_iff cfg.target (split_lines text)).1 k in absurd cc)) in
      let result = host.run (codes "mount") (mount_args cfg) w2 in
      let context =
        codes "mount: mount " ++ cfg.device ++ codes " to " ++ cfg.target ++ codes " failed" in
      inr (
        on,
        mount_args cfg,
        mount_args-Mounts cfg,
        ap history.commands (wrap-world context result)
            ∙ history.run_adds (codes "mount") (mount_args cfg) w2
            ∙ ap (λ cs. (codes "mount", mount_args cfg) ∷ cs) h,
        w2,
        (text, table, missing),
        wrap-done context result,
      )

  commands_after :
      {A : Type 0} {r : Outcome A × World} {v : A} {w2 : World} {cs : List (Text × List Text)}
      → r ≡ (done v, w2)
      → history.commands r.1 ≡ cs
      → history.commands w2 ≡ cs
  commands_after e h = sym (ap (λ r. history.commands r.1) e) ∙ h

  mount_device-Ending :
      (cfg : MountConfig) (w : World)
      → cfg.enabled ≡ true
      → Skipped host history cfg w (mount_device host cfg w)
        ⊎ Ran host history cfg w (mount_device host cfg w)
  unfolding mount_device wait_for_device
  mount_device-Ending cfg w on =
      let quiet0 = wait_for_device-quiet cfg.device 30000 w in
      step-Ending cfg w (codes "mount: device " ++ cfg.device ++ codes " not ready")
        (wait_for_device host cfg.device 30000 w) _ quiet0
        (λ u1 w1 e1.
          let quiet1 = history.mkdir_quiet cfg.target w1 ∙ commands_after e1 quiet0 in
          step-Ending cfg w (codes "mount: mkdir " ++ cfg.target) (host.mkdir_all cfg.target w1) _
            quiet1
            (λ u2 w2 e2.
              let quiet2 = is_mounted-quiet cfg.target w2 ∙ commands_after e2 quiet1 in
              step-Ending cfg w (codes "mount: check " ++ cfg.target)
                (is_mounted host cfg.target w2) _ quiet2
                (λ mounted w3 e3.
                  mount_unless-Ending cfg w w2 w3 mounted on e3 (commands_after e3 quiet2))))

  -- Where each run of a command is noted and the other calls note none: a mount runs no command, and then it
  -- succeeds only where it is switched off or a line of /proc/mounts has its target; or it is switched on and runs
  -- `mount` once on the device, the target, the file system or `auto`, and the options, when no line of /proc/mounts
  -- has its target, and succeeds exactly where this command does.
  pub mount-Ending :
      (cfg : MountConfig) (w : World)
      → Skipped host history cfg w (mount host cfg w) ⊎ Ran host history cfg w (mount host cfg w)
  unfolding mount
  mount-Ending cfg w =
      let P : Outcome (Unit {0}) × World → Type 0 =
        (λ r. Skipped host history cfg w r ⊎ Ran host history cfg w r) in
      choose P (not cfg.enabled) _ _ (λ e. inl (refl, (λ q. inl (ground (arith, e)))))
        (λ e.
          choose P (is_empty cfg.device) _ _ (λ d. inl (refl, (λ q. absurd cc)))
            (λ d.
              choose P (is_empty cfg.target) _ _ (λ t. inl (refl, (λ q. absurd cc)))
                (λ t. mount_device-Ending cfg w (ground (arith, e)))))
