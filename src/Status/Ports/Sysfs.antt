-- ===== src/Status/Ports/Sysfs.antt =====
-- The numbers that the kernel writes to sysfs.
use gokrazy_router.Prelude.{
  ℕ, ◌^◌, ◌<◌, ◌≡◌, refl, sym, ap, ◌∙◌, ◌≢◌, false, some, List, [], ◌∷◌, ◌++◌, map, reverse, arith,
  All, All-append, Text, codes, is_space, trim_left, trim_space, ℤ, pos, int_lt,
}
use mathlib.Core.List.{reverse-append, reverse-reverse, reverse-cons}
use mathlib.Core.Path.{subst}
use gokrazy_router.Prelude.Action.{done}
use gokrazy_router.Prelude.Decimal.{atoi, print_nat, digits_onto, read_digits, read_magnitude}
use gokrazy_router.Prelude.Decimal.Laws.{IsNumeral, print_nat-All, read_digits-print_nat}
use gokrazy_router.Status.State.{Monitor, Rule}
use gokrazy_router.Status.Start.{Interfaces}
use gokrazy_router.Status.Ports.{
  System, Attrs, SubPort, read_sysfs_int, PortInfo, get_port_info, get_status,
}

abbrev IsInk : ℕ → Type 0
IsInk c = is_space c ≡ false

reverse-All : (t : Text) → All IsInk t → All IsInk (reverse t)
reverse-All [] h = tt
reverse-All (c ∷ cs) h =
    subst (All IsInk) (sym (reverse-cons c cs))
      (All-append IsInk (reverse cs) (c ∷ []) (reverse-All cs h.1) (h.0, tt))

trim_left-All : (t : Text) → All IsInk t → trim_left t ≡ t
unfolding trim_left
trim_left-All [] h = refl
trim_left-All (c ∷ cs) h = rw h.0 refl

-- a line without white space loses its newline
trim_space-line : (t : Text) → All IsInk t → trim_space (t ++ 10 ∷ []) ≡ t
unfolding trim_space trim_left is_space
trim_space-line [] h = refl
trim_space-line (c ∷ cs) h =
    let first : trim_left ((c ∷ cs) ++ 10 ∷ []) ≡ (c ∷ cs) ++ 10 ∷ [] = rw h.0 refl in
    ap (λ x. reverse (trim_left (reverse x))) first
    ∙ ap (λ x. reverse (trim_left x)) (reverse-append (c ∷ cs) (10 ∷ []))
    ∙ ap reverse (trim_left-All (reverse (c ∷ cs)) (reverse-All (c ∷ cs) h))
    ∙ reverse-reverse (c ∷ cs)

numeral-IsInk : (t : Text) → All IsNumeral t → All IsInk t
unfolding is_space
numeral-IsInk [] h = tt
numeral-IsInk (c ∷ cs) h = (ground (arith, h.0), numeral-IsInk cs h.1)

atoi-numeral :
    (t : Text) (n : ℕ)
    → All IsNumeral t
    → t ≢ []
    → read_digits 0 t ≡ some n
    → n < 2 ^ 63
    → atoi t ≡ some (pos n)
unfolding atoi read_magnitude
atoi-numeral [] n h ne r small = absurd (ne refl)
atoi-numeral (c ∷ cs) n h ne r small = rw (atoi, read_magnitude, r) (ground (arith, h.0, small))

print_nat-ne-nil : (n : ℕ) → print_nat n ≢ []
unfolding print_nat digits_onto read_digits
print_nat-ne-nil n e =
    let zero_read : some 0 ≡ some n = ap (read_digits 0) (sym e) ∙ read_digits-print_nat n in
    let is_zero : n ≡ 0 = cc zero_read in
    let empty : print_nat 0 ≡ [] = subst (λ k. print_nat k ≡ []) is_zero e in absurd cc

module _ {World : Type 0} (sys : System World) (w : World) where
  read_sysfs_int-line :
      (path : Text) (n : ℕ)
      → n < 2 ^ 63
      → sys.read_file w path ≡ done (print_nat n ++ 10 ∷ [])
      → read_sysfs_int sys w path ≡ pos n
  unfolding read_sysfs_int int_lt
  read_sysfs_int-line path n small h =
      let all = print_nat-All n in
      let line = trim_space-line (print_nat n) (numeral-IsInk (print_nat n) all) in
      rw
        (
          read_sysfs_int,
          h,
          line,
          atoi-numeral (print_nat n) n all (print_nat-ne-nil n) (read_digits-print_nat n) small,
        )
        (ground arith)

  -- the interface is there, and the kernel gives its speed
  abbrev pub Gives : (Text → ℕ) → Text → Type 0
  Gives speeds name =
      ((attrs : Attrs) × (sys.link_attrs w name ≡ done attrs))
      × (speeds name < 2 ^ 63)
      × (sys.read_file w (codes "/sys/class/net/" ++ name ++ codes "/speed")
          ≡ done (print_nat (speeds name) ++ 10 ∷ []))

  abbrev pub row : SubPort → Text × ℤ
  row p = (p.name, p.speed)

  abbrev pub rows : PortInfo → (Text × ℤ) × List (Text × ℤ)
  rows p = (row p.port, map row p.sub)

  get_port_info-row :
      (speeds : Text → ℕ) (name : Text)
      → Gives speeds name
      → row (get_port_info sys w name) ≡ (name, pos (speeds name))
  unfolding get_port_info
  get_port_info-row speeds name ((attrs, found), small, file) =
      rw (get_port_info, found)
        (ap (λ v. (name, v))
          (read_sysfs_int-line (codes "/sys/class/net/" ++ name ++ codes "/speed") (speeds name)
            small file))

  sub_rows :
      (speeds : Text → ℕ) (names : List Text)
      → All (Gives speeds) names
      → map row (map (get_port_info sys w) names) ≡ map (λ name. (name, pos (speeds name))) names
  sub_rows speeds [] h = refl
  sub_rows speeds (name ∷ names) h =
      cc (get_port_info-row speeds name h.0, sub_rows speeds names h.1)

  -- Where the kernel gives the speed of each interface of the monitor, the status has three ports, each with the
  -- speed of its interface, and below that of the LAN one for each of its ports, in order, with the name and the
  -- speed of that.
  pub get_status-rows :
      (speeds : Text → ℕ) (ifaces : Interfaces) (rx_rules tx_rules : List Rule) (m : Monitor)
      → Gives speeds ifaces.wan_iface
      → Gives speeds ifaces.lan_iface
      → Gives speeds ifaces.wifi_iface
      → All (Gives speeds) ifaces.lan_ports
      → map rows (get_status sys w ifaces rx_rules tx_rules m).ports
        ≡ ((ifaces.wan_iface, pos (speeds ifaces.wan_iface)), [])
          ∷ (
            (codes "lan", pos (speeds ifaces.lan_iface)),
            map (λ name. (name, pos (speeds name))) ifaces.lan_ports,
          )
          ∷ ((codes "wifi", pos (speeds ifaces.wifi_iface)), [])
          ∷ []
  unfolding get_status
  get_status-rows speeds ifaces rx_rules tx_rules m wan lan wifi below = cc (
    get_port_info-row speeds ifaces.wan_iface wan,
    get_port_info-row speeds ifaces.lan_iface lan,
    get_port_info-row speeds ifaces.wifi_iface wifi,
    sub_rows speeds ifaces.lan_ports below,
  )
