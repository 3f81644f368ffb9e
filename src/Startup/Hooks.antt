-- ===== src/Startup/Hooks.antt =====
-- Where the rules stand that the start of the program installs: a rule that drops packets acts only in a chain with the
-- forward hook, which has been added before.
use gokrazy_router.Prelude.{
  ℕ, ◌≡◌, refl, sym, ap, ◌∙◌, inl, inr, Bool, true, false, not, ◌&&◌, ◌||◌, Option, none, some,
  List, [], ◌∷◌, ◌++◌, arith, Bool-cases, Option-cases, Text, codes, text_eq, is_empty, ℤ,
}
use mathlib.Core.Path.{subst}
use gokrazy_router.Prelude.Action.{
  Action, Outcome, failed, done, wrap, done_inj, and_then, and_then-eq-done,
}
use gokrazy_router.Prelude.Decimal.{print_int}
use gokrazy_router.Net.{IpNet}
use gokrazy_router.Dhcp.State.{Cidr}
use gokrazy_router.Config.{Config, VlanConfig}
use gokrazy_router.Vlan.{bridge_name}
use gokrazy_router.Nat.{
  Expr, verdict_drop, nat_postrouting, filter_forward, Chain, Manager, Message, add_table,
  add_chain, add_rule, del_table, masquerade, drop_rule, ifname, isolation_rules, ensure_chain,
  add_isolation,
}
use gokrazy_router.Nat.Names.{IsVlanId}
use gokrazy_router.Nat.Isolation.{drops}
use gokrazy_router.Startup.{
  other_bridges, isolate_vlan, isolate_vlans, install_nat, install_isolation, install_rules,
  vlan_mode,
}
use gokrazy_router.Startup.Isolation.{ValidIds, blocked, and_then-wrap-eq-done}
use gokrazy_router.Startup.Masquerade.{
  nat_networks, source_rules, nat_batch, nat_manager, managed, install_nat-sent,
  install_rules-drops,
}

unfoldable pub is_drop : List Expr → Bool
is_drop [] = false
is_drop (verdict_drop ∷ es) = true
is_drop (_ ∷ es) = is_drop es

abbrev pub has_forward_hook : Chain → Bool
has_forward_hook c = elim c.hook [ nat_postrouting ↦ false | filter_forward ↦ true ]

-- the chain that traffic between interfaces goes through
unfoldable pub is_forward_chain : Chain → Bool
is_forward_chain c =
    text_eq c.name (codes "forward") && text_eq c.table (codes "gokrazy_nat") && has_forward_hook c

-- whether that chain is there after the messages, if it was there before or not
unfoldable pub present : Bool → List Message → Bool
present live [] = live
present live (add_chain c ∷ ms) = present (live || is_forward_chain c) ms
present live (del_table t ∷ ms) = present false ms
present live (add_table t ∷ ms) = present live ms
present live (add_rule c rule ∷ ms) = present live ms

-- each rule that drops is added to that chain, once it is there
unfoldable pub hooked : Bool → List Message → Bool
hooked live [] = true
hooked live (add_chain c ∷ ms) = hooked (live || is_forward_chain c) ms
hooked live (del_table t ∷ ms) = hooked false ms
hooked live (add_table t ∷ ms) = hooked live ms
hooked live (add_rule c rule ∷ ms) =
    (not (is_drop rule) || (live && is_forward_chain c)) && hooked live ms

present-append :
    (live : Bool) (ms ns : List Message) → present live (ms ++ ns) ≡ present (present live ms) ns
unfolding present
present-append live [] ns = refl
present-append live (add_chain c ∷ ms) ns = present-append (live || is_forward_chain c) ms ns
present-append live (del_table t ∷ ms) ns = present-append false ms ns
present-append live (add_table t ∷ ms) ns = present-append live ms ns
present-append live (add_rule c rule ∷ ms) ns = present-append live ms ns

hooked-append :
    (live : Bool) (ms ns : List Message)
    → hooked live (ms ++ ns) ≡ (hooked live ms && hooked (present live ms) ns)
unfolding hooked present
hooked-append live [] ns = refl
hooked-append live (add_chain c ∷ ms) ns = hooked-append (live || is_forward_chain c) ms ns
hooked-append live (del_table t ∷ ms) ns = hooked-append false ms ns
hooked-append live (add_table t ∷ ms) ns = hooked-append live ms ns
hooked-append live (add_rule c rule ∷ ms) ns = ground (arith, hooked-append live ms ns)

hooked-isolation_rules :
    (chain : Chain) (isolated : Text) (others : List Text)
    → is_forward_chain chain ≡ true
    → (hooked true (isolation_rules chain isolated others) ≡ true)
      × (present true (isolation_rules chain isolated others) ≡ true)
unfolding hooked present isolation_rules drop_rule is_drop
hooked-isolation_rules chain isolated [] h = (refl, refl)
hooked-isolation_rules chain isolated (other ∷ others) h =
    let (k, l) = hooked-isolation_rules chain isolated others h in (ground (arith, h, k), l)

-- the manager has made its forward chain, or is to make it in its table
unfoldable pub ready : Manager → Bool → Bool
ready m live = elim m.fwd_chain [
  | none ↦ text_eq m.table (codes "gokrazy_nat")
  | some c ↦ is_forward_chain c && live
]

ensure_chain-ready :
    (m : Manager) (live : Bool)
    → ready m live ≡ true
    → (hooked live (ensure_chain m).1 ≡ true)
      × (present live (ensure_chain m).1 ≡ true)
      × (is_forward_chain (ensure_chain m).0 ≡ true)
unfolding ready ensure_chain hooked present is_forward_chain text_eq
ensure_chain-ready m live h = elim (Option-cases m.fwd_chain) [
  | inl e ↦
      let named : text_eq m.table (codes "gokrazy_nat") ≡ true = rw (e, ready) at h in
      rw (e, ensure_chain) (refl, ground (arith, named), ground (arith, named))
  | inr (c, e) ↦
      let both : (is_forward_chain c && live) ≡ true = rw (e, ready) at h in
      rw (e, ensure_chain) (refl, ground (arith, both), ground (arith, both))
]

made_inj :
    {World Value Next : Type 0}
    → (context : Text) (result : Outcome Value × World) (r s : Next) (w2 : World)
    → and_then (wrap context result) (λ _ w. (done r, w)) ≡ (done s, w2)
    → r ≡ s
made_inj context (failed e, w) r s w2 h = absurd cc
made_inj context (done v, w) r s w2 h = (done_inj h).0

-- the messages for one isolated VLAN
hooked-batch :
    (m : Manager) (live : Bool) (isolated : Text) (others : List Text)
    → ready m live ≡ true
    → let batch = (ensure_chain m).1 ++ isolation_rules (ensure_chain m).0 isolated others in
      (hooked live batch ≡ true) × (present live batch ≡ true)
hooked-batch m live isolated others h =
    let (k, p, f) = ensure_chain-ready m live h in
    let rules = isolation_rules (ensure_chain m).0 isolated others in
    let (q, r) = hooked-isolation_rules (ensure_chain m).0 isolated others f in
    (
      hooked-append live (ensure_chain m).1 rules ∙ rw (k, p) q,
      present-append live (ensure_chain m).1 rules ∙ rw p r,
    )

hooked-source_rules :
    (live : Bool) (out_iface : Text) (ns : List IpNet)
    → (hooked live (source_rules out_iface ns) ≡ true)
      × (present live (source_rules out_iface ns) ≡ live)
unfolding hooked present source_rules is_drop masquerade
hooked-source_rules live out_iface [] = (refl, refl)
hooked-source_rules live out_iface (n ∷ ns) = hooked-source_rules live out_iface ns

hooked-nat_batch :
    (live : Bool) (out_iface : Text) (ns : List IpNet)
    → (hooked live (nat_batch false out_iface ns) ≡ true)
      × (present live (nat_batch false out_iface ns) ≡ live)
unfolding hooked present nat_batch is_forward_chain text_eq
hooked-nat_batch live out_iface [] = (refl, refl)
hooked-nat_batch live out_iface (n ∷ ns) =
    let same : (live || false) ≡ live = ground arith in
    let (h, p) = hooked-source_rules (live || false) out_iface (n ∷ ns) in (h, p ∙ same)

module _ {World : Type 0} (flush : List Message → Action World (Unit {0}))
    (interface_by_name : Text → Action World ℕ) (parse_cidr : Text → Option Cidr)
    (sent : World → List Message)
    (flush_sends : (batch : List Message) (w w2 : World)
      → flush batch w ≡ (done tt, w2)
      → sent w2 ≡ sent w ++ batch)
    (lookup_sends_nothing : (name : Text) (w w2 : World) (index : ℕ)
      → interface_by_name name w ≡ (done index, w2)
      → sent w2 ≡ sent w) where
  -- the rules stay where they drop as much as before, and the manager knows its chain
  abbrev Keeps : World → World → Manager → Type 0
  Keeps w w2 m =
      (hooked false (sent w2) ≡ hooked false (sent w)) × (ready m (present false (sent w2)) ≡ true)

  isolate_vlan-Keeps :
      (all : List VlanConfig) (v : VlanConfig) (m m2 : Manager) (w w2 : World)
      → isolate_vlan flush interface_by_name parse_cidr all v m w ≡ (done m2, w2)
      → ready m (present false (sent w)) ≡ true
      → Keeps w w2 m2
  unfolding isolate_vlan add_isolation ready
  isolate_vlan-Keeps all v m m2 w w2 e h =
      let isolated = bridge_name v.id in
      let others = other_bridges isolated all in
      let chain = (ensure_chain m).0 in
      let batch = (ensure_chain m).1 ++ isolation_rules chain isolated others in
      let run = isolate_vlan flush interface_by_name parse_cidr all v m w in
      let stays : run ≡ (done m, w) → Keeps w w2 m2 = (λ k.
        let (same, stay) = done_inj (sym k ∙ e) in
        (
          ap (λ x. hooked false (sent x)) (sym stay),
          subst (λ x. ready x (present false (sent w2)) ≡ true) same
              (subst (λ x. ready m (present false (sent x)) ≡ true) stay h),
        )) in
      elim (Bool-cases v.isolated) [
        | inr off ↦ stays (rw (off) refl)
        | inl on ↦ elim (Bool-cases (is_empty others)) [
          | inl none_left ↦ stays (rw (on, none_left) refl)
          | inr some_left ↦
              let made : Manager = record m { fwd_chain = some chain } in
              let context = codes "nat: isolation for VLAN " ++ print_int v.id in
              let goes : run ≡ and_then (wrap context (flush batch w)) (λ _ w'. (done made, w')) =
                rw (on, some_left) refl in
              let gone = and_then-wrap-eq-done context (flush batch w) made m2 w2 (sym goes ∙ e) in
              let result = flush_sends batch w w2 gone.1 in
              let (k, p) = hooked-batch m (present false (sent w)) isolated others h in
              let (k1, p1, f1) = ensure_chain-ready m (present false (sent w)) h in
              let live : present false (sent w2) ≡ true =
                ap (present false) result ∙ present-append false (sent w) batch ∙ p in
              let same : made ≡ m2 = made_inj context (flush batch w) made m2 w2 (sym goes ∙ e) in
              (
                ap (hooked false) result ∙ hooked-append false (sent w) batch ∙ rw k (ground arith),
                subst (λ x. ready x (present false (sent w2)) ≡ true) same
                    (ground (arith, f1, live)),
              )
        ]
      ]

  isolate_vlans-Keeps :
      (all vs : List VlanConfig) (m m2 : Manager) (w w2 : World)
      → isolate_vlans flush interface_by_name parse_cidr all vs m w ≡ (done m2, w2)
      → ready m (present false (sent w)) ≡ true
      → hooked false (sent w2) ≡ hooked false (sent w)
  unfolding isolate_vlans
  isolate_vlans-Keeps all [] m m2 w w2 e h = ap (λ x. hooked false (sent x)) (sym (done_inj e).1)
  isolate_vlans-Keeps all (v ∷ vs) m m2 w w2 e h =
      let (m1, w1, first, later) =
        and_then-eq-done (isolate_vlan flush interface_by_name parse_cidr all v m w)
          (isolate_vlans flush interface_by_name parse_cidr all vs) e in
      let (k, r) = isolate_vlan-Keeps all v m m1 w w1 first h in
      isolate_vlans-Keeps all vs m1 m2 w1 w2 later r ∙ k

  install_isolation-hooked :
      (cfg : Config) (m : Manager) (w w2 : World) (made : Option Manager)
      → install_isolation flush interface_by_name parse_cidr cfg (some m) w ≡ (done made, w2)
      → ready m (present false (sent w)) ≡ true
      → hooked false (sent w2) ≡ hooked false (sent w)
  unfolding install_isolation
  install_isolation-hooked cfg m w w2 made e h =
      let run = install_isolation flush interface_by_name parse_cidr cfg (some m) w in
      let loop = isolate_vlans flush interface_by_name parse_cidr cfg.vlans cfg.vlans m w in
      elim (Bool-cases (vlan_mode cfg)) [
        | inr flat ↦
            let stays : run ≡ (done (some m), w) = rw (flat) refl in
            ap (λ x. hooked false (sent x)) (sym (done_inj (sym stays ∙ e)).1)
        | inl vlans ↦
            let loops : run ≡ and_then loop (λ m' x. (done (some m'), x)) = rw (vlans) refl in
            let (m1, w1, first, later) =
              and_then-eq-done loop (λ m' x. (done (some m'), x)) (sym loops ∙ e) in
            ap (λ x. hooked false (sent x)) (sym (done_inj later).1)
            ∙ isolate_vlans-Keeps cfg.vlans cfg.vlans m m1 w w1 first h
      ]

  install_rules-hooked :
      (cfg : Config) (w w2 : World) (made : Option Manager)
      → install_rules flush interface_by_name parse_cidr cfg w ≡ (done made, w2)
      → hooked false (sent w2) ≡ hooked false (sent w)
  unfolding install_rules install_isolation ready text_eq
  install_rules-hooked cfg w w2 made e =
      let nets = nat_networks parse_cidr cfg in
      let out_iface = cfg.nat.out_interface in
      let isolate = install_isolation flush interface_by_name parse_cidr cfg in
      let (m, w1, first, later) =
        and_then-eq-done (install_nat flush interface_by_name parse_cidr cfg w) isolate e in
      let (same, sends) =
        install_nat-sent flush interface_by_name parse_cidr sent flush_sends lookup_sends_nothing
          cfg w w1 first in
      let (k, p) = hooked-nat_batch (present false (sent w)) out_iface nets in
      let before : hooked false (sent w1) ≡ hooked false (sent w) =
        ap (hooked false) sends
        ∙ hooked-append false (sent w) (nat_batch false out_iface nets)
        ∙ rw k (ground arith) in
      let with_manager : (b : Bool)
          → is_empty nets ≡ b
          → isolate (managed (not b) out_iface) w1 ≡ (done made, w2) =
        λ b eq.
          ap (λ x. isolate x w1) (sym (same ∙ ap (λ y. managed (not y) out_iface) eq)) ∙ later in
      elim (Bool-cases (is_empty nets)) [
        | inl none_left ↦
            ap (λ x. hooked false (sent x)) (sym (done_inj (with_manager true none_left)).1)
            ∙ before
        | inr some_left ↦
            install_isolation-hooked cfg (nat_manager out_iface) w1 w2 made
              (with_manager false some_left) refl
            ∙ before
      ]

  -- For VLAN IDs up to 4094, where batches that are flushed without an error have been sent and the lookup
  -- of an interface sends nothing: after a start without an error, a rule drops what one VLAN bridge
  -- forwards to another exactly where one did before, or where some network has NAT, both are bridges of
  -- different VLANs of the configuration, and one of the two VLANs is isolated. And each rule that drops stands in
  -- the forward chain, with the forward hook, and comes after that chain was added, if this was so before.
  pub install_rules-blocked :
      (cfg : Config) (w w2 : World) {made : Option Manager} (i j : ℤ)
      → ValidIds cfg.vlans
      → IsVlanId i
      → IsVlanId j
      → install_rules flush interface_by_name parse_cidr cfg w ≡ (done made, w2)
      → (drops (ifname (bridge_name i)) (ifname (bridge_name j)) (sent w2) ≡ (
          drops (ifname (bridge_name i)) (ifname (bridge_name j)) (sent w)
          || (not (is_empty (nat_networks parse_cidr cfg)) && blocked cfg.vlans cfg.vlans i j)))
        × (hooked false (sent w2) ≡ hooked false (sent w))
  install_rules-blocked cfg w w2 {made} i j h hi hj e = (
    install_rules-drops flush interface_by_name parse_cidr sent flush_sends lookup_sends_nothing cfg
        w w2 i j h hi hj e,
    install_rules-hooked cfg w w2 made e,
  )
