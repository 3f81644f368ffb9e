-- ===== src/Startup/Masquerade.antt =====
-- The NAT rules that the start of the program installs, as one list of messages.
use gokrazy_router.Prelude.{
  ℕ, ◌≡◌, refl, sym, ap, ◌∙◌, inl, inr, Bool, true, false, not, ◌&&◌, ◌||◌, Option, none, some,
  List, [], ◌∷◌, ◌++◌, map, arith, if◌then◌else◌, Bool-cases, Option-cases, Text, codes, is_empty,
  ℤ,
}
use mathlib.Core.List.{append-nil, append_assoc}
use gokrazy_router.Prelude.Action.{
  Action, failed, done, wrap, wrap-eq-done, done_inj, and_then, and_then-eq-done,
}
use gokrazy_router.Prelude.Decimal.{print_int}
use gokrazy_router.Net.{IpNet}
use gokrazy_router.Dhcp.State.{Cidr}
use gokrazy_router.Config.{Config, VlanConfig}
use gokrazy_router.Vlan.{bridge_name}
use gokrazy_router.Nat.{
  Manager, Message, add_table, add_chain, add_rule, table_name, postrouting, masquerade, ifname,
  setup, add_source,
}
use gokrazy_router.Nat.Names.{IsVlanId}
use gokrazy_router.Nat.Isolation.{drops, message_drops, rule_drops, drops-append}
use gokrazy_router.Startup.{
  add_nat_network, nat_vlans, install_nat, install_isolation, install_rules, vlan_mode,
}
use gokrazy_router.Startup.Isolation.{ValidIds, blocked, install_isolation-drops}

module _ (parse_cidr : Text → Option Cidr) where
  -- the networks of the VLANs with NAT whose address parses
  unfoldable pub nat_networks_of : List VlanConfig → List IpNet
  nat_networks_of [] = []
  nat_networks_of (v ∷ vs) =
      let rest = nat_networks_of vs in
      if v.nat
      then elim (parse_cidr v.address) [ none ↦ rest | some c ↦ c.network ∷ rest ]
      else rest

  unfoldable pub nat_networks : Config → List IpNet
  unfolding nat_networks_of vlan_mode
  nat_networks cfg =
      if not cfg.nat.enabled
      then []
      else if vlan_mode cfg
      then nat_networks_of cfg.vlans
      else elim (parse_cidr cfg.lan.address) [ none ↦ [] | some c ↦ c.network ∷ [] ]

unfoldable pub source_rules : Text → List IpNet → List Message
unfolding masquerade
source_rules out_iface networks = map (λ n. add_rule postrouting (masquerade out_iface n)) networks

-- One table and one chain before a rule for each network; where they are there, only the rules.
unfoldable pub nat_batch : Bool → Text → List IpNet → List Message
unfolding source_rules
nat_batch started out_iface [] = []
nat_batch true out_iface (n ∷ ns) = source_rules out_iface (n ∷ ns)
nat_batch false out_iface (n ∷ ns) =
    add_table table_name ∷ add_chain postrouting ∷ source_rules out_iface (n ∷ ns)

nat_batch-cons :
    (started : Bool) (out_iface : Text) (n : IpNet) (ns : List IpNet)
    → nat_batch started out_iface (n ∷ ns)
      ≡ nat_batch started out_iface (n ∷ []) ++ nat_batch true out_iface ns
unfolding nat_batch source_rules
nat_batch-cons true out_iface n [] = refl
nat_batch-cons true out_iface n (k ∷ ns) = refl
nat_batch-cons false out_iface n [] = refl
nat_batch-cons false out_iface n (k ∷ ns) = refl

-- the manager after them
abbrev pub nat_manager : Text → Manager
nat_manager out_iface = record {
  table = table_name;
  chain = postrouting;
  fwd_chain = none;
  out_iface = out_iface;
}

abbrev pub managed : Bool → Text → Option Manager
managed started out_iface = if started then some (nat_manager out_iface) else none

drops-source_rules :
    (from to : List ℕ) (out_iface : Text) (ns : List IpNet)
    → drops from to (source_rules out_iface ns) ≡ false
unfolding drops source_rules message_drops rule_drops masquerade
drops-source_rules from to out_iface [] = refl
drops-source_rules from to out_iface (n ∷ ns) = drops-source_rules from to out_iface ns

drops-nat_batch :
    (from to : List ℕ) (out_iface : Text) (ns : List IpNet)
    → drops from to (nat_batch false out_iface ns) ≡ false
unfolding drops nat_batch message_drops
drops-nat_batch from to out_iface [] = refl
drops-nat_batch from to out_iface (n ∷ ns) = drops-source_rules from to out_iface (n ∷ ns)

module _ {World : Type 0} (flush : List Message → Action World (Unit {0}))
    (interface_by_name : Text → Action World ℕ) (parse_cidr : Text → Option Cidr)
    (sent : World → List Message)
    (flush_sends : (batch : List Message) (w w2 : World)
      → flush batch w ≡ (done tt, w2)
      → sent w2 ≡ sent w ++ batch)
    -- the lookup of an interface sends nothing
    (lookup_sends_nothing : (name : Text) (w w2 : World) (index : ℕ)
      → interface_by_name name w ≡ (done index, w2)
      → sent w2 ≡ sent w) where
  setup-sent :
      (out_iface : Text) (n : IpNet) (w w2 : World) {m : Manager}
      → setup flush interface_by_name out_iface n w ≡ (done m, w2)
      → (m ≡ nat_manager out_iface) × (sent w2 ≡ sent w ++ nat_batch false out_iface (n ∷ []))
  unfolding setup nat_batch source_rules
  setup-sent out_iface n w w2 e =
      let batch = nat_batch false out_iface (n ∷ []) in
      let (ix, w1, first, later) = and_then-eq-done (interface_by_name out_iface w) _ e in
      let (u, w3, sends, last) = and_then-eq-done (flush batch w1) _ later in
      let (same, stay) = done_inj last in
      (
        sym same,
        ap sent (sym stay)
            ∙ flush_sends batch w1 w3 sends
            ∙ ap (λ ms. ms ++ batch) (lookup_sends_nothing out_iface w w1 ix first),
      )

  add_nat_network-sent :
      (started : Bool) (context out_iface : Text) (n : IpNet) (w w2 : World) {made : Option Manager}
      → add_nat_network flush interface_by_name parse_cidr context out_iface
          (managed started out_iface)
          n
          w
        ≡ (done made, w2)
      → (made ≡ some (nat_manager out_iface))
        × (sent w2 ≡ sent w ++ nat_batch started out_iface (n ∷ []))
  unfolding add_nat_network add_source nat_batch source_rules
  add_nat_network-sent true context out_iface n w w2 e =
      let batch = nat_batch true out_iface (n ∷ []) in
      let (u, w1, adds, last) = and_then-eq-done (wrap context (flush batch w)) _ e in
      let (same, stay) = done_inj last in
      (
        sym same,
        ap sent (sym stay) ∙ flush_sends batch w w1 (wrap-eq-done context (flush batch w) adds),
      )
  add_nat_network-sent false context out_iface n w w2 e =
      let run = setup flush interface_by_name out_iface n w in
      let (m, w1, makes, last) = and_then-eq-done (wrap (codes "nat") run) _ e in
      let (made_it, sends) = setup-sent out_iface n w w1 (wrap-eq-done (codes "nat") run makes) in
      let (same, stay) = done_inj last in (sym same ∙ ap some made_it, ap sent (sym stay) ∙ sends)

  -- the loop over the VLANs, from a manager or none
  nat_vlans-sent :
      (started : Bool) (out_iface : Text) (vs : List VlanConfig) (w w2 : World)
      {made : Option Manager}
      → nat_vlans flush interface_by_name parse_cidr out_iface (managed started out_iface) vs w
        ≡ (done made, w2)
      → (made ≡ managed (started || not (is_empty (nat_networks_of parse_cidr vs))) out_iface)
        × (sent w2 ≡ sent w ++ nat_batch started out_iface (nat_networks_of parse_cidr vs))
  unfolding nat_vlans nat_networks_of nat_batch
  nat_vlans-sent started out_iface [] w w2 e =
      let (same, stay) = done_inj e in
      (sym same ∙ ground arith, ap sent (sym stay) ∙ sym (append-nil (sent w)))
  nat_vlans-sent started out_iface (v ∷ vs) w w2 {made} e =
      let from = managed started out_iface in
      let context = codes "nat: add VLAN " ++ print_int v.id ++ codes " source" in
      let run = nat_vlans flush interface_by_name parse_cidr out_iface in
      elim (Bool-cases v.nat) [
        | inr off ↦
            let stays : run from (v ∷ vs) w ≡ run from vs w = rw (off) refl in
            rw (off) (nat_vlans-sent started out_iface vs w w2 (sym stays ∙ e))
        | inl on ↦ elim (Option-cases (parse_cidr v.address)) [
          | inl bad ↦
              let stays : run from (v ∷ vs) w ≡ run from vs w = rw (on, bad) refl in
              rw (on, bad) (nat_vlans-sent started out_iface vs w w2 (sym stays ∙ e))
          | inr (c, good) ↦
              let adds =
                add_nat_network flush interface_by_name parse_cidr context out_iface from
                  c.network in
              let goes : run from (v ∷ vs) w ≡ and_then (adds w) (λ m. run m vs) =
                rw (on, good) refl in
              let (m1, w1, first, later) =
                and_then-eq-done (adds w) (λ m. run m vs) (sym goes ∙ e) in
              let (made_it, sends) =
                add_nat_network-sent started context out_iface c.network w w1 first in
              let (same, rest) =
                nat_vlans-sent true out_iface vs w1 w2
                  (ap (λ m. run m vs w1) (sym made_it) ∙ later) in
              let nets = nat_networks_of parse_cidr vs in
              let one = nat_batch started out_iface (c.network ∷ []) in
              rw (on, good)
                (
                  same ∙ ground arith,
                  rest
                      ∙ ap (λ ms. ms ++ nat_batch true out_iface nets) sends
                      ∙ append_assoc (sent w) one (nat_batch true out_iface nets)
                      ∙ ap (λ ms. sent w ++ ms)
                          (sym (nat_batch-cons started out_iface c.network nets)),
                )
        ]
      ]

  -- Where batches that are flushed without an error have been sent and the lookup of an interface sends
  -- nothing: a start without an error has sent for NAT nothing where no network has NAT, and else the table
  -- and the chain, and one rule per network, in the order of the configuration. There is a manager in the
  -- second case only.
  pub install_nat-sent :
      (cfg : Config) (w w2 : World) {made : Option Manager}
      → install_nat flush interface_by_name parse_cidr cfg w ≡ (done made, w2)
      → (made ≡ managed (not (is_empty (nat_networks parse_cidr cfg))) cfg.nat.out_interface)
        × (sent w2 ≡ sent w ++ nat_batch false cfg.nat.out_interface (nat_networks parse_cidr cfg))
  unfolding install_nat nat_networks nat_batch
  install_nat-sent cfg w w2 {made} e =
      let run = install_nat flush interface_by_name parse_cidr cfg w in
      let out_iface = cfg.nat.out_interface in
      elim (Bool-cases cfg.nat.enabled) [
        | inr off ↦
            let stays : run ≡ (done none, w) = rw (off) refl in
            let (same, stay) = done_inj (sym stays ∙ e) in
            rw (off) (sym same, ap sent (sym stay) ∙ sym (append-nil (sent w)))
        | inl on ↦ elim (Bool-cases (vlan_mode cfg)) [
          | inl vlans ↦
              let goes : run
                  ≡ nat_vlans flush interface_by_name parse_cidr out_iface none cfg.vlans w =
                rw (on, vlans) refl in
              rw (on, vlans) (nat_vlans-sent false out_iface cfg.vlans w w2 (sym goes ∙ e))
          | inr flat ↦ elim (Option-cases (parse_cidr cfg.lan.address)) [
            | inl bad ↦
                let fails : run ≡ (failed (codes "parse LAN CIDR"), w) = rw (on, flat, bad) refl in
                absurd cc
            | inr (c, good) ↦
                let goes : run
                    ≡ add_nat_network flush interface_by_name parse_cidr (codes "nat") out_iface
                        none c.network w =
                  rw (on, flat, good) refl in
                rw (on, flat, good)
                  (add_nat_network-sent false (codes "nat") out_iface c.network w w2 (sym goes ∙ e))
          ]
        ]
      ]

  -- For VLAN IDs up to 4094, where batches that are flushed without an error have been sent and the lookup
  -- of an interface sends nothing: after a start without an error, a rule drops what one VLAN bridge
  -- forwards to another exactly where one did before, or where some network has NAT, both are bridges of
  -- different VLANs of the configuration, and one of the two VLANs is isolated.
  pub install_rules-drops :
      (cfg : Config) (w w2 : World) {made : Option Manager} (i j : ℤ)
      → ValidIds cfg.vlans
      → IsVlanId i
      → IsVlanId j
      → install_rules flush interface_by_name parse_cidr cfg w ≡ (done made, w2)
      → drops (ifname (bridge_name i)) (ifname (bridge_name j)) (sent w2) ≡ (
          drops (ifname (bridge_name i)) (ifname (bridge_name j)) (sent w)
          || (not (is_empty (nat_networks parse_cidr cfg)) && blocked cfg.vlans cfg.vlans i j))
  unfolding install_rules install_isolation
  install_rules-drops cfg w w2 {made} i j h hi hj e =
      let from = ifname (bridge_name i) in
      let to = ifname (bridge_name j) in
      let nets = nat_networks parse_cidr cfg in
      let out_iface = cfg.nat.out_interface in
      let isolate = install_isolation flush interface_by_name parse_cidr cfg in
      let (m, w1, first, later) =
        and_then-eq-done (install_nat flush interface_by_name parse_cidr cfg w) isolate e in
      let (same, sends) = install_nat-sent cfg w w1 first in
      let before : drops from to (sent w1) ≡ drops from to (sent w) =
        ap (drops from to) sends
        ∙ ground (
          arith,
          drops-append from to (sent w) (nat_batch false out_iface nets),
          drops-nat_batch from to out_iface nets,
        ) in
      let with_manager : (b : Bool)
          → is_empty nets ≡ b
          → isolate (managed (not b) out_iface) w1 ≡ (done made, w2) =
        λ b eq.
          ap (λ x. isolate x w1) (sym (same ∙ ap (λ y. managed (not y) out_iface) eq)) ∙ later in
      elim (Bool-cases (is_empty nets)) [
        | inl none_left ↦
            let ends = done_inj (with_manager true none_left) in
            ground (arith, none_left, before, ap (λ x. drops from to (sent x)) ends.1)
        | inr some_left ↦ ground (
          arith,
          some_left,
          before,
          install_isolation-drops flush interface_by_name parse_cidr sent flush_sends cfg
              (nat_manager out_iface) w1 w2 i j h hi hj (with_manager false some_left),
        )
      ]
