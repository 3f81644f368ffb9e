-- ===== src/Startup/Isolation.antt =====
-- What the start of the program makes of the isolation of VLANs: which bridges may not forward to which.
use gokrazy_router.Prelude.{
  ℕ, ◌≡◌, refl, sym, ap, ◌∙◌, inl, inr, Bool, true, false, not, ◌&&◌, ◌||◌, Option, some, List, [],
  ◌∷◌, ◌++◌, arith, Bool-cases, Option-cases, All, Text, codes, text_eq, text_eq_iff, text_eq_refl,
  is_empty, ℤ, int_eq, int_eq_iff,
}
use gokrazy_router.Prelude.Action.{Action, Outcome, failed, done, wrap, and_then, and_then-eq-done}
use gokrazy_router.Dhcp.State.{Cidr}
use gokrazy_router.Prelude.Decimal.{print_int}
use gokrazy_router.Config.{Config, VlanConfig}
use gokrazy_router.Vlan.{bridge_name}
use gokrazy_router.Nat.{
  Chain, Manager, Message, ifname, add_isolation, isolation_rules, ensure_chain,
}
use gokrazy_router.Nat.Names.{IsVlanId, differ-names}
use gokrazy_router.Nat.Isolation.{
  drops, message_drops, names_one, drops-append, drops-isolation_rules,
}
use gokrazy_router.Startup.{
  other_bridges, isolate_vlan, isolate_vlans, install_isolation, vlan_mode,
}

abbrev pub ValidIds : List VlanConfig → Type 0
ValidIds = All (λ v. IsVlanId v.id)

unfoldable pub has_id : ℤ → List VlanConfig → Bool
has_id i [] = false
has_id i (v ∷ vs) = int_eq v.id i || has_id i vs

unfoldable pub isolated_id : ℤ → List VlanConfig → Bool
isolated_id i [] = false
isolated_id i (v ∷ vs) = (v.isolated && int_eq v.id i) || isolated_id i vs

-- one VLAN is isolated, and both are different VLANs of the configuration
unfoldable pub blocked : List VlanConfig → List VlanConfig → ℤ → ℤ → Bool
unfolding isolated_id has_id
blocked all vs i j =
    not (int_eq i j) && ((isolated_id i vs && has_id j all) || (isolated_id j vs && has_id i all))

text_eq-bridge_name :
    (i j : ℤ) → IsVlanId i → IsVlanId j → text_eq (bridge_name i) (bridge_name j) ≡ int_eq i j
text_eq-bridge_name i j hi hj = elim (Bool-cases (text_eq (bridge_name i) (bridge_name j))) [
  | inl e ↦
      e
      ∙ sym (
          sym (differ-names i j hi hj)
          ∙ ap (λ t. text_eq (ifname t) (ifname (bridge_name j))) ((text_eq_iff _ _).0 e)
          ∙ text_eq_refl (ifname (bridge_name j)))
  | inr e ↦ elim (Bool-cases (int_eq i j)) [
    | inl same ↦
        ap (λ k. text_eq (bridge_name k) (bridge_name j)) ((int_eq_iff i j).0 same)
        ∙ text_eq_refl (bridge_name j)
        ∙ sym same
    | inr other ↦ e ∙ sym other
  ]
]

names_one-other_bridges :
    (i j : ℤ) (all : List VlanConfig)
    → ValidIds all
    → IsVlanId i
    → IsVlanId j
    → names_one (other_bridges (bridge_name i) all) (ifname (bridge_name j))
      ≡ (has_id j all && not (int_eq i j))
unfolding names_one other_bridges has_id
names_one-other_bridges i j [] h hi hj = refl
names_one-other_bridges i j (v ∷ vs) h hi hj = ground (
  arith,
  names_one-other_bridges i j vs h.1 hi hj,
  text_eq-bridge_name v.id i h.0 hi,
  differ-names v.id j h.0 hj,
  int_eq_iff v.id i,
  int_eq_iff v.id j,
  int_eq_iff i j,
)

-- the rules that isolate one VLAN
drops-isolate :
    (chain : Chain) (v : VlanConfig) (all : List VlanConfig) (i j : ℤ)
    → ValidIds all
    → IsVlanId v.id
    → IsVlanId i
    → IsVlanId j
    → drops
        (ifname (bridge_name i))
        (ifname (bridge_name j))
        (isolation_rules chain (bridge_name v.id) (other_bridges (bridge_name v.id) all))
      ≡ ((int_eq v.id i && has_id j all && not (int_eq i j))
          || (int_eq v.id j && has_id i all && not (int_eq i j)))
drops-isolate chain v all i j h hv hi hj =
    drops-isolation_rules chain (bridge_name v.id) (other_bridges (bridge_name v.id) all)
      (ifname (bridge_name i)) (ifname (bridge_name j))
    ∙ ground (
      arith,
      names_one-other_bridges v.id j all h hv hj,
      names_one-other_bridges v.id i all h hv hi,
      differ-names v.id i hv hi,
      differ-names v.id j hv hj,
      int_eq_iff v.id i,
      int_eq_iff v.id j,
      int_eq_iff i j,
    )

drops-ensure_chain : (from to : List ℕ) (m : Manager) → drops from to (ensure_chain m).1 ≡ false
unfolding ensure_chain drops message_drops
drops-ensure_chain from to m = elim (Option-cases m.fwd_chain) [
  | inl e ↦ rw (e) refl
  | inr (chain, e) ↦ rw (e) refl
]

drops-no_others :
    (from to : List ℕ) (chain : Chain) (isolated : Text) (others : List Text)
    → is_empty others ≡ true
    → drops from to (isolation_rules chain isolated others) ≡ false
unfolding drops isolation_rules
drops-no_others from to chain isolated [] h = refl
drops-no_others from to chain isolated (o ∷ os) h = absurd cc

pub and_then-wrap-eq-done :
    {World Value Next : Type 0}
    → (context : Text) (result : Outcome Value × World) (r s : Next) (w2 : World)
    → and_then (wrap context result) (λ _ w. (done r, w)) ≡ (done s, w2)
    → (v : Value) × (result ≡ (done v, w2))
and_then-wrap-eq-done context (failed e, w) r s w2 h = absurd cc
and_then-wrap-eq-done context (done v, w) r s w2 h = (v, ap (λ x. (done v, x.1)) h)

blocked-nil : (vs : List VlanConfig) (i j : ℤ) → is_empty vs ≡ true → blocked vs vs i j ≡ false
unfolding blocked isolated_id has_id
blocked-nil [] i j h = ground arith
blocked-nil (v ∷ vs) i j h = absurd cc

module _ {World : Type 0} (flush : List Message → Action World (Unit {0}))
    (interface_by_name : Text → Action World ℕ) (parse_cidr : Text → Option Cidr)
    (sent : World → List Message)
    -- a batch that is flushed without an error has been sent
    (flush_sends : (batch : List Message) (w w2 : World)
      → flush batch w ≡ (done tt, w2)
      → sent w2 ≡ sent w ++ batch) where
  isolate_vlan-sent :
      (all : List VlanConfig) (v : VlanConfig) (m m2 : Manager) (w w2 : World) (from to : List ℕ)
      → isolate_vlan flush interface_by_name parse_cidr all v m w ≡ (done m2, w2)
      → drops from to (sent w2) ≡ (
          drops from to (sent w)
          || (v.isolated
              && drops from to (
                  isolation_rules
                    (ensure_chain m).0
                    (bridge_name v.id)
                    (other_bridges (bridge_name v.id) all))))
  unfolding isolate_vlan add_isolation
  isolate_vlan-sent all v m m2 w w2 from to e =
      let isolated = bridge_name v.id in
      let others = other_bridges isolated all in
      let rules = isolation_rules (ensure_chain m).0 isolated others in
      let batch = (ensure_chain m).1 ++ rules in
      let run = isolate_vlan flush interface_by_name parse_cidr all v m w in
      elim (Bool-cases v.isolated) [
        | inl on ↦ elim (Bool-cases (is_empty others)) [
          | inl none_left ↦
              let stays : run ≡ (done m, w) = rw (on, none_left) refl in
              ground (
                arith,
                drops-no_others from to (ensure_chain m).0 isolated others none_left,
                ap (λ x. drops from to (sent x.1)) (sym stays ∙ e),
              )
          | inr some_left ↦
              let goes : run
                  ≡ and_then
                      (wrap (codes "nat: isolation for VLAN " ++ print_int v.id) (flush batch w))
                      (λ _ w'. (done (record m { fwd_chain = some (ensure_chain m).0 }), w')) =
                rw (on, some_left) refl in
              let gone =
                and_then-wrap-eq-done (codes "nat: isolation for VLAN " ++ print_int v.id)
                  (flush batch w) (record m { fwd_chain = some (ensure_chain m).0 }) m2 w2
                  (sym goes ∙ e) in
              ground (
                arith,
                on,
                ap (drops from to) (flush_sends batch w w2 gone.1),
                drops-append from to (sent w) batch,
                drops-append from to (ensure_chain m).1 rules,
                drops-ensure_chain from to m,
              )
        ]
        | inr off ↦
            let stays : run ≡ (done m, w) = rw (off) refl in
            ground (arith, off, ap (λ x. drops from to (sent x.1)) (sym stays ∙ e))
      ]

  isolate_vlans-drops :
      (all vs : List VlanConfig) (m m2 : Manager) (w w2 : World) (i j : ℤ)
      → ValidIds all
      → ValidIds vs
      → IsVlanId i
      → IsVlanId j
      → isolate_vlans flush interface_by_name parse_cidr all vs m w ≡ (done m2, w2)
      → drops (ifname (bridge_name i)) (ifname (bridge_name j)) (sent w2)
        ≡ (drops (ifname (bridge_name i)) (ifname (bridge_name j)) (sent w) || blocked all vs i j)
  unfolding isolate_vlans blocked isolated_id
  isolate_vlans-drops all [] m m2 w w2 i j h hs hi hj e =
      ground (arith, ap (λ x. drops (ifname (bridge_name i)) (ifname (bridge_name j)) (sent x.1)) e)
  isolate_vlans-drops all (v ∷ vs) m m2 w w2 i j h hs hi hj e =
      let parts =
        and_then-eq-done (isolate_vlan flush interface_by_name parse_cidr all v m w)
          (isolate_vlans flush interface_by_name parse_cidr all vs) e in
      let (m1, w1, first, later) = parts in
      ground (
        arith,
        isolate_vlan-sent all v m m1 w w1 (ifname (bridge_name i)) (ifname (bridge_name j)) first,
        drops-isolate (ensure_chain m).0 v all i j h hs.0 hi hj,
        isolate_vlans-drops all vs m1 m2 w1 w2 i j h hs.1 hi hj later,
      )

  -- the isolation of all VLANs, where there is a manager of NAT rules
  pub install_isolation-drops :
      (cfg : Config) (m : Manager) (w w2 : World) {made : Option Manager} (i j : ℤ)
      → ValidIds cfg.vlans
      → IsVlanId i
      → IsVlanId j
      → install_isolation flush interface_by_name parse_cidr cfg (some m) w ≡ (done made, w2)
      → drops (ifname (bridge_name i)) (ifname (bridge_name j)) (sent w2) ≡ (
          drops (ifname (bridge_name i)) (ifname (bridge_name j)) (sent w)
          || blocked cfg.vlans cfg.vlans i j)
  unfolding install_isolation vlan_mode
  install_isolation-drops cfg m w w2 {made} i j h hi hj e =
      let run = install_isolation flush interface_by_name parse_cidr cfg (some m) w in
      let loop = isolate_vlans flush interface_by_name parse_cidr cfg.vlans cfg.vlans m w in
      elim (Bool-cases (is_empty cfg.vlans)) [
        | inl flat ↦
            let stays : run ≡ (done (some m), w) = rw (flat) refl in
            ground (
              arith,
              blocked-nil cfg.vlans i j flat,
              ap (λ x. drops (ifname (bridge_name i)) (ifname (bridge_name j)) (sent x.1))
                  (sym stays ∙ e),
            )
        | inr vlans ↦
            let loops : run ≡ and_then loop (λ m' x. (done (some m'), x)) = rw (vlans) refl in
            let (m1, w1, first, later) =
              and_then-eq-done loop (λ m' x. (done (some m'), x)) (sym loops ∙ e) in
            let last : w1 ≡ w2 = ap (λ x. x.1) later in
            ap (λ x. drops (ifname (bridge_name i)) (ifname (bridge_name j)) (sent x)) (sym last)
            ∙ isolate_vlans-drops cfg.vlans cfg.vlans m m1 w w1 i j h h hi hj first
      ]
