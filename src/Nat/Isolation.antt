-- ===== src/Nat/Isolation.antt =====
-- Which traffic between VLAN bridges the rules of `AddIsolation` drop. A packet that is forwarded has the
-- names of two interfaces, in the sixteen bytes of the kernel.
use gokrazy_router.Prelude.{
  ℕ, ◌≡◌, refl, Bool, false, ◌&&◌, ◌||◌, List, [], ◌∷◌, ◌++◌, arith, Text, text_eq,
}
use gokrazy_router.Nat.{
  Expr, cmp, load_meta, verdict_drop, iifname, oifname, Chain, Message, add_rule, ifname, drop_rule,
  isolation_rules,
}

-- a rule that compares both names with those of the packet and drops it where they are equal
unfoldable pub rule_drops : List ℕ → List ℕ → List Expr → Bool
rule_drops from to (load_meta iifname ∷ cmp i ∷ load_meta oifname ∷ cmp o ∷ verdict_drop ∷ []) =
    text_eq i from && text_eq o to
rule_drops from to _ = false

unfoldable pub message_drops : List ℕ → List ℕ → Message → Bool
message_drops from to (add_rule chain rule) = rule_drops from to rule
message_drops from to _ = false

-- some message of the batch adds such a rule
unfoldable pub drops : List ℕ → List ℕ → List Message → Bool
unfolding message_drops rule_drops
drops from to [] = false
drops from to (m ∷ ms) = message_drops from to m || drops from to ms

pub drops-append :
    (from to : List ℕ) (ms ns : List Message)
    → drops from to (ms ++ ns) ≡ (drops from to ms || drops from to ns)
unfolding drops
drops-append from to [] ns = refl
drops-append from to (m ∷ ms) ns = ground (arith, drops-append from to ms ns)

unfoldable pub names_one : List Text → List ℕ → Bool
names_one [] name = false
names_one (b ∷ bs) name = text_eq (ifname b) name || names_one bs name

-- the loop of `AddIsolation` drops both directions between the isolated bridge and the others
pub drops-isolation_rules :
    (chain : Chain) (isolated : Text) (others : List Text) (from to : List ℕ)
    → drops from to (isolation_rules chain isolated others) ≡ (
        (text_eq (ifname isolated) from && names_one others to)
        || (text_eq (ifname isolated) to && names_one others from))
unfolding drops isolation_rules names_one drop_rule
drops-isolation_rules chain isolated [] from to = ground arith
drops-isolation_rules chain isolated (other ∷ others) from to =
    ground (arith, drops-isolation_rules chain isolated others from to)
