-- ===== src/Tests/Networks.antt =====
-- The NAT rules and the isolation of two VLANs: the world is the list of the messages that were sent.
use gokrazy_router.Prelude.{
  ℕ, ◌-◌, ◌≡◌, refl, sym, ap, true, false, not, ◌&&◌, ◌||◌, Option, none, some, List, [], ◌∷◌, ◌++◌,
  arith, length, Text, codes, text_eq, is_empty, pos, int_eq,
}
use gokrazy_router.Prelude.Action.{Action, Outcome, failed, done}
use gokrazy_router.Prelude.Decimal.{print_int, print_nat, digits_onto}
use gokrazy_router.Net.{to4}
use gokrazy_router.Config.{Config, VlanConfig, default_config, empty_dhcp}
use gokrazy_router.Vlan.{
  Netlink, bridge_name, setup_one, setup_vlans, setup_bridge, enslave_all, enable_forwarding,
}
use gokrazy_router.Startup.Network.{setup_network, start_network}
use gokrazy_router.Nat.{
  Manager, Message, ifname, copy_into, masquerade, drop_rule, isolation_rules, ensure_chain, setup,
  add_source, add_isolation,
}
use gokrazy_router.Nat.Names.{zeros, ifname-bridge_name_inj}
use gokrazy_router.Nat.Isolation.{drops}
use gokrazy_router.Startup.{
  vlan_mode, other_bridges, add_nat_network, nat_vlans, install_nat, isolate_vlan, isolate_vlans,
  install_isolation, install_rules,
}
use gokrazy_router.Startup.Isolation.{blocked}
use gokrazy_router.Startup.Hooks.{hooked, install_rules-blocked}
use gokrazy_router.Startup.Masquerade.{
  nat_networks, nat_batch, nat_manager, managed, install_nat-sent,
}
use gokrazy_router.Tests.Addresses.{parse_cidr, router_text}

abbrev World : Type 0
World = List Message

abbrev flush : List Message → Action World (Unit {0})
flush batch w = (done tt, w ++ batch)

abbrev interface_by_name : Text → Action World ℕ
interface_by_name name w = (done 2, w)

abbrev guests : VlanConfig
guests = record {
  id = pos 20;
  name = codes "guests";
  ports = [];
  address = router_text;
  dhcp = empty_dhcp;
  nat = true;
  isolated = true;
}

abbrev office : VlanConfig
office = record guests { id = pos 10; nat = false; isolated = false }

abbrev config : Config
config = record default_config { vlans = guests ∷ office ∷ [] }

flush_sends :
    (batch : List Message) (w w2 : World) → flush batch w ≡ (done tt, w2) → w2 ≡ w ++ batch
flush_sends batch w w2 h = sym (ap (λ r. r.1) h)

lookup_sends_nothing :
    (name : Text) (w w2 : World) (index : ℕ) → interface_by_name name w ≡ (done index, w2) → w2 ≡ w
lookup_sends_nothing name w w2 index h = sym (ap (λ r. r.1) h)

program : Unit {0}
unfolding to4 bridge_name print_int print_nat digits_onto ifname copy_into masquerade drop_rule
    isolation_rules ensure_chain setup add_source add_isolation vlan_mode other_bridges
    add_nat_network nat_vlans install_nat isolate_vlan isolate_vlans install_isolation install_rules
    text_eq
program = tt

ifname-bridge_name_inj_example :
    (ifname (codes "enp0s31f6") ≡ codes "enp0s31f6" ++ zeros (16 - length (codes "enp0s31f6")))
    × (text_eq (ifname (bridge_name (pos 1))) (ifname (bridge_name (pos 4094)))
        ≡ int_eq (pos 1) (pos 4094))
ifname-bridge_name_inj_example =
    ifname-bridge_name_inj (codes "enp0s31f6") (pos 1) (pos 4094) (omega arith) (omega arith)
      (omega arith)

abbrev after_nat : Outcome (Option Manager) × World
after_nat = install_nat flush interface_by_name parse_cidr config []

nat_run : after_nat ≡ (done (some (nat_manager (codes "wan"))), after_nat.1)
unfolding program
nat_run = refl

install_nat-sent_example :
    (some (nat_manager (codes "wan"))
      ≡ managed (not (is_empty (nat_networks parse_cidr config))) (codes "wan"))
    × (after_nat.1 ≡ [] ++ nat_batch false (codes "wan") (nat_networks parse_cidr config))
install_nat-sent_example =
    install_nat-sent flush interface_by_name parse_cidr (λ w. w) flush_sends lookup_sends_nothing
      config [] after_nat.1 nat_run

abbrev after_start : Outcome (Option Manager) × World
after_start = install_rules flush interface_by_name parse_cidr config []

made : Option Manager
unfolding program
made = elim after_start.0 [ done m ↦ m | failed e ↦ none ]

start_run : after_start ≡ (done made, after_start.1)
unfolding program made
start_run = refl

-- the guests may not forward to the office
install_rules-blocked_example :
    (drops (ifname (bridge_name (pos 20))) (ifname (bridge_name (pos 10))) after_start.1 ≡ (
      drops (ifname (bridge_name (pos 20))) (ifname (bridge_name (pos 10))) []
      || (not (is_empty (nat_networks parse_cidr config))
          && blocked config.vlans config.vlans (pos 20) (pos 10))))
    × (hooked false after_start.1 ≡ hooked false [])
install_rules-blocked_example =
    install_rules-blocked flush interface_by_name parse_cidr (λ w. w) flush_sends
      lookup_sends_nothing config [] after_start.1 (pos 20) (pos 10)
      (omega arith, (omega arith, tt)) (omega arith) (omega arith) start_run

guests_blocked :
    drops (ifname (bridge_name (pos 20))) (ifname (bridge_name (pos 10))) after_start.1 ≡ true
unfolding program drops
guests_blocked = refl

abbrev calls : Netlink World Text (Unit {0})
calls = record {
  parse_addr = λ t. done tt;
  link_add_bridge = λ name w. (done tt, w);
  link_by_name = λ name w. (done name, w);
  link_set_master = λ a b w. (done tt, w);
  link_set_up = λ a w. (done tt, w);
  addr_add = λ a b w. (done tt, w);
  is_exist = λ e. false;
}

abbrev refused : Text → Text → Action World (Unit {0})
refused path text w = (failed (codes "read-only"), w)

-- no rule is sent where the forwarding cannot be enabled
refused_run :
    start_network calls refused flush interface_by_name parse_cidr config []
    ≡ (failed (codes "forwarding: enable ip_forward: read-only"), [])
unfolding program start_network setup_network setup_vlans setup_one setup_bridge enslave_all
    enable_forwarding
refused_run = refl
