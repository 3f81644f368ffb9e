-- ===== src/Startup/Network.antt =====
-- The first steps of cmd/gokrazy-router/main.go: the bridges, then the forwarding of packets, then the rules.
use gokrazy_router.Prelude.{ℕ, Option, List, if◌then◌else◌, Text, codes}
use gokrazy_router.Prelude.Action.{Action, wrap, ◌>>=◌, return}
use gokrazy_router.Config.{Config}
use gokrazy_router.Dhcp.State.{Cidr}
use gokrazy_router.Nat.{Manager, Message}
use gokrazy_router.Startup.{vlan_mode, install_rules}
use gokrazy_router.Vlan.{Netlink, setup_bridge, setup_vlans, enable_forwarding}

module _ {World Link Addr : Type 0} (net : Netlink World Link Addr)
    (write_file : Text → Text → Action World (Unit {0}))
    (flush : List Message → Action World (Unit {0})) (interface_by_name : Text → Action World ℕ)
    (parse_cidr : Text → Option Cidr) where
  -- the bridges of the VLANs, or that of the LAN
  unfoldable pub setup_network : Config → Action World (Unit {0})
  unfolding setup_vlans setup_bridge vlan_mode
  setup_network cfg =
      if vlan_mode cfg
      then (do _ ← (λ w. wrap (codes "vlan") (setup_vlans net parse_cidr cfg.vlans w)); return tt)
      else (do
        _ ← (λ w.
            wrap (codes "netsetup")
              (setup_bridge net cfg.lan.bridge cfg.lan.interfaces cfg.lan.address w))
        return tt)

  unfoldable pub start_network : Config → Action World (Option Manager)
  unfolding setup_network enable_forwarding install_rules
  start_network cfg = do
    _ ← setup_network cfg
    _ ← (λ w. wrap (codes "forwarding") (enable_forwarding write_file w))
    install_rules flush interface_by_name parse_cidr cfg
