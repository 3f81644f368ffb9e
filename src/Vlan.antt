-- ===== src/Vlan.antt =====
-- pkg/netsetup/netsetup.go and pkg/vlan/vlan.go: the bridges of the LAN and of the VLANs. The calls of
-- the netlink library are parameters, which act on a world of their own; links and addresses are what
-- the library gives.
use gokrazy_router.Prelude.{
  Bool, Option, none, some, List, [], ◌∷◌, ◌++◌, if◌then◌else◌, Text, codes, ℤ,
}
use gokrazy_router.Prelude.Decimal.{print_int}
use gokrazy_router.Prelude.Action.{Action, Outcome, failed, done, and_then, ◌>>=◌, return, wrap}
use gokrazy_router.Net.{IpNet}
use gokrazy_router.Config.{VlanConfig}
use gokrazy_router.Dhcp.State.{Cidr}

-- the calls of the netlink library, and `os.IsExist` on its errors
pub record Netlink (World Link Addr : Type 0) : Type 0 where
  pub parse_addr : Text → Outcome Addr
  pub link_add_bridge : Text → Action World (Unit {0})
  pub link_by_name : Text → Action World Link
  pub link_set_master : Link → Link → Action World (Unit {0})
  pub link_set_up : Link → Action World (Unit {0})
  pub addr_add : Link → Addr → Action World (Unit {0})
  pub is_exist : Text → Bool

-- `VLANBridge`
pub record VlanBridge (Link : Type 0) : Type 0 where
  pub id : ℤ
  pub name : Text
  pub bridge : Link
  pub subnet : Option IpNet

-- `BridgeName`
unfoldable pub bridge_name : ℤ → Text
bridge_name id = codes "br-vlan" ++ print_int id

-- `err != nil && !os.IsExist(err)`: an error that says that the object exists is no error
abbrev pub allow_exist :
    {World : Type 0} → (Text → Bool) → Outcome (Unit {0}) × World → Outcome (Unit {0}) × World
allow_exist is_exist (failed e, w) = if is_exist e then (done tt, w) else (failed e, w)
allow_exist is_exist (done v, w) = (done v, w)

abbrev lift : {World Value : Type 0} → Outcome Value → Action World Value
lift o w = (o, w)

-- `EnableForwarding` of netsetup, over `os.WriteFile`
unfoldable pub enable_forwarding :
    {World : Type 0} → (Text → Text → Action World (Unit {0})) → Action World (Unit {0})
enable_forwarding write_file w =
    wrap (codes "enable ip_forward")
      (write_file (codes "/proc/sys/net/ipv4/ip_forward") (codes "1") w)

module _ {World Link Addr : Type 0} (net : Netlink World Link Addr) where
  -- a port that was looked up; one that is not there is skipped
  unfoldable pub enslave_found :
      Text → Link → Text → Outcome Link × World → Outcome (Unit {0}) × World
  enslave_found bridge br port (failed e, w) = (done tt, w)
  enslave_found bridge br port (done link, w) =
      and_then
        (wrap (codes "enslave " ++ port ++ codes " to " ++ bridge) (net.link_set_master link br w))
        (λ _ w2. wrap (codes "bring up " ++ port) (net.link_set_up link w2))

  -- the loop over the ports
  unfoldable pub enslave_all : Text → Link → List Text → Action World (Unit {0})
  unfolding enslave_found
  enslave_all bridge br [] w = (done tt, w)
  enslave_all bridge br (port ∷ ports) w =
      and_then (enslave_found bridge br port (net.link_by_name port w))
        (λ _. enslave_all bridge br ports)

  -- `netsetup.Setup`, and the body of `setupOne`, which is the same
  unfoldable pub setup_bridge : Text → List Text → Text → Action World Link
  unfolding enslave_all
  setup_bridge bridge ports address = do
    ip_net ← (λ w. wrap (codes "parse address " ++ address) (lift (net.parse_addr address) w))
    _ ← (λ w.
        wrap (codes "create bridge " ++ bridge)
          (allow_exist net.is_exist (net.link_add_bridge bridge w)))
    br ← (λ w. wrap (codes "get bridge " ++ bridge) (net.link_by_name bridge w))
    _ ← enslave_all bridge br ports
    _ ← (λ w.
        wrap (codes "assign " ++ address ++ codes " to " ++ bridge)
          (allow_exist net.is_exist (net.addr_add br ip_net w)))
    _ ← (λ w. wrap (codes "bring up " ++ bridge) (net.link_set_up br w))
    return br

  -- `BridgeAddIface` of netsetup
  unfoldable pub bridge_add_iface : Text → Text → Action World (Unit {0})
  bridge_add_iface bridge iface = do
    br ← (λ w. wrap (codes "get bridge " ++ bridge) (net.link_by_name bridge w))
    link ← (λ w. wrap (codes "get interface " ++ iface) (net.link_by_name iface w))
    _ ← (λ w.
        wrap (codes "enslave " ++ iface ++ codes " to " ++ bridge) (net.link_set_master link br w))
    (λ w. wrap (codes "bring up " ++ iface) (net.link_set_up link w))

  -- `AddInterface` of vlan
  unfoldable pub add_interface : ℤ → Text → Action World (Unit {0})
  unfolding bridge_add_iface bridge_name
  add_interface vlan_id iface = bridge_add_iface (bridge_name vlan_id) iface

  module _ (parse_cidr : Text → Option Cidr) where
    abbrev subnet_of : Text → Option IpNet
    subnet_of address = elim (parse_cidr address) [ none ↦ none | some c ↦ some c.network ]

    unfoldable pub setup_one : VlanConfig → Action World (VlanBridge Link)
    unfolding setup_bridge bridge_name
    setup_one vc = do
      br ← setup_bridge (bridge_name vc.id) vc.ports vc.address
      return (record { id = vc.id; name = vc.name; bridge = br; subnet = subnet_of vc.address })

    -- `vlan.Setup`: the first VLAN that fails ends the loop
    unfoldable pub setup_vlans : List VlanConfig → Action World (List (VlanBridge Link))
    unfolding setup_one
    setup_vlans [] = return []
    setup_vlans (vc ∷ vcs) = do
      vb ← (λ w.
          wrap (codes "vlan " ++ print_int vc.id ++ codes " (" ++ vc.name ++ codes ")")
            (setup_one vc w))
      rest ← setup_vlans vcs
      return (vb ∷ rest)
