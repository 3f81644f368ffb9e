-- ===== src/Startup/AccessPoint/Endings.antt =====
-- How the start of the access point in cmd/gokrazy-router/main.go ends.
use gokrazy_router.Prelude.{
  ◌+◌, ◌≤◌, ◌≡◌, ◌⊎◌, true, false, Option, none, some, [], ◌∷◌, Text, codes,
}
use gokrazy_router.Prelude.Action.{failed, done}
use gokrazy_router.Config.{Config}
use gokrazy_router.Dhcp.State.{Cidr}
use gokrazy_router.Nat.{Manager, add_rule, masquerade}
use gokrazy_router.Wifi
use gokrazy_router.Wifi.{Ap, write_config}
use gokrazy_router.Startup.Dhcp.{wifi_bridge}
use gokrazy_router.Startup.AccessPoint.{Radio, wifi_interface, is_routed}

module _ {World Link Addr : Type 0} (radio : Radio World Link Addr) (cfg : Config) where
  -- the files of hostapd are written and its directory made, and then hostapd is started on its file
  abbrev pub Launched : Ap → World → World → Type 0
  Launched point w w2 =
      (w1 : World) × (write_config radio.write_file point w ≡ (done tt, w1))
      × (w3 : World) × (radio.mkdir_all (codes "/tmp/hostapd") w1 ≡ (done tt, w3))
      × (w4 : World) × (radio.stdout_pipe w3 ≡ (done tt, w4))
      × (radio.start_process (codes "/usr/local/bin/hostapd") (codes "/tmp/hostapd.conf" ∷ []) w4
          ≡ (done tt, w2))

  -- the address is added to the interface, or is there, and then the interface is set up
  abbrev pub Assigned : Text → Text → World → World → Type 0
  Assigned iface cidr w w2 =
      (link : Link) × (w1 : World) × (radio.net.link_by_name iface w ≡ (done link, w1))
      × (addr : Addr) × (radio.net.parse_addr cidr ≡ done addr)
      × (w3 : World) × ((radio.net.addr_add link addr w1 ≡ (done tt, w3))
          ⊎ ((e : Text) × (radio.net.addr_add link addr w1 ≡ (failed e, w3))
              × (radio.net.is_exist e ≡ true)))
      × (radio.net.link_set_up link w3 ≡ (done tt, w2))

  -- what a start in routed mode has sent to nftables
  abbrev pub SentSource : Option Manager → World → World → Type 0
  SentSource none w w2 = w ≡ w2
  SentSource (some m) w w2 =
      (c : Cidr) × (radio.parse_cidr cfg.wifi.address ≡ some c)
      × (radio.flush (add_rule m.chain (masquerade m.out_iface c.network) ∷ []) w ≡ (done tt, w2))

  -- in routed mode the interface has its address, and the manager the rule for its network
  abbrev pub Routed : Option Manager → Ap → World → World → Type 0
  Routed nat point w w2 =
      ((is_routed cfg point ≡ false) × (w ≡ w2))
      ⊎ ((is_routed cfg point ≡ true)
          × (w1 : World) × Assigned (wifi_interface cfg) cfg.wifi.address w w1
          × SentSource nat w1 w2)

  -- the access point of the configuration, whose hostapd has been started
  abbrev pub Runs : Option Manager → Option Ap → World → Type 0
  Runs nat found w =
      (point : Ap) × (found ≡ some point)
      × (Wifi.new radio.load_map cfg.wifi (wifi_bridge cfg) ≡ done point)
      × (w1 : World) × (w2 : World) × Launched point w1 w2
      × Routed nat point w2 w

  -- the wait that ran out, or a start
  abbrev pub Started : Option Manager → Option Ap → World → World → Type 0
  Started nat found w w2 =
      ((found ≡ none) × (radio.clock.now w + 120000 ≤ radio.clock.now w2)) ⊎ Runs nat found w2
