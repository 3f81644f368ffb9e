-- ===== src/Pxe/Listen.antt =====
-- The sockets of pkg/pxe/pxe.go: `Start`, `listenUDPOn` and `listenTransfer`. The calls of the operating system and
-- of `net` are parameters.
pub mod Descriptors
use gokrazy_router.Prelude.{
  ℕ, ◌+◌, ◌/◌, not, Option, none, some, List, [], ◌∷◌, ◌++◌, if◌then◌else◌, Text, codes, is_empty,
}
use gokrazy_router.Prelude.Action.{Action, Outcome, failed, done, wrap, and_then, ◌>>=◌, return}
use gokrazy_router.Net.{Ip, to4}
use gokrazy_router.Config.{PxeConfig}
use gokrazy_router.Pxe.Image.{ImageServer, set_mac_images}
use gokrazy_router.Pxe.Wire.{UdpAddr}

-- `net.ListenUDP` on IPv4, `Socket`, `SetsockoptInt` for `SO_REUSEADDR`, `BindToDevice`, `Bind`,
-- `net.FilePacketConn` and `Close`; a descriptor is a number
pub record Sockets (World : Type 0) : Type 0 where
  pub listen_udp : UdpAddr → Action World ℕ
  pub socket : Action World ℕ
  pub set_reuse : ℕ → Action World (Unit {0})
  pub bind_to_device : ℕ → Text → Action World (Unit {0})
  pub bind : ℕ → UdpAddr → Action World (Unit {0})
  pub file_packet_conn : ℕ → Action World ℕ
  pub close : ℕ → World → World
  -- the addresses of an interface, where one that is no `IPNet` is none
  pub interface_addrs : Text → Action World (List (Option Ip))
  -- `MkdirAll`
  pub mkdir_all : Text → Action World (Unit {0})

abbrev pub any_address : Ip
any_address = 0 ∷ 0 ∷ 0 ∷ 0 ∷ []

-- the address that `listenUDPOn` binds
unfoldable pub socket_address : UdpAddr → UdpAddr
unfolding to4
socket_address addr = record addr {
  ip = if is_empty (to4 addr.ip) then any_address else to4 addr.ip;
}

-- the first IPv4 address of the list, in `ifaceIPv4`
unfoldable pub first_ipv4 : List (Option Ip) → Option Ip
unfolding to4
first_ipv4 [] = none
first_ipv4 (none ∷ addrs) = first_ipv4 addrs
first_ipv4 (some ip ∷ addrs) =
    let rest = first_ipv4 addrs in if is_empty (to4 ip) then rest else some (to4 ip)

module _ {World : Type 0} (net : Sockets World) where
  -- the calls on the socket, from `SetsockoptInt` on
  unfoldable pub bind_socket : UdpAddr → Text → ℕ → Action World ℕ
  unfolding socket_address
  bind_socket addr iface fd = do
    _ ← (λ w. wrap (codes "SO_REUSEADDR") (net.set_reuse fd w))
    _ ← (λ w. wrap (codes "SO_BINDTODEVICE(" ++ iface ++ codes ")") (net.bind_to_device fd iface w))
    _ ← (λ w. wrap (codes "bind") (net.bind fd (socket_address addr) w))
    net.file_packet_conn fd

  -- the call of `Close` that is deferred
  abbrev pub closing : ℕ → Outcome ℕ × World → Outcome ℕ × World
  closing fd r = (r.0, net.close fd r.1)

  -- `listenUDPOn`
  unfoldable pub listen_udp_on : UdpAddr → Text → Action World ℕ
  unfolding bind_socket
  listen_udp_on addr iface w =
      if is_empty iface
      then net.listen_udp addr w
      else and_then (wrap (codes "socket") (net.socket w))
          (λ fd w1. closing fd (bind_socket addr iface fd w1))

  abbrev found_ipv4 : Text → Option Ip → Action World Ip
  found_ipv4 name none w = (failed (codes "no IPv4 address on " ++ name), w)
  found_ipv4 name (some ip) w = (done ip, w)

  -- `ifaceIPv4`
  unfoldable pub iface_ipv4 : Text → Action World Ip
  unfolding first_ipv4
  iface_ipv4 name = do addrs ← net.interface_addrs name; found_ipv4 name (first_ipv4 addrs)

  -- what follows `ifaceIPv4`, whose error is passed over
  abbrev pub listen_from : Text → Outcome Ip × World → Outcome ℕ × World
  listen_from iface (failed e, w) = listen_udp_on (record { ip = any_address; port = 0 }) iface w
  listen_from iface (done ip, w) = listen_udp_on (record { ip = ip; port = 0 }) iface w

  -- `listenTransfer`
  unfoldable pub listen_transfer : PxeConfig → Action World ℕ
  unfolding listen_udp_on iface_ipv4
  listen_transfer cfg w =
      if is_empty cfg.bind_interface
      then listen_udp_on (record { ip = any_address; port = 0 }) [] w
      else listen_from cfg.bind_interface (iface_ipv4 cfg.bind_interface w)

  -- `Start` of an enabled server: its directory and its socket
  unfoldable pub start_listening : (Text → Outcome UdpAddr) → PxeConfig → Action World ℕ
  unfolding listen_udp_on
  start_listening resolve cfg =
      let root = if is_empty cfg.tftp_root then codes "/tmp/tftpboot" else cfg.tftp_root in
      let listen = if is_empty cfg.listen then codes "0.0.0.0:69" else cfg.listen in
      (do
        _ ← (λ w. wrap (codes "pxe: mkdir " ++ root) (net.mkdir_all root w))
        addr ← (λ w. wrap (codes "pxe: resolve " ++ listen) (resolve listen, w))
        (λ w. wrap (codes "pxe: listen " ++ listen) (listen_udp_on addr cfg.bind_interface w)))

  -- `Start`: the images, and the socket where the server is enabled
  unfoldable pub start :
      (Text → Outcome UdpAddr)
      → PxeConfig
      → ImageServer
      → World
      → ImageServer × (Outcome (Option ℕ) × World)
  unfolding set_mac_images start_listening
  start resolve cfg s w =
      let images = set_mac_images cfg.mac_images s in
      if not cfg.enabled
      then (images, (done none, w))
      else (images, and_then (start_listening resolve cfg w) (λ conn w1. (done (some conn), w1)))
