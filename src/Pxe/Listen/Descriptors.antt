-- ===== src/Pxe/Listen/Descriptors.antt =====
-- How many descriptors `listenUDPOn` and `listenTransfer` of pkg/pxe/pxe.go leave open.
use gokrazy_router.Prelude.{
  ℕ, ◌+◌, ◌-◌, ◌≡◌, refl, ap, ◌∙◌, inl, inr, Option, none, some, List, [], ◌++◌, arith,
  if◌then◌else◌, Bool-cases, Text, codes, is_empty,
}
use gokrazy_router.Prelude.Action.{Action, Outcome, failed, done, wrap, and_then}
use gokrazy_router.Net.{Ip}
use gokrazy_router.Config.{PxeConfig}
use gokrazy_router.Pxe.Wire.{UdpAddr}
use gokrazy_router.Pxe.Files.Descriptors.{opened_by}
use gokrazy_router.Pxe.Listen.{
  Sockets, socket_address, any_address, bind_socket, closing, listen_udp_on, iface_ipv4, first_ipv4,
  found_ipv4, listen_from, listen_transfer, start_listening,
}

-- how the calls change the number of open descriptors: one more for a socket and for the connection that is
-- made from one
pub record Counts (World : Type 0) (net : Sockets World) : Type 0 where
  pub descriptors : World → ℕ
  pub listen_counts :
      (addr : UdpAddr) (w : World)
      → descriptors (net.listen_udp addr w).1 ≡ opened_by (net.listen_udp addr w).0 + descriptors w
  pub socket_counts :
      (w : World) → descriptors (net.socket w).1 ≡ opened_by (net.socket w).0 + descriptors w
  pub conn_counts :
      (fd : ℕ) (w : World)
      → descriptors (net.file_packet_conn fd w).1
        ≡ opened_by (net.file_packet_conn fd w).0 + descriptors w
  pub close_counts : (fd : ℕ) (w : World) → descriptors (net.close fd w) ≡ descriptors w - 1
  pub reuse_keeps : (fd : ℕ) (w : World) → descriptors (net.set_reuse fd w).1 ≡ descriptors w
  pub device_keeps :
      (fd : ℕ) (iface : Text) (w : World)
      → descriptors (net.bind_to_device fd iface w).1 ≡ descriptors w
  pub bind_keeps :
      (fd : ℕ) (addr : UdpAddr) (w : World) → descriptors (net.bind fd addr w).1 ≡ descriptors w
  pub mkdir_keeps : (dir : Text) (w : World) → descriptors (net.mkdir_all dir w).1 ≡ descriptors w
  pub addrs_keep :
      (name : Text) (w : World) → descriptors (net.interface_addrs name w).1 ≡ descriptors w

module _ {World : Type 0} (net : Sockets World) (counts : Counts World net) where
  -- one descriptor more than `n` where there is a result, else `n`
  abbrev Opens : ℕ → Outcome ℕ × World → Type 0
  Opens n r = counts.descriptors r.1 ≡ opened_by r.0 + n

  -- a step that opens nothing
  quiet_step :
      {A : Type 0}
      → (context : Text) (r : Outcome A × World) (next : A → Action World ℕ) (n : ℕ)
      → counts.descriptors r.1 ≡ n
      → ((v : A) (w : World) → counts.descriptors w ≡ n → Opens n (next v w))
      → Opens n (and_then (wrap context r) next)
  quiet_step context (failed e, w) next n h k = omega (arith, h)
  quiet_step context (done v, w) next n h k = k v w h

  bind_socket-Opens :
      (addr : UdpAddr) (iface : Text) (fd : ℕ) (w : World)
      → Opens (counts.descriptors w) (bind_socket net addr iface fd w)
  unfolding bind_socket
  bind_socket-Opens addr iface fd w =
      let n = counts.descriptors w in
      quiet_step (codes "SO_REUSEADDR") (net.set_reuse fd w) _ n (counts.reuse_keeps fd w)
        (λ u1 w1 h1.
          quiet_step (codes "SO_BINDTODEVICE(" ++ iface ++ codes ")")
            (net.bind_to_device fd iface w1) _ n (counts.device_keeps fd iface w1 ∙ h1)
            (λ u2 w2 h2.
              quiet_step (codes "bind") (net.bind fd (socket_address addr) w2) _ n
                (counts.bind_keeps fd (socket_address addr) w2 ∙ h2)
                (λ u3 w3 h3. omega (arith, counts.conn_counts fd w3, h3))))

  closing-Opens : (fd n : ℕ) (r : Outcome ℕ × World) → Opens (1 + n) r → Opens n (closing net fd r)
  closing-Opens fd n (failed e, w) h = omega (arith, h, counts.close_counts fd w)
  closing-Opens fd n (done conn, w) h = omega (arith, h, counts.close_counts fd w)

  with_socket-Opens :
      (addr : UdpAddr) (iface : Text) (n : ℕ) (r : Outcome ℕ × World)
      → Opens n r
      → Opens n (
          and_then
            (wrap (codes "socket") r)
            (λ fd w1. closing net fd (bind_socket net addr iface fd w1)))
  with_socket-Opens addr iface n (failed e, w) h = h
  with_socket-Opens addr iface n (done fd, w) h =
      closing-Opens fd n (bind_socket net addr iface fd w) (
        bind_socket-Opens addr iface fd w
        ∙ ap (λ k. opened_by (bind_socket net addr iface fd w).0 + k) h)

  listen_udp_on-Opens :
      (addr : UdpAddr) (iface : Text) (w : World)
      → Opens (counts.descriptors w) (listen_udp_on net addr iface w)
  unfolding listen_udp_on
  listen_udp_on-Opens addr iface w = elim (Bool-cases (is_empty iface)) [
    | inl e ↦ rw e (counts.listen_counts addr w)
    | inr e ↦ rw e (
        with_socket-Opens addr iface (counts.descriptors w) (net.socket w) (counts.socket_counts w))
  ]

  found_ipv4-keeps :
      (name : Text) (ip : Option Ip) (w : World)
      → counts.descriptors (found_ipv4 net name ip w).1 ≡ counts.descriptors w
  found_ipv4-keeps name none w = refl
  found_ipv4-keeps name (some ip) w = refl

  lookup-keeps :
      (name : Text) (n : ℕ) (r : Outcome (List (Option Ip)) × World)
      → counts.descriptors r.1 ≡ n
      → counts.descriptors (and_then r (λ addrs. found_ipv4 net name (first_ipv4 addrs))).1 ≡ n
  lookup-keeps name n (failed e, w) h = h
  lookup-keeps name n (done addrs, w) h = found_ipv4-keeps name (first_ipv4 addrs) w ∙ h

  listen_from-Opens :
      (iface : Text) (n : ℕ) (r : Outcome Ip × World)
      → counts.descriptors r.1 ≡ n
      → Opens n (listen_from net iface r)
  listen_from-Opens iface n (failed e, w) h =
      listen_udp_on-Opens (record { ip = any_address; port = 0 }) iface w
      ∙ ap
          (λ k. opened_by (listen_udp_on net (record { ip = any_address; port = 0 }) iface w).0 + k)
          h
  listen_from-Opens iface n (done ip, w) h =
      listen_udp_on-Opens (record { ip = ip; port = 0 }) iface w
      ∙ ap (λ k. opened_by (listen_udp_on net (record { ip = ip; port = 0 }) iface w).0 + k) h

  listen_transfer-Opens :
      (cfg : PxeConfig) (w : World) → Opens (counts.descriptors w) (listen_transfer net cfg w)
  unfolding listen_transfer iface_ipv4
  listen_transfer-Opens cfg w = elim (Bool-cases (is_empty cfg.bind_interface)) [
    | inl e ↦ rw e (listen_udp_on-Opens (record { ip = any_address; port = 0 }) [] w)
    | inr e ↦ rw e (
        listen_from-Opens cfg.bind_interface (counts.descriptors w)
          (iface_ipv4 net cfg.bind_interface w)
          (lookup-keeps cfg.bind_interface (counts.descriptors w)
            (net.interface_addrs cfg.bind_interface w) (counts.addrs_keep cfg.bind_interface w)))
  ]

  wrap-Opens :
      (context : Text) (n : ℕ) (r : Outcome ℕ × World) → Opens n r → Opens n (wrap context r)
  wrap-Opens context n (failed e, w) h = h
  wrap-Opens context n (done v, w) h = h

  start_listening-Opens :
      (resolve : Text → Outcome UdpAddr) (cfg : PxeConfig) (w : World)
      → Opens (counts.descriptors w) (start_listening net resolve cfg w)
  unfolding start_listening
  start_listening-Opens resolve cfg w =
      let n = counts.descriptors w in
      let root = if is_empty cfg.tftp_root then codes "/tmp/tftpboot" else cfg.tftp_root in
      let listen = if is_empty cfg.listen then codes "0.0.0.0:69" else cfg.listen in
      quiet_step (codes "pxe: mkdir " ++ root) (net.mkdir_all root w) _ n
        (counts.mkdir_keeps root w)
        (λ u1 w1 h1.
          quiet_step (codes "pxe: resolve " ++ listen) (resolve listen, w1) _ n h1
            (λ addr w2 h2.
              wrap-Opens (codes "pxe: listen " ++ listen) n
                (listen_udp_on net addr cfg.bind_interface w2)
                (listen_udp_on-Opens addr cfg.bind_interface w2
                  ∙ ap (λ k. opened_by (listen_udp_on net addr cfg.bind_interface w2).0 + k) h2)))

  -- Where a socket and the connection made from it are a descriptor each, and the other calls open none: the
  -- socket of a transfer, and the one on which `Start` listens, is one descriptor where the call succeeds, and
  -- on an error none is left open.
  pub listen_descriptors :
      (resolve : Text → Outcome UdpAddr) (cfg : PxeConfig) (w : World)
      → let transfer = listen_transfer net cfg w in
        let control = start_listening net resolve cfg w in
        (counts.descriptors transfer.1 ≡ opened_by transfer.0 + counts.descriptors w)
        × (counts.descriptors control.1 ≡ opened_by control.0 + counts.descriptors w)
  listen_descriptors resolve cfg w =
      (listen_transfer-Opens cfg w, start_listening-Opens resolve cfg w)
