-- ===== src/Dhcp/Reply.antt =====
-- `handler` and `replyOptions` of pkg/dhcp/dhcp.go. Building a packet is the work of the library
-- github.com/insomniacslk/dhcp: `build` is its `NewReplyFromRequest`, and the modifiers that the
-- code passes to it are data. The closure of `replyOptions` runs in there, behind `allocate`.
pub mod Laws
use gokrazy_router.Prelude.{
  ℕ, ◌+◌, ◌*◌, Bool, false, not, ◌&&◌, ◌||◌, Option, none, some, List, [], ◌∷◌, ◌++◌, ltb, ◌==◌,
  if◌then◌else◌, length, Text, codes, is_empty, to_lower, contains, lookup,
}
use gokrazy_router.Mac.{normalize_mac}
use gokrazy_router.Net.{Ip, to4, ip_equal, v4_in_v6_prefix}
use gokrazy_router.Dhcp.State.{Server, Notice}
use gokrazy_router.Dhcp.Alloc.{allocate}

pub data OpCode : Type 0 where
  boot_request boot_reply : OpCode

pub data MessageType : Type 0 where
  discover offer request ack : MessageType
  other_type : ℕ → MessageType

-- what the handler reads of a `dhcpv4.DHCPv4`; an option that is absent is empty
pub record Request : Type 0 where
  pub op_code : OpCode
  pub client_hw_addr : Text
  pub message_type : MessageType
  pub user_class : List ℕ
  pub architecture : List ℕ

pub data Modifier : Type 0 where
  with_message_type : MessageType → Modifier
  with_server_ip with_your_ip : Ip → Modifier
  opt_subnet_mask : List ℕ → Modifier
  opt_router : Ip → Modifier
  opt_dns : List Ip → Modifier
  opt_lease_time : ℕ → Modifier
  opt_server_identifier : Ip → Modifier
  opt_tftp_server_name : Ip → Modifier
  opt_boot_file_name : Text → Modifier

unfoldable pub is_ipxe_client : Request → Bool
is_ipxe_client req =
    ltb 0 (length req.user_class) && contains (codes "ipxe") (to_lower req.user_class)

-- `binary.BigEndian.Uint16`, which reads two bytes
abbrev pub uint16_be : List ℕ → ℕ
uint16_be (hi ∷ lo ∷ rest) = hi * 256 + lo
uint16_be _ = 0

unfoldable pub is_uefi_client : Request → Bool
is_uefi_client req =
    if ltb (length req.architecture) 2
    then false
    else uint16_be req.architecture == 7 || uint16_be req.architecture == 9

-- the `switch` of `replyOptions`, on the entry of the client in `macPXEBootFiles`
unfoldable pub choose_boot_file : Server → Option Text → Request → Text
choose_boot_file s mac_file req =
    if not (is_empty s.ipxe_boot_file) && is_ipxe_client req
    then s.ipxe_boot_file
    else (elim mac_file [
      | some file ↦ file
      | none ↦
          if not (is_empty s.uefi_boot_file) && is_uefi_client req
          then s.uefi_boot_file
          else if not (is_empty s.legacy_boot_file)
          then s.legacy_boot_file
          else s.pxe_boot_file
    ])

unfoldable pub reply_options : Server → Text → Request → List Modifier
reply_options s mac req =
    let boot_file = choose_boot_file s (lookup (normalize_mac mac) s.mac_pxe_boot_files) req in
    (if is_empty s.pxe_boot_server then [] else opt_tftp_server_name s.pxe_boot_server ∷ [])
    ++ (if is_empty boot_file then [] else opt_boot_file_name boot_file ∷ [])

pub data Peer : Type 0 where
  udp_addr : Ip → ℕ → Peer
  other_addr : Peer

abbrev pub ipv4_zero : Ip
ipv4_zero = v4_in_v6_prefix ++ (0 ∷ 0 ∷ 0 ∷ 0 ∷ [])

abbrev pub ipv4_broadcast : Ip
ipv4_broadcast = v4_in_v6_prefix ++ (255 ∷ 255 ∷ 255 ∷ 255 ∷ [])

-- Clients with no address yet are answered by broadcast.
unfoldable pub destination : Peer → Peer
destination (udp_addr ip port) =
    if is_empty ip || ip_equal (to4 ip) ipv4_zero
    then udp_addr ipv4_broadcast 68
    else udp_addr ip port
destination other_addr = other_addr

-- the modifiers of an offer or an acknowledgement
unfoldable pub reply_modifiers : Server → Text → Request → MessageType → Ip → List Modifier
reply_modifiers s mac req kind ip =
    with_message_type kind
    ∷ with_server_ip s.server_ip
    ∷ with_your_ip ip
    ∷ opt_subnet_mask s.mask
    ∷ opt_router s.router
    ∷ opt_dns s.dns
    ∷ opt_lease_time s.lease
    ∷ opt_server_identifier s.server_ip
    ∷ reply_options s mac req

module _ {Packet : Type 0} (build : Request → List Modifier → Option Packet) where
  -- the two cases that answer: the server after the call, the notices, and what is sent where
  unfoldable pub answer :
      ℕ → Server → Peer → Request → MessageType → Server × List Notice × Option (Packet × Peer)
  answer now s peer req kind =
      let (s', ip, notices) = allocate now req.client_hw_addr s in
      if is_empty ip
      then (s', notices, none)
      else (elim (build req (reply_modifiers s' req.client_hw_addr req kind ip)) [
        | none ↦ (s', notices, none)
        | some packet ↦ (s', notices, some (packet, destination peer))
      ])

  unfoldable pub handle_boot_request :
      MessageType → ℕ → Server → Peer → Request → Server × List Notice × Option (Packet × Peer)
  handle_boot_request discover now s peer req = answer now s peer req offer
  handle_boot_request request now s peer req = answer now s peer req ack
  handle_boot_request _ now s peer req = (s, [], none)

  -- the test of the operation code
  unfoldable pub handle_op :
      OpCode → ℕ → Server → Peer → Request → Server × List Notice × Option (Packet × Peer)
  handle_op boot_request now s peer req = handle_boot_request req.message_type now s peer req
  handle_op boot_reply now s peer req = (s, [], none)

  unfoldable pub handler :
      ℕ → Server → Peer → Request → Server × List Notice × Option (Packet × Peer)
  handler now s peer req = handle_op req.op_code now s peer req
