-- ===== src/Dhcp/Reply/Laws.antt =====
-- What the handler of pkg/dhcp/dhcp.go sends, and what a message leaves behind in the lease table.
use gokrazy_router.Prelude.{
  ℕ, ◌<◌, ◌≡◌, refl, ◌∙◌, ◌≢◌, ◌⊎◌, inl, inr, Bool, true, not, ◌&&◌, Option, none, some, List, [],
  ◌∷◌, arith, if◌then◌else◌, Bool-cases, All, Text, is_empty, lookup,
}
use gokrazy_router.Mac.{normalize_mac}
use gokrazy_router.Net.{Ip, to4, ip_equal}
use gokrazy_router.Dhcp.State.{Server, Notice}
use gokrazy_router.Dhcp.Alloc.{allocate}
use gokrazy_router.Dhcp.Alloc.Clients.{Backed, allocate-Backed}
use gokrazy_router.Dhcp.Alloc.Invariant.{IsValid, Unique}
use gokrazy_router.Dhcp.Alloc.Outcome.{allocate-IsValid, allocate-Unique}
use gokrazy_router.Dhcp.Reply.{
  OpCode, boot_request, boot_reply, MessageType, discover, offer, request, ack, Request, Modifier,
  Peer, destination, reply_modifiers, reply_options, choose_boot_file, ipv4_zero, ipv4_broadcast,
  udp_addr, other_addr, with_message_type, with_server_ip, with_your_ip, opt_subnet_mask,
  opt_router, opt_dns, opt_lease_time, opt_server_identifier, opt_tftp_server_name,
  opt_boot_file_name, answer, handle_boot_request, handle_op, handler,
}

-- the type of the answer to a message, if it is answered
abbrev pub answer_type : MessageType → Option MessageType
answer_type discover = some offer
answer_type request = some ack
answer_type _ = none

-- what network boot adds to a reply
abbrev pub IsBootOption : Modifier → Type 0
IsBootOption (opt_tftp_server_name ip) = Unit
IsBootOption (opt_boot_file_name file) = Unit
IsBootOption _ = ⊥

-- the peer is no UDP address, or one that is given and not 0.0.0.0
abbrev pub has_address : Peer → Bool
has_address (udp_addr ip port) = not (is_empty ip) && not (ip_equal (to4 ip) ipv4_zero)
has_address other_addr = true

destination-eq :
    (peer : Peer)
    → destination peer ≡ (if has_address peer then peer else udp_addr ipv4_broadcast 68)
unfolding destination
destination-eq other_addr = refl
destination-eq (udp_addr ip port) = elim (Bool-cases (is_empty ip)) [
  | inl e ↦ rw (e, destination) refl
  | inr e ↦ elim (Bool-cases (ip_equal (to4 ip) ipv4_zero)) [
    | inl z ↦ rw (e, z, destination) refl
    | inr z ↦ rw (e, z, destination) refl
  ]
]

reply_options-IsBootOption :
    (s : Server) (mac : Text) (req : Request) → All IsBootOption (reply_options s mac req)
unfolding reply_options
reply_options-IsBootOption s mac req =
    let boot_file = choose_boot_file s (lookup (normalize_mac mac) s.mac_pxe_boot_files) req in
    elim (Bool-cases (is_empty s.pxe_boot_server)) [
      | inl e ↦ elim (Bool-cases (is_empty boot_file)) [
        | inl f ↦ rw (e, f, reply_options) tt
        | inr f ↦ rw (e, f, reply_options) (tt, tt)
      ]
      | inr e ↦ elim (Bool-cases (is_empty boot_file)) [
        | inl f ↦ rw (e, f, reply_options) (tt, tt)
        | inr f ↦ rw (e, f, reply_options) (tt, (tt, tt))
      ]
    ]

module _ {Packet : Type 0} (build : Request → List Modifier → Option Packet) (now : ℕ) (s : Server)
    (peer : Peer) (req : Request) where
  -- The packet answers a discover or a request, with the type of that answer, an address that the table has leased
  -- to the client, and the address, mask, router, DNS servers and lease time of the server; what is added are boot
  -- options. It goes to the peer, or by broadcast where that has no address yet.
  abbrev pub IsAnswer : Server × List Notice × Option (Packet × Peer) → Packet → Peer → Type 0
  IsAnswer r packet dst =
      (kind : MessageType) × (ip : Ip) × (answer_type req.message_type ≡ some kind)
      × ((extra : List Modifier) × All IsBootOption extra
          × (build req (
                with_message_type kind
                ∷ with_server_ip r.0.server_ip
                ∷ with_your_ip ip
                ∷ opt_subnet_mask r.0.mask
                ∷ opt_router r.0.router
                ∷ opt_dns r.0.dns
                ∷ opt_lease_time r.0.lease
                ∷ opt_server_identifier r.0.server_ip
                ∷ extra)
              ≡ some packet))
      × Backed now req.client_hw_addr ip r.0.leases
      × (dst ≡ (if has_address peer then peer else udp_addr ipv4_broadcast 68))

  answer_server :
      (kind : MessageType)
      → (answer build now s peer req kind).0 ≡ (allocate now req.client_hw_addr s).0
  unfolding answer
  answer_server kind = ground arith

  answer-IsAnswer :
      (kind : MessageType) (packet : Packet) (dst : Peer)
      → IsValid s
      → 0 < s.lease
      → answer_type req.message_type ≡ some kind
      → (answer build now s peer req kind).2 ≡ some (packet, dst)
      → IsAnswer (answer build now s peer req kind) packet dst
  unfolding answer
  answer-IsAnswer kind packet dst v lasts t sent =
      let mac = req.client_hw_addr in
      let nonempty : (allocate now mac s).1 ≢ [] = ground arith in
      let sent_to : dst ≡ destination peer = ground arith in
      let built : build req (
            reply_modifiers (answer build now s peer req kind).0 mac req kind
              (allocate now mac s).1)
          ≡ some packet =
        ground arith in
      (
        kind,
        (allocate now mac s).1,
        t,
        (
          reply_options (answer build now s peer req kind).0 mac req,
          reply_options-IsBootOption (answer build now s peer req kind).0 mac req,
          (unfold reply_modifiers in built),
        ),
        rw (answer_server kind) (allocate-Backed now mac s v lasts nonempty),
        sent_to ∙ destination-eq peer,
      )

  handle-IsAnswer :
      (type : MessageType) (packet : Packet) (dst : Peer)
      → req.message_type ≡ type
      → IsValid s
      → 0 < s.lease
      → (handle_boot_request build type now s peer req).2 ≡ some (packet, dst)
      → IsAnswer (handle_boot_request build type now s peer req) packet dst
  unfolding handle_boot_request
  handle-IsAnswer discover packet dst e v lasts sent =
      answer-IsAnswer offer packet dst v lasts (rw e) sent
  handle-IsAnswer request packet dst e v lasts sent =
      answer-IsAnswer ack packet dst v lasts (rw e) sent
  handle-IsAnswer _ packet dst e v lasts sent = cc

  handle_op-IsAnswer :
      (op : OpCode) (packet : Packet) (dst : Peer)
      → IsValid s
      → 0 < s.lease
      → (handle_op build op now s peer req).2 ≡ some (packet, dst)
      → IsAnswer (handle_op build op now s peer req) packet dst
  unfolding handle_op
  handle_op-IsAnswer boot_request packet dst v lasts sent =
      handle-IsAnswer req.message_type packet dst refl v lasts sent
  handle_op-IsAnswer boot_reply packet dst v lasts sent = cc

  -- Whatever the handler of a valid server with a positive lease time sends is the offer or the acknowledgement that the message asks for, with
  -- an address that the lease table then holds for the client, under a lease that runs, and with the address, the
  -- mask, the router, the DNS servers and the lease time of the server. It goes to the peer, or by broadcast where
  -- that has no address.
  pub handler-IsAnswer :
      (packet : Packet) (dst : Peer)
      → IsValid s
      → 0 < s.lease
      → (handler build now s peer req).2 ≡ some (packet, dst)
      → IsAnswer (handler build now s peer req) packet dst
  unfolding handler
  handler-IsAnswer packet dst v lasts sent = handle_op-IsAnswer req.op_code packet dst v lasts sent

  -- The server is left as `allocate` leaves it, or untouched.
  handler_server :
      ((handler build now s peer req).0 ≡ s)
      ⊎ ((handler build now s peer req).0 ≡ (allocate now req.client_hw_addr s).0)
  unfolding handler handle_op handle_boot_request
  handler_server = ground (arith, answer_server offer, answer_server ack)

  -- A message keeps the invariant of the server, and every address with one client at most.
  pub handler-IsValid :
      IsValid s
      → Unique now s.leases
      → IsValid (handler build now s peer req).0
        × Unique now (handler build now s peer req).0.leases
  handler-IsValid v u = elim handler_server [
    | inl e ↦ rw e (v, u)
    | inr e ↦
        rw e (
          allocate-IsValid now req.client_hw_addr s v,
          allocate-Unique now req.client_hw_addr s v u,
        )
  ]
