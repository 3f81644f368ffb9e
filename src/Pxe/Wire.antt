-- ===== src/Pxe/Wire.antt =====
-- `sendBlock`, `sendOACK` and `waitForAck` of pkg/pxe/pxe.go. The network is a stream of attempts: each
-- says whether the write and the deadline call succeed, what datagrams arrive, and how the wait ends
-- if none of them is the acknowledgement.
pub mod Retries
use gokrazy_router.Prelude.{
  ℕ, zero, suc, ◌+◌, ◌*◌, Bool, false, not, ◌&&◌, List, [], ◌∷◌, ◌==◌, if◌then◌else◌, is_empty,
}
use gokrazy_router.Net.{Ip, ip_equal}

-- `net.UDPAddr`
pub record UdpAddr : Type 0 where
  pub ip : Ip
  pub port : ℕ

pub record Datagram : Type 0 where
  pub sender : UdpAddr
  pub payload : List ℕ

pub data WaitEnd : Type 0 where
  timeout read_error : WaitEnd

pub record Attempt : Type 0 where
  pub write_ok : Bool
  pub deadline_ok : Bool
  pub arrivals : List Datagram
  pub wait_end : WaitEnd

-- `sameAddr`, on addresses that are not nil
unfoldable pub same_addr : UdpAddr → UdpAddr → Bool
same_addr a b =
    a.port == b.port && (not (is_empty a.ip) && (not (is_empty b.ip) && ip_equal a.ip b.ip))

abbrev pub tftp_ack : ℕ
tftp_ack = 4

-- the tests of `waitForAck` on a packet from the client: an acknowledgement of the block
unfoldable pub is_ack : ℕ → List ℕ → Bool
is_ack block (a ∷ b ∷ c ∷ d ∷ rest) = a * 256 + b == tftp_ack && c * 256 + d == block
is_ack block _ = false

pub data Wait : Type 0 where
  acked timed_out failed : Wait

-- `waitForAck`: what is from elsewhere, no acknowledgement or for another block is passed over
unfoldable pub wait_for_ack : UdpAddr → ℕ → List Datagram → WaitEnd → Wait
wait_for_ack client block [] timeout = timed_out
wait_for_ack client block [] read_error = failed
wait_for_ack client block (d ∷ ds) end =
    let more = wait_for_ack client block ds end in
    if not (same_addr d.sender client) then more else if is_ack block d.payload then acked else more

-- one round of the loop in `sendBlock`
unfoldable pub attempt_once : UdpAddr → ℕ → Attempt → Wait
attempt_once client block a =
    if not a.write_ok
    then failed
    else if not a.deadline_ok
    then failed
    else wait_for_ack client block a.arrivals a.wait_end

pub data Outcome : Type 0 where
  delivered gave_up : Outcome

-- the loop, with the rounds left; `i` counts the attempts of the transfer
unfoldable pub send_rounds : ℕ → UdpAddr → ℕ → (ℕ → Attempt) → ℕ → Outcome × ℕ
send_rounds zero client block network i = (gave_up, i)
send_rounds (suc left) client block network i =
    let again = send_rounds left client block network (i + 1) in
    elim (attempt_once client block (network i)) [
      | acked ↦ (delivered, i + 1)
      | timed_out ↦ again
      | failed ↦ (gave_up, i + 1)
    ]

abbrev pub tftp_retries : ℕ
tftp_retries = 12

-- `sendBlock`: the outcome, and the attempts made so far; each attempt writes the packet once
unfoldable pub send_block : UdpAddr → ℕ → (ℕ → Attempt) → ℕ → Outcome × ℕ
send_block = send_rounds tftp_retries

-- `sendOACK` is the same loop, and waits for the acknowledgement of block 0
unfoldable pub send_oack : UdpAddr → (ℕ → Attempt) → ℕ → Outcome × ℕ
send_oack client = send_rounds tftp_retries client 0
