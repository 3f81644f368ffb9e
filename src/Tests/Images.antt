-- ===== src/Tests/Images.antt =====
-- A TFTP client on a network that loses the first packet.
use gokrazy_router.Prelude.{
  ℕ, zero, suc, ◌≡◌, refl, true, List, [], ◌∷◌, arith, Text, codes, text_eq, Dict,
}
use gokrazy_router.Net.{to4, ip_equal}
use gokrazy_router.Pxe.Request.{
  parse_options, parse_rrq, sanitize_tftp_name, is_printable, drop_junk,
}
use gokrazy_router.Pxe.Request.Parsing.{encode_rrq, options_onto, parse_rrq-encode}
use gokrazy_router.Pxe.Wire.{
  UdpAddr, Datagram, timeout, Attempt, acked, wait_for_ack, is_ack, same_addr, attempt_once,
  send_block, send_rounds,
}
use gokrazy_router.Pxe.Wire.Retries.{Ending, send_block-Ending}

abbrev client : UdpAddr
client = record { ip = 10 ∷ 0 ∷ 0 ∷ 5 ∷ []; port = 2070 }

abbrev ack_of : ℕ → Datagram
ack_of block = record { sender = client; payload = 0 ∷ 4 ∷ 0 ∷ block ∷ [] }

abbrev lost : Attempt
lost = record { write_ok = true; deadline_ok = true; arrivals = []; wait_end = timeout }

abbrev answered : ℕ → Attempt
answered block = record lost { arrivals = ack_of 9 ∷ ack_of block ∷ [] }

-- the first packet is lost, the next ones are acknowledged as blocks 1, 2, …
abbrev network : ℕ → Attempt
network zero = lost
network (suc i) = answered (suc i)

abbrev file : List ℕ
file = codes "boot!"

program : Unit {0}
unfolding parse_options parse_rrq sanitize_tftp_name is_printable drop_junk to4 ip_equal text_eq
    same_addr is_ack wait_for_ack attempt_once send_block send_rounds
program = tt

wait_run : wait_for_ack client 1 (ack_of 9 ∷ ack_of 1 ∷ []) timeout ≡ acked
unfolding program
wait_run = refl

parse_rrq-encode_example :
    parse_rrq (encode_rrq (codes "snp") (codes "octet") ((codes "tsize", codes "0") ∷ []))
    ≡ record {
      filename = codes "snp";
      mode = codes "octet";
      opts = options_onto [] ((codes "tsize", codes "0") ∷ []);
    }
parse_rrq-encode_example =
    parse_rrq-encode (codes "snp") (codes "octet") ((codes "tsize", codes "0") ∷ [])
      (omega arith, (omega arith, (omega arith, tt)))
      (omega arith, (omega arith, (omega arith, (omega arith, (omega arith, tt)))))
      (
        refl,
        (omega arith, (omega arith, (omega arith, (omega arith, (omega arith, tt))))),
        (omega arith, tt),
        tt,
      )

send_block-Ending_example : Ending 12 client 1 network 0 (send_block client 1 network 0)
send_block-Ending_example = send_block-Ending client 1 network 0

abbrev small_blocks : Dict Text
small_blocks = (codes "blksize", codes "4") ∷ []
