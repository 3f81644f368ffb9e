-- ===== src/Pxe/Serve.antt =====
-- `serveFile` of pkg/pxe/pxe.go as a whole: from the requested name to the end of the transfer, with the
-- error replies and the deferred calls. The operating system is a parameter.
pub mod Cleanup
use gokrazy_router.Prelude.{
  ℕ, not, Option, none, some, List, [], ◌∷◌, Text, codes, is_empty, Dict, length,
}
use gokrazy_router.Prelude.Action.{Action, Outcome, failed, done}
use gokrazy_router.Pxe.Request.{build_oack}
use gokrazy_router.Pxe.Image.{ImageServer}
use gokrazy_router.Pxe.Wire.{UdpAddr, Attempt}
use gokrazy_router.Pxe.Transfer.{Sent, negotiate, serve}
use gokrazy_router.Pxe.Files.{Paths, Files, resolve_path, open_tftp_file, err_packet}
use gokrazy_router.Pxe.Reader.{Table, end_transfer}

-- the calls that `serveFile` makes besides those that open the file
pub record System (World : Type 0) : Type 0 where
  pub paths : Paths World
  pub files : Files World
  -- `f.Stat`, and what the reads of the file give
  pub file_size : ℕ → Action World ℕ
  pub contents : ℕ → World → List ℕ
  -- `listenTransfer`
  pub listen_transfer : Action World ℕ
  -- what happens on the socket, and the world after the transfer
  pub network : ℕ → World → ℕ → Attempt
  pub transferred : ℕ → World → World
  -- `WriteToUDP` on the control socket, whose error is not looked at
  pub send_control : List ℕ → World → World

module _ {World : Type 0} (sys : System World) where
  -- `sendERR` with code 1, and the end of the call
  abbrev refuse : Text → World → Option Sent × World
  refuse msg w = (none, sys.send_control (err_packet 1 msg) w)

  -- the transfer from a socket, which is closed at the end
  unfoldable pub stream : UdpAddr → Dict Text → ℕ → ℕ → Outcome ℕ × World → Option Sent × World
  stream client opts fd size (failed e, w) = refuse (codes "Server error") w
  stream client opts fd size (done conn, w) =
      let block_size = negotiate opts in
      let oack = build_oack opts block_size size in
      (
        some (
            serve client (sys.network conn w) (not (is_empty oack)) block_size (sys.contents fd w)),
        sys.files.close conn (sys.transferred conn w),
      )

  -- what follows `Stat`
  unfoldable pub sized : UdpAddr → Dict Text → ℕ → Outcome ℕ × World → Option Sent × World
  unfolding stream
  sized client opts fd (failed e, w) = refuse (codes "Server error") w
  sized client opts fd (done size, w) = stream client opts fd size (sys.listen_transfer w)

  -- what follows `openTFTPFile`; the file is closed at the end
  unfoldable pub opened : UdpAddr → Dict Text → Outcome ℕ × World → Option Sent × World
  unfolding sized
  opened client opts (failed e, w) = refuse (codes "File not found") w
  opened client opts (done fd, w) =
      let result = sized client opts fd (sys.file_size fd w) in
      (result.0, sys.files.close fd result.1)

  -- what follows `resolvePath`
  unfoldable pub resolved :
      UdpAddr → Dict Text → Outcome (Text × Text) × World → Option Sent × World
  unfolding opened open_tftp_file
  resolved client opts (failed e, w) = refuse (codes "File not found") w
  resolved client opts (done located, w) =
      opened client opts (open_tftp_file sys.files located.0 located.1 w)

  -- `serveFile`: what was transferred, the world after, and the table without the transfer
  unfoldable pub serve_request :
      ImageServer
      → Text
      → UdpAddr
      → Text
      → Text
      → Dict Text
      → Table
      → World
      → Option Sent × World × Table
  unfolding resolved resolve_path end_transfer
  serve_request s root client key filename opts t w =
      let result = resolved client opts (resolve_path sys.paths s root filename w) in
      (result.0, result.1, end_transfer key t)
