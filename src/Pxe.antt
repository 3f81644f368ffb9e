-- ===== src/Pxe.antt =====
-- pkg/pxe/pxe.go: the TFTP server. Request has the packets that are read and the option
-- acknowledgement, Image the choice of the file, Wire the retries and acknowledgements of one block,
-- Transfer the blocks of a file.
pub mod Request
pub mod Image
pub mod Wire
pub mod Transfer
pub mod Reader
pub mod Files
pub mod Serve
pub mod Listen
