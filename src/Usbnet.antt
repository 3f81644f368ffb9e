-- ===== src/Usbnet.antt =====
-- cmd/milkv-usbnet/main.go: the USB network gadget. Gpio has the registers of the LED and the hub, Gadget the
-- files of configfs.
pub mod Bits
pub mod Gpio
pub mod Gadget
pub mod Boot
