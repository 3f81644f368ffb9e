-- ===== src/Mac.antt =====
-- `normalizeMAC` of pkg/dhcp/dhcp.go, pkg/config/config.go and pkg/pxe/pxe.go, which have the same
-- body, on ASCII text.
pub mod Laws
use gokrazy_router.Prelude.{◌-◌, [], Text, to_lower, replace_byte, trim_space}

unfoldable pub normalize_mac : Text → Text
unfolding to_lower trim_space replace_byte
normalize_mac mac = to_lower (trim_space (replace_byte b'-' b':' mac))
