-- ===== src/Reload.antt =====
-- cmd/gokrazy-router/main.go: the boot options of the DHCP servers and the reload of the extras file.
-- Boot has the boot options, Users the list of SMB users, Run the reload, Admin its HTTP handler.
pub mod Boot
pub mod Users
pub mod Run
pub mod Admin
