-- ===== src/Dhcp.antt =====
-- pkg/dhcp/dhcp.go: the DHCPv4 server. State has the server and its setters, Pool the address scan,
-- Alloc the lease table, Reply the options and the handler, Steps the server over time.
pub mod State
pub mod Pool
pub mod Alloc
pub mod Reply
pub mod Steps
pub mod Start
