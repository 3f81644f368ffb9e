-- ===== src/Tests.antt =====
-- Runs of the code on concrete inputs, and the theorems at these inputs.
pub mod Addresses
pub mod Networks
pub mod Shares
pub mod Transfers
pub mod Sockets
pub mod Gadgets
pub mod Stations
pub mod Radios
pub mod Volumes
pub mod AccessPoints
pub mod Tools
pub mod Starts
pub mod Leases
pub mod Configs
pub mod Clients
pub mod Images
pub mod Reloads
pub mod Monitors
pub mod Accounts
