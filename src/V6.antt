-- ===== src/V6.antt =====
-- The DHCPv6 relay of dhcp/v6/.
pub mod Dhcproto
pub mod RelayFwd
pub mod Options
pub mod Stages
pub mod Extending
pub mod Request
pub mod Naming
pub mod Reply
