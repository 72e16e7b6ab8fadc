-- ===== src/V4.antt =====
-- The DHCPv4 relay of dhcp/v4/.
pub mod Dhcproto
pub mod Option82
pub mod Giaddr
pub mod Vss
pub mod Stages
pub mod Build
pub mod Holding
pub mod Request
pub mod VssCheck
pub mod Reply
