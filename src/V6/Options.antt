-- ===== src/V6/Options.antt =====
-- dhcp/v6/interface_id.rs, dhcp/v6/remote_id.rs and dhcp/v6/vss.rs: the options that the relay adds
-- and reads.
pub mod InterfaceId
pub mod RemoteId
pub mod Vss
