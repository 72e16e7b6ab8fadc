-- ===== src/Smf.antt =====
-- The multicast engine of smf/.
pub mod Forwarding
pub mod Dpd
pub mod DpdOption
pub mod Identifiers
pub mod Engine
