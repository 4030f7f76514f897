-- ===== src/Proxy.antt =====
-- The gateway's own endpoints (src/proxy/router.rs).
pub mod Headers
pub mod Request
pub mod Record
pub mod Attempt
pub mod Failover
mod Tests
