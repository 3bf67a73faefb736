-- ===== src/Tests.antt =====
-- The theorems at concrete inputs.
pub mod Fixtures
pub mod Servers
pub mod Deliveries
pub mod Connections
pub mod Protocol
pub mod Service
pub mod Handshakes
pub mod Concurrent
pub mod Deployment
pub mod Logs
pub mod Wiring
pub mod Startup
