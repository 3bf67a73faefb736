-- ===== src/Transport.antt =====
-- The transport layer: transport/registry.py, transport/session.py and transport/app.py.
pub mod Mounting
pub mod Registry
pub mod Session
pub mod Endpoint
pub mod Admission
pub mod SlowMessages
pub mod Readiness
