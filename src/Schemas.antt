-- ===== src/Schemas.antt =====
-- schemas/: the protocol's enums, error scenarios, requests and responses.
pub mod Events
pub mod ErrorCodes
pub mod Response
pub mod ErrorScenarios
pub mod Request
