-- ===== src/Redis.antt =====
-- redis/: the two Lua-backed classes, over what they rely on of the Redis server.
pub mod Server
pub mod Protocols
pub mod Scripts
pub mod EvalSha
pub mod SequenceStateMachine
pub mod Fleet
pub mod OwnershipGuard
pub mod Memory
