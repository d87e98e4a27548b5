-- ===== src/Redis.antt =====
-- The Redis server as apps/api/services/redis_service.py relies on it: an interface, with the commands
-- that are called, at the moment at which they are called, in seconds. The children are the pools of
-- one-time codes and the rate limits.
pub mod Server
pub mod Codes
pub mod Guesses
pub mod Single
pub mod Pools
pub mod Limits
pub mod Windows
pub mod Minute
mod Samples
