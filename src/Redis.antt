-- ===== src/Redis.antt =====
-- `RedisService` (libs/redis/src), the service's only way to its cache.
mod Service
pub mod Keys
pub mod Laws
pub mod Keeps
pub mod Answers
unfoldable pub use Service.{cache_key, set, get, get_or_throw, del}
pub use Service.{parsed}
