-- ===== src/Redis.antt =====
-- packages/redis: the rate limit, the idempotent operations, and the schedules and the scripts of
-- a queue.
pub mod RateLimit
pub mod Server
pub mod Idempotency
pub mod Cron
pub mod Zsets
pub mod Queue
