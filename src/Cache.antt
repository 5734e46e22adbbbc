-- ===== src/Cache.antt =====
-- internal/cache: the entitlement caches of the daemon, in the process (L1) and in Redis (L2), and
-- the subscriber that evicts from both.
pub mod Local
pub mod Redis
pub mod Invalidation
