-- ===== src/Cache.antt =====
-- internal/cache/cache.go: the cache of task lists.
pub mod Keys
pub mod Redis
