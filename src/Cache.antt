-- ===== src/Cache.antt =====
-- pkg/utils/cache/loadercache/loadercache.go: a cache that loads what it does not hold.
pub mod Loader
pub mod Answers
