-- ===== src/Live.antt =====
-- The live events: the lookup of their processors, and the servers that change it.
pub mod Types
pub mod Lookup
pub mod Provider
pub mod Publishing
pub mod Lookups
pub mod Watchdog
pub mod Access
pub mod Delivered
pub mod Held
pub mod Tenancy
