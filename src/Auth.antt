-- ===== src/Auth.antt =====
-- Who calls, and what the caller may do.
pub mod Policy
pub mod Callers
pub mod Reach
pub mod Rights
pub mod Found
pub mod Isolation
