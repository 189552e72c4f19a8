-- ===== src/Replay.antt =====
-- The replay of stored or recorded messages: several sources are merged by the times of the messages.
pub mod Peeks
pub mod Choice
pub mod Round
pub mod Kept
pub mod Merged
pub mod Loop
pub mod Fetch
pub mod Provided
pub mod Recompute
pub mod Feeds
pub mod Analysis
pub mod Recomputed
pub mod Sending
pub mod Timed
pub mod Published
pub mod Server
