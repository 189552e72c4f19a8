-- ===== src/Examples.antt =====
-- Tests: the theorems of the parts at concrete messages.
mod Data
mod Cars
mod Races
mod Plans
mod Live
mod Stored
mod Hosted
mod Registered
mod Cached
mod Replays
mod Tally
mod Near
mod Callers
