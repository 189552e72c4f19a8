-- ===== src/Race.antt =====
-- pkg/grpc/processing/race/race_processor.go: race order, laps, race graphs and replay info.
pub mod Types
pub mod Laps
pub mod Graph
pub mod Payload
pub mod Tables
pub mod LapTimes
pub mod Replay
pub mod Messages
pub mod Entries
pub mod Totality
pub mod Sorting
