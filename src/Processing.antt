-- ===== src/Processing.antt =====
-- pkg/grpc/processing/processor.go: the processor that drives the car and the race processor.
pub mod Compose
pub mod Steps
pub mod Kept
pub mod Snapshots
pub mod Listed
