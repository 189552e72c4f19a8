-- ===== src/States.antt =====
-- pkg/grpc/server/state: the stored messages of an event, page by page.
pub mod Types
pub mod Repos
pub mod Pages
pub mod Streams
pub mod Rows
pub mod Paging
pub mod Parts
pub mod Loop
pub mod Reads
pub mod Whole
pub mod Sent
pub mod Served
pub mod Broken
