-- ===== src/Stints.antt =====
-- pkg/grpc/racestints: the plan of stints and pit stops to the end of the race.
pub mod Calc
pub mod Steps
pub mod Finish
pub mod Whole
pub mod Stuck
