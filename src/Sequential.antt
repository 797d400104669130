-- ===== src/Sequential.antt =====
-- The sequential searches (src/sequential).
pub mod Bruteforce
pub mod Johnson
pub mod CycleUnion
pub mod Closing
pub mod TemporalReadTarjan
pub mod TemporalJohnson
