-- ===== src/Openmp.antt =====
-- The OpenMP backend (src/openmp).
pub mod Merge
pub mod Johnson
pub mod TemporalReadTarjan
pub mod ReadTarjanTasks
