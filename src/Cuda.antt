-- ===== src/Cuda.antt =====
-- The host code of the CUDA backend (src/cuda, include/cycle_enum/cuda). The kernels themselves
-- are not modelled.
pub mod BranchSplit
pub mod Timestamp
pub mod TimestampGroups
pub mod WorkItem
pub mod WorkQueue
