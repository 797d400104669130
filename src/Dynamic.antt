-- ===== src/Dynamic.antt =====
-- Incremental updates of a static histogram (src/dynamic, include/cycle_enum/dynamic).
pub mod EdgeChange
pub mod DirectedGraph
pub mod ThroughEdge
pub mod Update
pub mod UpdateOpenmp
