-- ===== src/Core.antt =====
-- The core of the library (src/core): histograms, graphs, timestamps and options.
pub mod Histogram
pub mod Graph
pub mod GraphView
pub mod Options
pub mod Timestamp
