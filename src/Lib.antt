-- ===== src/Lib.antt =====
-- Verification of the cycle-enumeration library: exact histograms of the lengths of the simple and
-- temporal cycles of a directed temporal multigraph, by sequential, OpenMP and CUDA code, and their
-- update when edges change.
--
-- The parts, and the files of this library that model them:
--   * Core.Histogram: counts by cycle length (src/core/histogram.cpp). The ordered map is an ordered
--     association list, `increment` may refuse a length or overflow, and `merge` is a sequence of
--     increments.
--   * Core.Graph, Core.GraphView, Core.GraphView.Build: the temporal graph, its view in compressed
--     rows and the construction of the view (src/core/graph.cpp, src/core/graph_builder.cpp).
--     Core.GraphView.Rows says what a well-formed view is.
--   * Core.Timestamp: searches for the timestamps in a window (src/core/timestamp.cpp), and
--     Cuda.Timestamp: the searches of the kernels (include/cycle_enum/cuda/cuda_timestamp.hpp).
--   * Cycles: the specification of cycle enumeration, which knows only the successors of a vertex.
--   * Sequential.Bruteforce: the three baseline counters (src/sequential/bruteforce.cpp).
--   * Sequential.Johnson: Johnson's searches (src/sequential/johnson.cpp).
--   * Sequential.Closing: the question whether a walk can still close in time, with its memory, and
--     Sequential.TemporalReadTarjan: the temporal search that asks it
--     (src/sequential/temporal_read_tarjan.cpp). Openmp.TemporalReadTarjan: the same search in
--     parallel, with its counters of work (src/openmp/openmp_temporal_read_tarjan.cpp).
--   * Sequential.TemporalJohnson: the temporal search that carries the times of arrival, with the number
--     of ways to each, along a path (src/sequential/temporal_johnson.cpp).
--   * Openmp.ReadTarjanTasks: the counter with OpenMP tasks, as a step relation over a pool of jobs
--     (src/openmp/openmp_read_tarjan_tasks.cpp). Openmp.Merge: what the parallel counters share, the
--     merge of the threads' results.
--   * Sequential.CycleUnion: the prefilter of temporal searches (src/sequential/cycle_union.cpp).
--   * Openmp.Johnson: the parallel counter (src/openmp/openmp_johnson.cpp and the check of the
--     thread count in src/openmp/openmp_config.cpp).
--   * Cuda.BranchSplit: the split of the static search into work items for the device
--     (src/cuda/cuda_branch_split.cpp). Cuda.WorkItem: the start events of the temporal search and
--     their prefilter (src/cuda/cuda_work_item.cpp). Cuda.WorkQueue: the launch of the persistent
--     kernel (src/cuda/cuda_work_queue.cpp). Cuda.TimestampGroups: equal timestamps of an edge as
--     one group (src/cuda/cuda_timestamp_groups.cpp).
--   * Core.Options: the options of a run and their validation (src/core/options.cpp). Engine: the
--     entry points for recomputation and update (src/engine/histogram_engine.cpp).
--   * Dynamic: edge changes, the static graph they change, the cycles through one changed edge and
--     the update of a histogram (src/dynamic/edge_change.cpp, directed_graph.cpp,
--     cycles_through_edge.cpp, update_sequential.cpp and update_openmp.cpp). Dynamic.ThroughEdge.Paths
--     says which cycles a changed edge owns.
--   * Prelude: lists, results, integers and sorting, which the parts share. Examples: runs on small
--     graphs.
--
-- How the parts interact: a graph becomes a view, the counters search the view and increment a
-- histogram, the time-window and temporal counters ask the timestamp searches about each edge, the
-- OpenMP counters merge one histogram for each thread, the start events for the device are filtered
-- by the cycle union, and the update searches the static graph before and after a batch of changes.
--
-- How code becomes definitions: an object that changes is a record handed from call to call, a loop
-- over a container is `for_each` over its list, and an exception is an error value of `Result`. An
-- index of a vector out of its range, which the source leaves undefined, is an error value too.
-- Vertex ids and offsets are natural numbers; the casts and sums that can leave their machine type
-- are written out (cycle lengths and compact ids modulo 2^32, counts up to 2^64 - 1, window ends up to
-- 2^63 - 1). Sums of type `long long` that overflow, for which C++ defines no behaviour, wrap around.
--
-- Fuel: a search recurs on fuel, with one unit for each vertex, since it enters only vertices that
-- are not on its path; a bisection has one unit for each element of its range. Running out is the
-- error `out_of_fuel`. A queue takes each vertex once, so its loop has one unit for each vertex too.
-- The question whether a walk can close goes on to later timestamps only, and has one unit more than
-- there are timestamps.
-- Where a theorem says that code returns, the fuel was enough.
--
-- Parameters: whether OpenMP is there, and the schedules by which it hands roots, or the changes of a
-- phase, to threads; and the CUDA update, which the engine calls.
--
-- Not modelled: reading and writing text, the command line, the CUDA runtime and the kernels, the
-- static and time-window Read-Tarjan searches, and the other OpenMP and CUDA entry points.
pub mod Prelude
pub mod Core
pub mod Cycles
pub mod Sequential
pub mod Cuda
pub mod Dynamic
pub mod Openmp
pub mod Engine
mod Examples
