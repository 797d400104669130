-- ===== src/Cuda/WorkItem.antt =====
-- The start events of the temporal search on the device, and their prefilter
-- (src/cuda/cuda_work_item.cpp, include/cycle_enum/cuda/cuda_work_item.hpp).
pub mod Events
pub mod Kept
pub mod Safe
use cycle_enumeration_gpu.Prelude.{
  ℕ, suc, ◌-◌, Bool, List, [], ◌∷◌, ◌++◌, ◌==◌, if◌then◌else◌, length, range, range_from, Result,
  ok, ◌>>=◌, ◌>>◌, at, throw_if, for_each, invalid_argument,
}
use cycle_enumeration_gpu.Prelude.Int.{ℤ, pos, ltb_ℤ}
use cycle_enumeration_gpu.Core.GraphView.{AdjacencyEntry, GraphView, outgoing_row}
use cycle_enumeration_gpu.Sequential.CycleUnion.{CycleUnionRequest, compute_temporal_cycle_union}

pub record CudaStartEvent : Type 0 where
  pub root : ℕ
  pub first_vertex : ℕ
  pub start_timestamp : ℤ

pub record StartEventSet : Type 0 where
  pub events : List CudaStartEvent
  pub generated : ℕ
  pub dropped_by_cycle_union : ℕ

module _ (g : GraphView) where
  -- One round of the loop over the timestamps of an edge.
  pub push_event : ℕ → AdjacencyEntry → ℕ → List CudaStartEvent → Result (List CudaStartEvent)
  push_event root edge offset events = do
    t ← at g.timestamps offset
    ok (events ++ record { root = root; first_vertex = edge.vertex; start_timestamp = t } ∷ [])

  pub push_edge : ℕ → AdjacencyEntry → List CudaStartEvent → Result (List CudaStartEvent)
  unfolding push_event
  push_edge root edge events =
      for_each (push_event root edge)
        (range_from edge.timestamp_begin (edge.timestamp_end - edge.timestamp_begin)) events

  pub push_root : ℕ → List CudaStartEvent → Result (List CudaStartEvent)
  unfolding push_edge
  push_root root events = do edges ← outgoing_row g root; for_each (push_edge root) edges events

  unfoldable pub build_start_events : Result (List CudaStartEvent)
  unfolding push_root
  build_start_events = for_each push_root (range g.vertex_count) []

  -- The request that an event makes of the prefilter.
  abbrev pub request : ℤ → CudaStartEvent → CycleUnionRequest
  request window_width event = record {
    root = event.root;
    first_vertex = event.first_vertex;
    start_timestamp = event.start_timestamp;
    window_width = window_width;
  }

  -- One round of the loop over the events.
  pub filter_event : ℤ → CudaStartEvent → StartEventSet → Result StartEventSet
  unfolding compute_temporal_cycle_union
  filter_event window_width event result = do
    candidates ← compute_temporal_cycle_union g (request window_width event)
    if candidates.included_count == 0
        then ok (record result { dropped_by_cycle_union = suc result.dropped_by_cycle_union })
        else ok (record result { events = result.events ++ event ∷ [] })

  unfoldable pub build_temporal_start_events : ℤ → Bool → Result StartEventSet
  unfolding build_start_events filter_event
  build_temporal_start_events window_width use_cycle_union = do
    throw_if (ltb_ℤ window_width (pos 0)) invalid_argument
    all_events ← build_start_events
    let generated = length all_events
    if use_cycle_union
        then for_each (filter_event window_width) all_events
            (record { events = []; generated = generated; dropped_by_cycle_union = 0 })
        else ok (record { events = all_events; generated = generated; dropped_by_cycle_union = 0 })
