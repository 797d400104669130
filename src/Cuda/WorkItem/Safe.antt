-- ===== src/Cuda/WorkItem/Safe.antt =====
-- The prefilter loses no temporal cycle.
use cycle_enumeration_gpu.Prelude.{ℕ, ◌≤◌, ◌<◌, ◌≡◌, true, arith, ◌∈◌, ok}
use cycle_enumeration_gpu.Prelude.Int.{ℤ, pos, ◌≤ℤ◌, ◌<ℤ◌, ◌+ℤ◌}
use cycle_enumeration_gpu.Core.GraphView.{AdjacencyEntry, GraphView}
use cycle_enumeration_gpu.Core.GraphView.Rows.{IsValid, outgoing_of}
use cycle_enumeration_gpu.Core.Timestamp.{value_at}
use cycle_enumeration_gpu.Core.Timestamp.Window.{FitsWindow}
use cycle_enumeration_gpu.Sequential.CycleUnion.Correct.{AllTimed}
use cycle_enumeration_gpu.Sequential.CycleUnion.Leads.{Leads}
use cycle_enumeration_gpu.Cuda.WorkItem.{CudaStartEvent, StartEventSet, build_temporal_start_events}
use cycle_enumeration_gpu.Cuda.WorkItem.Events.{IsStart}
use cycle_enumeration_gpu.Cuda.WorkItem.Kept.{HasCandidate, build_temporal_start_events_lem}

module _ (g : GraphView) (root : ℕ) (last : ℤ) where
  -- A walk back to the root, from a time and a vertex on, whose edges happen one after the other and
  -- not after the end of the window.
  pub data Returns : ℤ → ℕ → Type 0 where
    home : {now : ℤ} → Returns now root
    go :
        {now : ℤ} {v : ℕ} (e : AdjacencyEntry) (i : ℕ)
        → e ∈ outgoing_of g v
        → e.timestamp_begin ≤ i
        → i < e.timestamp_end
        → now <ℤ value_at g.timestamps i
        → value_at g.timestamps i ≤ℤ last
        → Returns (value_at g.timestamps i) e.vertex
        → Returns now v

  -- Such a walk is one over edges with an event in the window.
  Returns-Leads :
      (first : ℤ) (start : ℕ) (now : ℤ) (v : ℕ)
      → first ≤ℤ now
      → Leads g.timestamps first last (outgoing_of g) start v
      → Returns now v
      → Leads g.timestamps first last (outgoing_of g) start root
  Returns-Leads first start now v after so_far Returns.home = so_far
  Returns-Leads first start now v after so_far (Returns.go e i from lo hi late early rest) =
      Returns-Leads first start (value_at g.timestamps i) e.vertex (omega (arith, after, late))
        (Leads.step e so_far from (i, lo, hi, omega (arith, after, late), early)) rest

-- On a valid view with sorted timestamps, for a width that is not negative and with which the windows
-- of all start events fit, the prefiltered set is built, and it holds every start event of the view
-- from which a walk leads back to the root over edges one after the other within the window.
pub build_temporal_start_events_safe :
    (g : GraphView) (width : ℤ)
    → IsValid g
    → AllTimed g
    → pos 0 ≤ℤ width
    → ((ev : CudaStartEvent) → IsStart g ev → FitsWindow ev.start_timestamp width)
    → (t : StartEventSet) × (build_temporal_start_events g width true ≡ ok t)
      × ((ev : CudaStartEvent)
          → IsStart g ev
          → Returns g ev.root (ev.start_timestamp +ℤ width) ev.start_timestamp ev.first_vertex
          → ev ∈ t.events)
build_temporal_start_events_safe g width valid timed positive fits =
    let (t, run, kept, _) = build_temporal_start_events_lem g width valid timed positive fits in
    (
      t,
      run,
      λ ev start walk.
          let candidate : HasCandidate g width ev = (
            ev.root,
            start.root_in,
            (
              Returns-Leads g ev.root (ev.start_timestamp +ℤ width) ev.start_timestamp
                  ev.first_vertex ev.start_timestamp ev.first_vertex (omega arith) Leads.here walk,
              Leads.here,
            ),
          ) in
          (kept ev).1 (start, candidate),
    )
