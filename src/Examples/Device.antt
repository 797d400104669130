-- ===== src/Examples/Device.antt =====
-- The theorems on the work of the device, and on its prefilter, at the triangle.
use cycle_enumeration_gpu.Prelude.{
  ℕ, zero, suc, ◌+◌, ◌-◌, ◌*◌, ◌≤◌, ◌<◌, ◌≡◌, refl, sym, subst, [], ◌∷◌, get_or, inl, inr, All-mem,
  ◌↔◌, true, List, none, length, arith, ok, ◌∈◌, All,
}
use cycle_enumeration_gpu.Prelude.Int.{ℤ, pos, ◌+ℤ◌}
use cycle_enumeration_gpu.Core.Histogram.{CycleHistogram, count}
use cycle_enumeration_gpu.Core.GraphView.Rows.{row_of, outgoing_of, incoming_of}
use cycle_enumeration_gpu.Core.Timestamp.{value_at}
use cycle_enumeration_gpu.Core.Timestamp.Window.{Sorted, FitsWindow}
use cycle_enumeration_gpu.Cycles.{all_cycles, cycles_from, cycles_at}
use cycle_enumeration_gpu.Sequential.Bruteforce.{count_simple_cycles}
use cycle_enumeration_gpu.Sequential.Bruteforce.Count.{how_many}
use cycle_enumeration_gpu.Sequential.CycleUnion.{
  CycleUnionRequest, CycleUnion, contains, compute_temporal_cycle_union,
}
use cycle_enumeration_gpu.Sequential.CycleUnion.Correct.{AllTimed}
use cycle_enumeration_gpu.Sequential.CycleUnion.Mirrored.{
  Turned, IsMirrored, IsBetween, compute_temporal_cycle_union-IsBetween,
}
use cycle_enumeration_gpu.Cuda.BranchSplit.{SplitWorkItem, BranchSplit, split_static_search}
use cycle_enumeration_gpu.Cuda.BranchSplit.Counts.{continuations, split_static_search_counts}
use cycle_enumeration_gpu.Cuda.TimestampGroups.{build_outgoing_timestamp_groups}
use cycle_enumeration_gpu.Cuda.TimestampGroups.Decode.{Group}
use cycle_enumeration_gpu.Cuda.TimestampGroups.Build.{
  layout, StandFor, build_outgoing_timestamp_groups_lem,
}
use cycle_enumeration_gpu.Cuda.WorkItem.{CudaStartEvent, StartEventSet, build_temporal_start_events}
use cycle_enumeration_gpu.Cuda.WorkItem.Events.{IsStart}
use cycle_enumeration_gpu.Cuda.WorkItem.Kept.{HasBetween, build_temporal_start_events-HasBetween}
use cycle_enumeration_gpu.Cuda.WorkItem.Safe.{Returns, build_temporal_start_events_safe}
use cycle_enumeration_gpu.Cuda.WorkQueue.{
  WorkQueueLaunch, plan_work_queue_launch, plan_work_queue_launch_fills,
}
use cycle_enumeration_gpu.Examples.{edge_to, triangle, triangle-IsValid}

single-Sorted : (ts : List ℤ) (k : ℕ) → Sorted ts k (suc k)
single-Sorted ts k i j a b c = let e : i ≡ j = omega arith in rw e (omega arith)

pub triangle-AllTimed : AllTimed triangle
triangle-AllTimed = (
  (
    (omega arith, omega arith, single-Sorted triangle.timestamps 0),
    (
      (omega arith, omega arith, single-Sorted triangle.timestamps 1),
      (
        (omega arith, omega arith, single-Sorted triangle.timestamps 2),
        ((omega arith, omega arith, single-Sorted triangle.timestamps 3), tt),
      ),
    ),
  ),
  (
    (omega arith, omega arith, single-Sorted triangle.timestamps 1),
    (
      (omega arith, omega arith, single-Sorted triangle.timestamps 3),
      (
        (omega arith, omega arith, single-Sorted triangle.timestamps 0),
        ((omega arith, omega arith, single-Sorted triangle.timestamps 2), tt),
      ),
    ),
  ),
)

-- Each timestamp of the triangle, and a window of width 3.
triangle_windows : (i : ℕ) → FitsWindow (value_at triangle.timestamps i) (pos 3)
triangle_windows zero = (omega arith, unfold ◌+ℤ◌ in omega arith)
triangle_windows (suc zero) = (omega arith, unfold ◌+ℤ◌ in omega arith)
triangle_windows (suc (suc zero)) = (omega arith, unfold ◌+ℤ◌ in omega arith)
triangle_windows (suc (suc (suc zero))) = (omega arith, unfold ◌+ℤ◌ in omega arith)
triangle_windows (suc (suc (suc (suc i)))) = (omega arith, unfold ◌+ℤ◌ in omega arith)

-- The cycle that begins with 0 → 1 at the time 1.
abbrev first_edge : CycleUnionRequest
first_edge = record { root = 0; first_vertex = 1; start_timestamp = pos 1; window_width = pos 3 }

incoming-Turned : (v : ℕ) → All (Turned (incoming_of triangle) v) (outgoing_of triangle v)
unfolding row_of
incoming-Turned zero = (
  record { turned = edge_to 0 0; stands = inl refl; leads = refl; begins = refl; ends = refl },
  tt,
)
incoming-Turned (suc zero) = (
  record { turned = edge_to 1 1; stands = inl refl; leads = refl; begins = refl; ends = refl },
  (
    record { turned = edge_to 1 2; stands = inl refl; leads = refl; begins = refl; ends = refl },
    tt,
  ),
)
incoming-Turned (suc (suc zero)) = (
  record {
    turned = edge_to 2 3;
    stands = inr (inl refl);
    leads = refl;
    begins = refl;
    ends = refl;
  },
  tt,
)
incoming-Turned (suc (suc (suc v))) = let e : 0 - get_or (4 ∷ []) v 0 ≡ 0 = omega arith in rw e tt

outgoing-Turned : (v : ℕ) → All (Turned (outgoing_of triangle) v) (incoming_of triangle v)
unfolding row_of
outgoing-Turned zero = (
  record { turned = edge_to 0 1; stands = inl refl; leads = refl; begins = refl; ends = refl },
  (
    record { turned = edge_to 0 3; stands = inl refl; leads = refl; begins = refl; ends = refl },
    tt,
  ),
)
outgoing-Turned (suc zero) = (
  record { turned = edge_to 1 0; stands = inl refl; leads = refl; begins = refl; ends = refl },
  tt,
)
outgoing-Turned (suc (suc zero)) = (
  record {
    turned = edge_to 2 2;
    stands = inr (inl refl);
    leads = refl;
    begins = refl;
    ends = refl;
  },
  tt,
)
outgoing-Turned (suc (suc (suc v))) = let e : 0 - get_or (4 ∷ []) v 0 ≡ 0 = omega arith in rw e tt

triangle-IsMirrored : IsMirrored triangle
triangle-IsMirrored = record {
  incoming = λ v e m. All-mem _ (outgoing_of triangle v) e (incoming-Turned v) m;
  outgoing = λ v e m. All-mem _ (incoming_of triangle v) e (outgoing-Turned v) m;
}

cycle_union_example :
    (u : CycleUnion) × (compute_temporal_cycle_union triangle first_edge ≡ ok u)
    × ((w : ℕ) → w < 3 → (contains u w ≡ ok true) ↔ IsBetween triangle first_edge w)
    × ((1 ≤ u.included_count) ↔ ((w : ℕ) × (w < 3) × IsBetween triangle first_edge w))
cycle_union_example =
    compute_temporal_cycle_union-IsBetween triangle first_edge triangle-IsValid triangle-AllTimed
      triangle-IsMirrored (triangle_windows 0) (omega arith) (omega arith)

device_events_example :
    (t : StartEventSet) × (build_temporal_start_events triangle (pos 3) true ≡ ok t)
    × ((ev : CudaStartEvent)
        → (ev ∈ t.events) ↔ (IsStart triangle ev × HasBetween triangle (pos 3) ev))
    × (length t.events + t.dropped_by_cycle_union ≡ t.generated)
device_events_example =
    build_temporal_start_events-HasBetween triangle (pos 3) triangle-IsValid triangle-AllTimed
      triangle-IsMirrored (omega arith)
      (λ ev start.
        subst (λ t. FitsWindow t (pos 3)) (sym start.happens) (triangle_windows start.offset))

branch_split_example :
    (h : CycleHistogram) × (out : BranchSplit) × (count_simple_cycles triangle none ≡ ok h)
    × (split_static_search triangle 2 none ≡ ok out)
    × All (λ (i : SplitWorkItem). length i.prefix ≡ 2) out.items
    × ((size : ℕ) → 2 ≤ size → count out.closed size ≡ 0)
    × ((size : ℕ)
        → count h size
          ≡ count out.closed size + how_many size (continuations triangle none 2 out.items))
branch_split_example =
    split_static_search_counts triangle none 2 triangle-IsValid (omega arith) tt (omega arith)
      (unfold all_cycles cycles_from cycles_at row_of in omega arith)

work_queue_example :
    (launch : WorkQueueLaunch) × (plan_work_queue_launch 10 128 16 4 ≡ ok launch)
    × (launch.block_size ≡ 128)
    × ((blocks : ℕ) → (blocks ≤ launch.grid_blocks) ↔ ((blocks ≤ 16 * 4) × (blocks ≤ 10)))
work_queue_example =
    plan_work_queue_launch_fills 10 128 16 4 (omega arith) (omega arith) (omega arith) (omega arith)

timestamp_groups_example :
    (rows : List (List Group)) × (build_outgoing_timestamp_groups triangle ≡ ok (layout rows))
    × StandFor triangle.timestamps rows triangle.outgoing_edges
timestamp_groups_example = build_outgoing_timestamp_groups_lem triangle (omega arith)

no_cycle_lost_example :
    (t : StartEventSet) × (build_temporal_start_events triangle (pos 3) true ≡ ok t)
    × ((ev : CudaStartEvent)
        → IsStart triangle ev
        → Returns triangle ev.root (ev.start_timestamp +ℤ pos 3) ev.start_timestamp ev.first_vertex
        → ev ∈ t.events)
no_cycle_lost_example =
    build_temporal_start_events_safe triangle (pos 3) triangle-IsValid triangle-AllTimed
      (omega arith)
      (λ ev start.
        subst (λ t. FitsWindow t (pos 3)) (sym start.happens) (triangle_windows start.offset))
