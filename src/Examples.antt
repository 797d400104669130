-- ===== src/Examples.antt =====
-- Small graphs, runs of the counters on them, and the theorems at concrete inputs.
mod Updates
mod Device
mod Runs
mod Temporal
mod Tasks
mod Histograms
mod Windows
mod Graphs
use cycle_enumeration_gpu.Prelude.{
  length, range, ◌%◌, ltb, ◌&&◌, ℕ, zero, suc, ◌≤◌, ◌<◌, ◌≡◌, refl, ◌↔◌, true, List, [], ◌∷◌, none,
  some, ◌-◌, get_or, arith, ◌+◌, ok, ◌>>=◌, ◌>>◌, ◌∈◌, Distinct, inl, inr, ap,
}
use cycle_enumeration_gpu.Prelude.Int.{negsuc, pos_part, ℤ, pos, ◌+ℤ◌, ◌≤ℤ◌, ◌<ℤ◌}
use cycle_enumeration_gpu.Core.Histogram.{
  CycleHistogram, no_cycles, increment, increment_all, count, total, merge,
}
use cycle_enumeration_gpu.Core.Histogram.Laws
use cycle_enumeration_gpu.Core.Histogram.Laws.{
  eq_of_counts, increment-IsValid, count-increment, increment_returns, total_lem, sum_counts,
  merge_returns,
}
use cycle_enumeration_gpu.Core.GraphView.{AdjacencyEntry, GraphView, row}
use cycle_enumeration_gpu.Core.GraphView.Rows.{IsValid, row_of}
use cycle_enumeration_gpu.Core.Timestamp
use cycle_enumeration_gpu.Core.Timestamp.{
  TimestampRange, TimestampStartPolicy, inclusive, after_start, value_at,
}
use cycle_enumeration_gpu.Core.Timestamp.Window.{
  timestamps_in_window_lem, timestamps_after_lem, Selects, Starts, Sorted,
}
use cycle_enumeration_gpu.Cuda.Timestamp as CudaTimestamp
use cycle_enumeration_gpu.Cuda.Timestamp.Agree.{
  timestamps_in_window_agrees, timestamps_after_agrees, or_no_range,
}
use cycle_enumeration_gpu.Cycles.{tally, all_cycles, cycles_from, cycles_at, IsCycle}
use cycle_enumeration_gpu.Cycles.Complete.{all_cycles_iff}
use cycle_enumeration_gpu.Cycles.Distinct.{Distinct-all_cycles}
use cycle_enumeration_gpu.Cycles.Views.{successors, view_cycles, successors-lt}
use cycle_enumeration_gpu.Sequential.Bruteforce.{count_simple_cycles, validate_max_cycle_length}
use cycle_enumeration_gpu.Sequential.Bruteforce.Simple.{count_simple_cycles_lem}
use cycle_enumeration_gpu.Sequential.Bruteforce.Count.{count_simple_cycles_counts, how_many}
use cycle_enumeration_gpu.Sequential.Bruteforce.Enumerate.{count_simple_cycles_enumerates}
use mathlib.Core.List.{Permᴰ}
use cycle_enumeration_gpu.Dynamic.ThroughEdge.{
  Scan, index_of, forbidden_before, count_cycles_through_edge,
}
use cycle_enumeration_gpu.Dynamic.ThroughEdge.Counts
use cycle_enumeration_gpu.Dynamic.ThroughEdge.Buffer.{Clear}
use cycle_enumeration_gpu.Dynamic.ThroughEdge.Paths.{IsThrough}
use cycle_enumeration_gpu.Dynamic.ThroughEdge.Scans.{neighbors_of}
use cycle_enumeration_gpu.Dynamic.ThroughEdge.Owned.{IsClosed, count_cycles_through_edge_counts}
use cycle_enumeration_gpu.Dynamic.Update.{update_static_histogram}
use cycle_enumeration_gpu.Dynamic.UpdateOpenmp.{update_static_histogram_openmp}
use cycle_enumeration_gpu.Dynamic.UpdateOpenmp.Agree.{update_openmp_agrees}
use cycle_enumeration_gpu.Core.GraphView.Csr.{concat, collect}
use cycle_enumeration_gpu.Core.Graph
use cycle_enumeration_gpu.Core.Graph.{TemporalEdge, TemporalGraph, compact_id, external_id}
use cycle_enumeration_gpu.Core.Graph.Ids.{compact_id_iff}
use cycle_enumeration_gpu.Core.GraphView.Build.{build_graph_view}
use cycle_enumeration_gpu.Core.GraphView.Build.Valid.{build_graph_view-IsValid}
use cycle_enumeration_gpu.Openmp.Johnson.{count_simple_cycles_openmp, resolve_thread_count}
use cycle_enumeration_gpu.Openmp.Johnson.Agree.{openmp_agrees}
use cycle_enumeration_gpu.Dynamic.EdgeChange.{EdgeBatch}
use cycle_enumeration_gpu.Dynamic.DirectedGraph.{
  DirectedGraph, apply_batch, build_directed_graph, has_edge, holds_vertex,
}
use cycle_enumeration_gpu.Dynamic.DirectedGraph.Laws as GraphLaws
use cycle_enumeration_gpu.Dynamic.DirectedGraph.Laws.{apply_batch_edges, edge_after, change}
use cycle_enumeration_gpu.Dynamic.DirectedGraph.Normal.{apply_batch-normalize}
use cycle_enumeration_gpu.Dynamic.EdgeChange.{normalize}
use cycle_enumeration_gpu.Dynamic.Update.{apply_histogram_delta, add_total, add_difference, settle}
use cycle_enumeration_gpu.Dynamic.Update.Delta.{count-apply_histogram_delta, applied}
use cycle_enumeration_gpu.Dynamic.DirectedGraph.FromView.{build_directed_graph_edges}
use cycle_enumeration_gpu.Sequential.Johnson.{count_simple_cycles_johnson}
use cycle_enumeration_gpu.Sequential.Johnson.Bounded.{johnson_bounded_agrees}

abbrev pub edge_to : ℕ → ℕ → AdjacencyEntry
edge_to v i = record { vertex = v; edge_id = i; timestamp_begin = i; timestamp_end = suc i }

-- 0 → 1, 1 → 0, 1 → 2 and 2 → 0, at the times 1, 2, 3 and 4.
abbrev pub triangle : GraphView
triangle = record {
  vertex_count = 3;
  outgoing_offsets = 0 ∷ 1 ∷ 3 ∷ 4 ∷ [];
  outgoing_edges = edge_to 1 0 ∷ edge_to 0 1 ∷ edge_to 2 2 ∷ edge_to 0 3 ∷ [];
  incoming_offsets = 0 ∷ 2 ∷ 3 ∷ 4 ∷ [];
  incoming_edges = edge_to 1 1 ∷ edge_to 2 3 ∷ edge_to 0 0 ∷ edge_to 1 2 ∷ [];
  timestamps = pos 1 ∷ pos 2 ∷ pos 3 ∷ pos 4 ∷ [];
}

pub below_three : (P : ℕ → Type 0) → P 0 → P 1 → P 2 → (v : ℕ) → v < 3 → P v
below_three P a b c zero h = a
below_three P a b c (suc zero) h = b
below_three P a b c (suc (suc zero)) h = c
below_three P a b c (suc (suc (suc v))) h = absurd (omega arith)

pub triangle-IsValid : IsValid triangle
triangle-IsValid = record {
  outgoing = record {
    size = refl;
    ascending = below_three _ (omega arith) (omega arith) (omega arith);
    inside = below_three _ (omega arith) (omega arith) (omega arith);
  };
  incoming = record {
    size = refl;
    ascending = below_three _ (omega arith) (omega arith) (omega arith);
    inside = below_three _ (omega arith) (omega arith) (omega arith);
  };
  targets = omega arith;
  sources = omega arith;
}

abbrev pub two_and_three : CycleHistogram
two_and_three = record { entries = (2, 1) ∷ (3, 1) ∷ [] }

pub triangle_run : count_simple_cycles triangle none ≡ ok two_and_three
unfolding count_simple_cycles increment row
triangle_run = refl

johnson_run : count_simple_cycles_johnson triangle none ≡ ok two_and_three
unfolding count_simple_cycles_johnson increment row
johnson_run = refl

all_cycles_example :
    (c : List ℕ)
    → (c ∈ all_cycles (successors triangle) none 3)
      ↔ ((root : ℕ) × (root < 3) × IsCycle (successors triangle) none root c)
all_cycles_example =
    all_cycles_iff (successors triangle) none 3 (successors-lt triangle triangle-IsValid)

abbrev next_vertex : ℕ → List ℕ
next_vertex v = suc v ∷ []

Distinct-all_cycles_example : Distinct (all_cycles next_vertex none 4)
Distinct-all_cycles_example = Distinct-all_cycles next_vertex none 4 (λ v. (λ m. m, tt))

simple_cycles_example : count_simple_cycles triangle (some 2) ≡ (
    validate_max_cycle_length (some 2)
    >> increment_all (tally (view_cycles triangle (some 2))) no_cycles)
simple_cycles_example = count_simple_cycles_lem triangle (some 2) triangle-IsValid

counts_example :
    (h : CycleHistogram) × (count_simple_cycles triangle none ≡ ok h)
    × ((size : ℕ) → count h size ≡ how_many size (view_cycles triangle none))
counts_example =
    count_simple_cycles_counts triangle none triangle-IsValid (omega arith) tt
      (unfold all_cycles cycles_from cycles_at row_of in omega arith)

johnson_agrees_example :
    count_simple_cycles_johnson triangle (some 2) ≡ count_simple_cycles triangle (some 2)
johnson_agrees_example = johnson_bounded_agrees triangle 2 triangle-IsValid

pub triangle-Distinct : (v : ℕ) → Distinct (successors triangle v)
unfolding row_of
triangle-Distinct zero = omega arith
triangle-Distinct (suc zero) = omega arith
triangle-Distinct (suc (suc zero)) = omega arith
triangle-Distinct (suc (suc (suc v))) = let e : 0 - get_or (4 ∷ []) v 0 ≡ 0 = omega arith in rw e tt

enumerates_example :
    (h : CycleHistogram) × (cycles : List (List ℕ)) × (count_simple_cycles triangle none ≡ ok h)
    × Distinct cycles
    × ((c : List ℕ)
        → (c ∈ cycles) ↔ ((root : ℕ) × (root < 3) × IsCycle (successors triangle) none root c))
    × ((size : ℕ) → count h size ≡ how_many size cycles)
enumerates_example =
    count_simple_cycles_enumerates triangle none triangle-IsValid (omega arith) triangle-Distinct tt
      (unfold all_cycles cycles_from cycles_at row_of in omega arith)

pub taken_once : Permᴰ {A = ℕ} (concat ((2 ∷ 0 ∷ []) ∷ (1 ∷ []) ∷ [])) (0 ∷ 1 ∷ 2 ∷ [])
unfolding concat
taken_once = Permᴰ.trans (Permᴰ.swap refl refl) (Permᴰ.cons refl (Permᴰ.swap refl refl))

openmp_example :
    count_simple_cycles_openmp triangle none true ((2 ∷ 0 ∷ []) ∷ (1 ∷ []) ∷ []) (pos 2)
    ≡ (resolve_thread_count true (pos 2) >>= λ threads. ok two_and_three)
openmp_example =
    openmp_agrees triangle none true ((2 ∷ 0 ∷ []) ∷ (1 ∷ []) ∷ []) (pos 2) two_and_three
      triangle-IsValid taken_once triangle_run
