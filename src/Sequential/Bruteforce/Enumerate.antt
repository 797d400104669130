-- ===== src/Sequential/Bruteforce/Enumerate.antt =====
-- What the baseline enumerates.
use cycle_enumeration_gpu.Prelude.{ℕ, ◌≤◌, ◌<◌, ◌≡◌, ◌↔◌, List, Option, length, Distinct, ◌∈◌, ok}
use cycle_enumeration_gpu.Core.Histogram.{CycleHistogram, max_count, count}
use cycle_enumeration_gpu.Core.GraphView.{GraphView}
use cycle_enumeration_gpu.Core.GraphView.Rows.{IsValid}
use cycle_enumeration_gpu.Cycles.{IsCycle}
use cycle_enumeration_gpu.Cycles.Complete.{all_cycles_iff}
use cycle_enumeration_gpu.Cycles.Distinct.{Distinct-all_cycles}
use cycle_enumeration_gpu.Cycles.Views.{successors, view_cycles, successors-lt}
use cycle_enumeration_gpu.Sequential.Bruteforce.{count_simple_cycles}
use cycle_enumeration_gpu.Sequential.Bruteforce.Count.{
  count_simple_cycles_counts, how_many, FitsLimit,
}

-- On a valid view of fewer than 2^32 vertices in which no vertex has the same successor twice, with
-- a limit that is absent or at least 2, and where fewer than 2^64 cycles keep to the limit, the
-- counter returns a histogram. There is a list without repetitions of all simple cycles that keep
-- to the limit, each from its least vertex, and of nothing else, and at every length the histogram
-- has the number of cycles of that length in it.
pub count_simple_cycles_enumerates :
    (g : GraphView) (limit : Option ℕ)
    → IsValid g
    → g.vertex_count < 4294967296
    → ((v : ℕ) → Distinct (successors g v))
    → FitsLimit limit
    → length (view_cycles g limit) ≤ max_count
    → (h : CycleHistogram) × (cycles : List (List ℕ)) × (count_simple_cycles g limit ≡ ok h)
      × Distinct cycles
      × ((c : List ℕ)
          → (c ∈ cycles)
            ↔ ((root : ℕ) × (root < g.vertex_count) × IsCycle (successors g) limit root c))
      × ((size : ℕ) → count h size ≡ how_many size cycles)
count_simple_cycles_enumerates g limit valid small simple fits few =
    let (h, e, counts) = count_simple_cycles_counts g limit valid small fits few in
    (
      h,
      view_cycles g limit,
      e,
      Distinct-all_cycles (successors g) limit g.vertex_count simple,
      all_cycles_iff (successors g) limit g.vertex_count (successors-lt g valid),
      counts,
    )
