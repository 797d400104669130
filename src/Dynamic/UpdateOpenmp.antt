-- ===== src/Dynamic/UpdateOpenmp.antt =====
-- The parallel update of a histogram by a batch of changes (src/dynamic/update_openmp.cpp). What the
-- OpenMP runtime decides is a parameter: whether it is there, and for each phase a schedule, which
-- lists for each thread the ids of the changes that it takes, in order. Each thread keeps its buffer
-- of flags from one phase to the other; a thread that has none begins with an empty one.
pub mod Phases
pub mod Agree
pub mod Differences
use cycle_enumeration_gpu.Prelude.{
  ℕ, suc, ◌-◌, Bool, true, ◌&&◌, List, [], ◌∷◌, ltb, ◌==◌, if◌then◌else◌, length, set, replicate,
  range_from, map, Result, ok, ◌>>=◌, ◌>>◌, at, throw_if, for_each, invalid_argument,
}
use cycle_enumeration_gpu.Prelude.Int.{ℤ, pos, ltb_ℤ}
use cycle_enumeration_gpu.Core.Histogram.{CycleHistogram}
use cycle_enumeration_gpu.Core.GraphView.Csr.{collect}
use cycle_enumeration_gpu.Dynamic.EdgeChange.{EdgeChange, EdgeBatch, normalize}
use cycle_enumeration_gpu.Dynamic.DirectedGraph.{DirectedGraph, apply_batch}
use cycle_enumeration_gpu.Dynamic.ThroughEdge.{
  Scan, ChangedEdgeIndex, index_of, count_cycles_through_edge,
}
use cycle_enumeration_gpu.Dynamic.Update.{
  Sign, minus, plus, ◌+ll◌, Phase, add_count, apply_histogram_delta, update_static_histogram,
}
use cycle_enumeration_gpu.Openmp.Johnson.{resolve_thread_count}

-- A thread's buffer, and the ids of the changes that it takes.
abbrev pub Share : Type 0
Share = List Bool × List ℕ

-- The schedule for threads with these buffers.
abbrev pub deal : List (List Bool) → List (List ℕ) → List Share
deal buffers [] = []
deal [] (ids ∷ rest) = ([], ids) ∷ deal [] rest
deal (b ∷ buffers) (ids ∷ rest) = (b, ids) ∷ deal buffers rest

-- `delta[length] += partial[length]`
unfoldable pub add_partial_at : List ℤ → ℕ → List ℤ → Result (List ℤ)
unfolding ◌+ll◌
add_partial_at partial size delta = do
  x ← at partial size
  d ← at delta size
  ok (set delta size (d +ll x))

module _ (g : DirectedGraph) (changes : List EdgeChange) (most : ℕ) (sign : Sign) where
  -- One round of the loop that the threads share.
  unfoldable pub count_owner : ChangedEdgeIndex → ℕ → Phase → Result Phase
  unfolding count_cycles_through_edge add_count
  count_owner index owner p = do
    c ← at changes owner
    s ←
        count_cycles_through_edge g c.source c.target owner index most
          (record { visited = p.visited; counts = replicate (suc most) 0 })
    delta ← for_each (add_count sign s.counts) (range_from 2 (most - 1)) p.delta
    ok (record { visited = s.visited; delta = delta })

  unfoldable pub count_share : ChangedEdgeIndex → Share → Result Phase
  unfolding count_owner
  count_share index (buffer, ids) =
      for_each (count_owner index) ids
        (record { visited = buffer; delta = replicate (suc most) (pos 0) })

  unfoldable pub add_partial : Phase → List ℤ → Result (List ℤ)
  unfolding add_partial_at
  add_partial p delta = for_each (add_partial_at p.delta) (range_from 2 (most - 1)) delta

  -- The buffers that the threads are left with, and the differences.
  unfoldable pub accumulate_phase_parallel :
      List (List Bool) → List (List ℕ) → List ℤ → Result (List (List Bool) × List ℤ)
  unfolding count_share add_partial index_of
  accumulate_phase_parallel buffers schedule delta =
      if length changes == 0 then ok (buffers, delta) else (do
        locals ← collect (count_share (index_of changes)) (deal buffers schedule)
        sums ← for_each add_partial locals delta
        ok (map (λ (p : Phase). p.visited) locals, sums))

unfoldable pub update_static_histogram_openmp :
    Bool
    → List (List ℕ)
    → List (List ℕ)
    → DirectedGraph
    → CycleHistogram
    → EdgeBatch
    → ℕ
    → ℤ
    → Result CycleHistogram
unfolding accumulate_phase_parallel apply_batch apply_histogram_delta normalize resolve_thread_count
    update_static_histogram
update_static_histogram_openmp available first second initial_graph initial_histogram batch most
      requested =
    do
      throw_if (ltb most 2) invalid_argument
      threads ← resolve_thread_count available requested
      if available && ltb_ℤ (pos 1) threads
          then (do
            let normalized = normalize batch
            (buffers, delta) ←
                accumulate_phase_parallel initial_graph normalized.deletions most minus [] first
                  (replicate (suc most) (pos 0))
            final_graph ← apply_batch initial_graph normalized
            (_, total) ←
                accumulate_phase_parallel final_graph normalized.insertions most plus buffers second
                  delta
            apply_histogram_delta initial_histogram total most)
          else update_static_histogram initial_graph initial_histogram batch most
