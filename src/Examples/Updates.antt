-- ===== src/Examples/Updates.antt =====
-- A change of the triangle, and the theorems on updates at it.
use cycle_enumeration_gpu.Prelude.{
  length, range, ◌%◌, ℕ, zero, suc, ◌<◌, ◌≡◌, refl, ◌↔◌, true, List, [], ◌∷◌, ◌-◌, get_or, arith,
  ◌+◌, ok, ◌>>=◌, ◌∈◌, Distinct,
}
use cycle_enumeration_gpu.Prelude.Int.{pos}
use cycle_enumeration_gpu.Core.GraphView.Rows.{row_of}
use mathlib.Core.List.{Permᴰ}
use cycle_enumeration_gpu.Dynamic.ThroughEdge.{
  Scan, index_of, forbidden_before, count_cycles_through_edge,
}
use cycle_enumeration_gpu.Dynamic.ThroughEdge.Counts
use cycle_enumeration_gpu.Dynamic.ThroughEdge.Buffer.{Clear}
use cycle_enumeration_gpu.Dynamic.ThroughEdge.Paths.{IsThrough}
use cycle_enumeration_gpu.Dynamic.ThroughEdge.Scans.{neighbors_of}
use cycle_enumeration_gpu.Dynamic.ThroughEdge.Owned.{IsClosed, count_cycles_through_edge_counts}
use cycle_enumeration_gpu.Dynamic.Update.{update_static_histogram}
use cycle_enumeration_gpu.Dynamic.UpdateOpenmp.{update_static_histogram_openmp}
use cycle_enumeration_gpu.Dynamic.UpdateOpenmp.Agree.{update_openmp_agrees}
use cycle_enumeration_gpu.Core.GraphView.Csr.{concat, collect}
use cycle_enumeration_gpu.Openmp.Johnson.{resolve_thread_count}
use cycle_enumeration_gpu.Dynamic.EdgeChange.{EdgeBatch}
use cycle_enumeration_gpu.Dynamic.DirectedGraph.{DirectedGraph, apply_batch}
use cycle_enumeration_gpu.Dynamic.DirectedGraph.Laws.{change}
use cycle_enumeration_gpu.Dynamic.EdgeChange.{normalize}
use cycle_enumeration_gpu.Examples.{below_three, two_and_three}

-- The edges of the triangle, without their times.
abbrev triangle_graph : DirectedGraph
triangle_graph = record {
  vertex_count = 3;
  offsets = 0 ∷ 1 ∷ 3 ∷ 4 ∷ [];
  neighbors = 1 ∷ 0 ∷ 2 ∷ 0 ∷ [];
}

triangle_graph-IsClosed : IsClosed triangle_graph
triangle_graph-IsClosed = record {
  layout = record {
    size = refl;
    ascending = below_three _ (omega arith) (omega arith) (omega arith);
    inside = below_three _ (omega arith) (omega arith) (omega arith);
  };
  inside = omega arith;
}

triangle_graph-Distinct : (x : ℕ) → Distinct (neighbors_of triangle_graph x)
unfolding row_of
triangle_graph-Distinct zero = omega arith
triangle_graph-Distinct (suc zero) = omega arith
triangle_graph-Distinct (suc (suc zero)) = omega arith
triangle_graph-Distinct (suc (suc (suc x))) =
    let e : 0 - get_or (4 ∷ []) x 0 ≡ 0 = omega arith in rw e tt

-- Both ways back to 0 go, and a way back to 1 comes.
abbrev way_back : EdgeBatch
way_back = record { deletions = change 2 0 ∷ change 1 0 ∷ []; insertions = change 2 1 ∷ [] }

four_zeros : (j : ℕ) → get_or (0 ∷ 0 ∷ 0 ∷ 0 ∷ []) j 0 < 18446744073709551616
four_zeros zero = omega arith
four_zeros (suc zero) = omega arith
four_zeros (suc (suc zero)) = omega arith
four_zeros (suc (suc (suc zero))) = omega arith
four_zeros (suc (suc (suc (suc j)))) = omega arith

two_is_not_zero : ¬ (◌≡◌ {A = ℕ} 2 0)
two_is_not_zero e = omega arith

changed_edge_example :
    (r : Scan) × (cycles : List (List ℕ)) × (count_cycles_through_edge triangle_graph 2 0 1
        (index_of way_back.deletions)
        3
        (record { visited = []; counts = 0 ∷ 0 ∷ 0 ∷ 0 ∷ [] })
      ≡ ok r)
    × Clear r.visited
    × Distinct cycles
    × ((c : List ℕ) → c ∈ cycles → Distinct c)
    × ((c : List ℕ)
        → (c ∈ cycles)
          ↔ IsThrough
              (neighbors_of triangle_graph)
              (λ x y. forbidden_before (index_of way_back.deletions) x y 1)
              2
              3
              0
              c)
    × ((j : ℕ)
        → get_or r.counts j 0
          ≡ (get_or (0 ∷ 0 ∷ 0 ∷ 0 ∷ []) j 0 + Counts.how_many j cycles) % 18446744073709551616)
changed_edge_example =
    count_cycles_through_edge_counts triangle_graph 2 0 1 (index_of way_back.deletions) 3
      (record { visited = []; counts = 0 ∷ 0 ∷ 0 ∷ 0 ∷ [] }) triangle_graph-IsClosed
      triangle_graph-Distinct (omega arith) (omega arith) two_is_not_zero (omega arith) refl
      four_zeros (0, refl)

-- The triangle after the batch.
abbrev after_way_back : DirectedGraph
after_way_back = record {
  vertex_count = 3;
  offsets = 0 ∷ 1 ∷ 2 ∷ 3 ∷ [];
  neighbors = 1 ∷ 2 ∷ 1 ∷ [];
}

after_way_back-IsClosed : IsClosed after_way_back
after_way_back-IsClosed = record {
  layout = record {
    size = refl;
    ascending = below_three _ (omega arith) (omega arith) (omega arith);
    inside = below_three _ (omega arith) (omega arith) (omega arith);
  };
  inside = omega arith;
}

way_back_run : apply_batch triangle_graph (normalize way_back) ≡ ok after_way_back
unfolding apply_batch normalize collect
way_back_run = refl

deletions_once :
    Permᴰ {A = ℕ}
      (concat ((1 ∷ []) ∷ (0 ∷ []) ∷ []))
      (range (length (normalize way_back).deletions))
unfolding concat normalize
deletions_once = Permᴰ.swap refl refl

insertions_once :
    Permᴰ {A = ℕ} (concat ((0 ∷ []) ∷ [])) (range (length (normalize way_back).insertions))
unfolding concat normalize
insertions_once = Permᴰ.cons refl Permᴰ.nil

update_openmp_example :
    update_static_histogram_openmp true
      ((1 ∷ []) ∷ (0 ∷ []) ∷ [])
      ((0 ∷ []) ∷ [])
      triangle_graph
      two_and_three
      way_back
      3
      (pos 2)
    ≡ (resolve_thread_count true (pos 2) >>= λ threads.
        update_static_histogram triangle_graph two_and_three way_back 3)
update_openmp_example =
    update_openmp_agrees true ((1 ∷ []) ∷ (0 ∷ []) ∷ []) ((0 ∷ []) ∷ []) triangle_graph
      after_way_back two_and_three way_back 3 (pos 2) triangle_graph-IsClosed
      after_way_back-IsClosed (omega arith) way_back_run deletions_once insertions_once
