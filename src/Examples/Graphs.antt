-- ===== src/Examples/Graphs.antt =====
-- The graphs and their changes: the theorems at concrete inputs.
use cycle_enumeration_gpu.Prelude.{
  length, ◌≤◌, ltb, ◌&&◌, ℕ, zero, suc, ◌<◌, ◌≡◌, refl, ◌↔◌, [], ◌∷◌, some, arith, ok, ◌∈◌,
  Distinct, inl, inr, ap,
}
use cycle_enumeration_gpu.Prelude.Int.{pos_part, pos}
use cycle_enumeration_gpu.Core.GraphView.{GraphView}
use cycle_enumeration_gpu.Core.GraphView.Rows.{IsValid, row_of}
use cycle_enumeration_gpu.Cycles.Views.{successors}
use cycle_enumeration_gpu.Core.Graph
use cycle_enumeration_gpu.Core.Graph.{TemporalEdge, TemporalGraph, compact_id, external_id}
use cycle_enumeration_gpu.Core.Graph.Ids.{compact_id_iff}
use cycle_enumeration_gpu.Core.GraphView.Build.{build_graph_view}
use cycle_enumeration_gpu.Core.GraphView.Build.Valid.{build_graph_view-IsValid}
use cycle_enumeration_gpu.Dynamic.EdgeChange.{EdgeBatch}
use cycle_enumeration_gpu.Dynamic.DirectedGraph.{
  DirectedGraph, apply_batch, build_directed_graph, has_edge, holds_vertex,
}
use cycle_enumeration_gpu.Dynamic.DirectedGraph.Laws as GraphLaws
use cycle_enumeration_gpu.Dynamic.DirectedGraph.Laws.{apply_batch_edges, edge_after, change}
use cycle_enumeration_gpu.Dynamic.DirectedGraph.Normal.{apply_batch-normalize}
use cycle_enumeration_gpu.Dynamic.EdgeChange.{normalize}
use cycle_enumeration_gpu.Dynamic.DirectedGraph.FromView.{build_directed_graph_edges}
use cycle_enumeration_gpu.Examples.{triangle, triangle-IsValid}

abbrev two_edges : TemporalGraph
two_edges = Graph.new (pos 7 ∷ pos 9 ∷ []) (
    record { source = 0; target = 1; timestamps = pos 3 ∷ pos 5 ∷ [] }
    ∷ record { source = 1; target = 0; timestamps = pos 4 ∷ [] }
    ∷ [])

build_example :
    (view : GraphView) × (build_graph_view two_edges ≡ ok view)
    × (view.vertex_count ≡ 2)
    × IsValid view
unfolding Graph.new
build_example = build_graph_view-IsValid two_edges (omega arith) (omega arith)

-- 0 → 1 and 1 → 0.
abbrev pair_graph : DirectedGraph
pair_graph = record { vertex_count = 2; offsets = 0 ∷ 1 ∷ 2 ∷ []; neighbors = 1 ∷ 0 ∷ [] }

below_two : (P : ℕ → Type 0) → P 0 → P 1 → (v : ℕ) → v < 2 → P v
below_two P a b zero h = a
below_two P a b (suc zero) h = b
below_two P a b (suc (suc v)) h = absurd (omega arith)

pair_graph-IsValid : GraphLaws.IsValid pair_graph
pair_graph-IsValid = record {
  layout = record {
    size = refl;
    ascending = below_two _ (omega arith) (omega arith);
    inside = below_two _ (omega arith) (omega arith);
  };
  rows = below_two _ (unfold row_of in omega arith) (unfold row_of in omega arith);
}

-- The edge from 0 goes, and a loop at 1 comes.
abbrev small_batch : EdgeBatch
small_batch = record { deletions = change 0 1 ∷ []; insertions = change 1 1 ∷ [] }

apply_batch_example :
    (h : DirectedGraph) × (apply_batch pair_graph small_batch ≡ ok h)
    × (h.vertex_count ≡ 2)
    × GraphLaws.IsValid h
    × ((s t : ℕ) → has_edge h s t ≡ ok (ltb s 2 && edge_after pair_graph small_batch s t))
apply_batch_example = apply_batch_edges pair_graph small_batch pair_graph-IsValid

from_view_example :
    (h : DirectedGraph) × (build_directed_graph triangle ≡ ok h)
    × GraphLaws.IsValid h
    × ((s t : ℕ) → has_edge h s t ≡ ok (ltb s 3 && holds_vertex (successors triangle s) t))
from_view_example = build_directed_graph_edges triangle triangle-IsValid

normalize_example :
    (h h' : DirectedGraph) × (apply_batch pair_graph small_batch ≡ ok h)
    × (apply_batch pair_graph (normalize small_batch) ≡ ok h')
    × GraphLaws.IsValid h
    × GraphLaws.IsValid h'
    × ((s t : ℕ) → has_edge h s t ≡ has_edge h' s t)
normalize_example = apply_batch-normalize pair_graph small_batch pair_graph-IsValid

two_edges-Distinct : Distinct two_edges.external_ids
unfolding Graph.new
two_edges-Distinct = (apart, ((λ m. m), tt))
  where
    seven_is_not_nine : ¬ (◌≡◌ {A = ℕ} 7 9)
    seven_is_not_nine e = omega arith

    apart : ¬ (pos 7 ∈ pos 9 ∷ [])
    apart (inl e) = seven_is_not_nine (ap pos_part e)
    apart (inr m) = m

two_edges_low : length two_edges.external_ids ≤ 4294967296
unfolding Graph.new
two_edges_low = omega arith

compact_id_example :
    (compact_id two_edges (pos 9) ≡ some 1) ↔ (external_id two_edges 1 ≡ ok (pos 9))
compact_id_example = compact_id_iff two_edges (pos 9) 1 two_edges_low two_edges-Distinct
