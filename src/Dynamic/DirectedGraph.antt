-- ===== src/Dynamic/DirectedGraph.antt =====
-- The static graph that updates search (src/dynamic/directed_graph.cpp,
-- include/cycle_enum/dynamic/directed_graph.hpp). `std::binary_search` says whether the sorted range
-- holds the value. A graph is assembled from its rows, each behind the one before.
pub mod Laws
pub mod FromView
pub mod Normal
use cycle_enumeration_gpu.Prelude.{
  ℕ, zero, suc, ◌+◌, Bool, true, false, not, ◌||◌, List, [], ◌∷◌, ◌++◌, leb, ltb, ◌==◌,
  if◌then◌else◌, length, set, replicate, range, map, Result, ok, err, ◌>>=◌, ◌>>◌, at,
}
use cycle_enumeration_gpu.Prelude.Int.{ℤ, pos}
use cycle_enumeration_gpu.Prelude.Sort.{sort, unique}
use cycle_enumeration_gpu.Core.Graph
use cycle_enumeration_gpu.Core.Graph.{TemporalEdge}
use cycle_enumeration_gpu.Core.GraphView.{AdjacencyEntry, GraphView, row, outgoing_row}
use cycle_enumeration_gpu.Core.GraphView.Csr.{offsets_from, concat, collect}
use cycle_enumeration_gpu.Core.GraphView.Build.{build_graph_view}
use cycle_enumeration_gpu.Dynamic.EdgeChange.{EdgeChange, EdgeBatch, same_change, change_lt}

pub record DirectedGraph : Type 0 where
  pub vertex_count : ℕ
  pub offsets : List ℕ
  pub neighbors : List ℕ

-- The arrays that hold the rows one behind the other.
unfoldable pub assemble : List (List ℕ) → DirectedGraph
unfolding offsets_from concat
assemble rows = record {
  vertex_count = length rows;
  offsets = offsets_from 0 rows;
  neighbors = concat rows;
}

-- `std::sort` and `erase(unique(...))` of a row.
abbrev pub tidy : List ℕ → List ℕ
tidy r = unique ◌==◌ (sort ltb r)

unfoldable pub build_from_lists : List (List ℕ) → DirectedGraph
unfolding assemble sort unique
build_from_lists adjacency = assemble (map tidy adjacency)

unfoldable pub build_directed_graph : GraphView → Result DirectedGraph
unfolding build_from_lists row
build_directed_graph view = do
  adjacency ←
      collect
        (λ source.
          outgoing_row view source >>= λ es. ok (map (λ (e : AdjacencyEntry). e.vertex) es))
        (range view.vertex_count)
  ok (build_from_lists adjacency)

unfoldable pub row_at : DirectedGraph → ℕ → Result (List ℕ)
unfolding row
row_at g v = row g.offsets g.neighbors v

-- Marks the sources of the changes that are vertices.
unfoldable pub touch : ℕ → List EdgeChange → List Bool → List Bool
touch n [] flags = flags
touch n (c ∷ cs) flags = touch n cs (if ltb c.source n then set flags c.source true else flags)

unfoldable pub holds_change : List EdgeChange → EdgeChange → Bool
holds_change [] c = false
holds_change (d ∷ ds) c = same_change d c || holds_change ds c

unfoldable pub holds_vertex : List ℕ → ℕ → Bool
holds_vertex [] v = false
holds_vertex (w ∷ ws) v = w == v || holds_vertex ws v

-- The targets of the row that no deletion removes.
unfoldable pub kept : List EdgeChange → ℕ → List ℕ → List ℕ
unfolding holds_change
kept deletions source [] = []
kept deletions source (t ∷ ts) =
    if holds_change deletions (record { source = source; target = t })
    then kept deletions source ts
    else t ∷ kept deletions source ts

-- The targets that the insertions add to the source.
unfoldable pub added : List EdgeChange → ℕ → List ℕ
added [] source = []
added (c ∷ cs) source = if c.source == source then c.target ∷ added cs source else added cs source

-- The new row of a vertex: rebuilt if it is touched, else copied.
unfoldable pub new_row : DirectedGraph → EdgeBatch → List Bool → ℕ → Result (List ℕ)
unfolding row_at kept added sort unique
new_row base batch touched source = do
  hit ← at touched source
  old ← row_at base source
  if hit
      then ok
          (tidy (kept (sort change_lt batch.deletions) source old ++ added batch.insertions source))
      else ok old

unfoldable pub apply_batch : DirectedGraph → EdgeBatch → Result DirectedGraph
unfolding touch new_row assemble
apply_batch base batch = do
  let flags = touch base.vertex_count batch.deletions (replicate base.vertex_count false)
  let touched = touch base.vertex_count batch.insertions flags
  rows ← collect (new_row base batch touched) (range base.vertex_count)
  ok (assemble rows)

unfoldable pub has_edge : DirectedGraph → ℕ → ℕ → Result Bool
unfolding row_at holds_vertex
has_edge g source target =
    if leb g.vertex_count source
    then ok false
    else (row_at g source >>= λ r. ok (holds_vertex r target))

-- The edges out of a source, each with the timestamp 0.
abbrev pub edges_of : ℕ → List ℕ → List TemporalEdge
edges_of source [] = []
edges_of source (t ∷ ts) =
    record { source = source; target = t; timestamps = pos 0 ∷ [] } ∷ edges_of source ts

unfoldable pub to_graph_view : DirectedGraph → Result GraphView
unfolding row_at concat
to_graph_view g = do
  rows ← collect (λ source. row_at g source >>= λ r. ok (edges_of source r)) (range g.vertex_count)
  build_graph_view (Graph.new (map pos (range g.vertex_count)) (concat rows))
