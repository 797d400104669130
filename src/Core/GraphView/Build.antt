-- ===== src/Core/GraphView/Build.antt =====
-- `build_graph_view` (src/core/graph_builder.cpp). The offsets that the source writes while it
-- appends the rows are those of `offsets_from`.
pub mod Valid
use cycle_enumeration_gpu.Prelude.{
  ℕ, zero, suc, ◌+◌, Bool, List, [], ◌∷◌, ◌++◌, ltb, ◌==◌, if◌then◌else◌, length, set, replicate,
  map, Result, ok, err, ◌>>=◌, ◌>>◌, at, throw_if, for_each, overflow_error,
}
use cycle_enumeration_gpu.Prelude.Int.{ℤ}
use cycle_enumeration_gpu.Prelude.Sort.{sort}
use cycle_enumeration_gpu.Core.Graph
use cycle_enumeration_gpu.Core.Graph.{TemporalEdge, TemporalGraph}
use cycle_enumeration_gpu.Core.GraphView.{AdjacencyEntry, GraphView}
use cycle_enumeration_gpu.Core.GraphView.Csr.{offsets_from, concat}

-- std::numeric_limits<EdgeId>::max()
abbrev pub max_edge_id : ℕ
max_edge_id = 4294967295

-- `lhs.vertex` before `rhs.vertex`, or the smaller edge id at the same vertex.
abbrev pub order_entries : AdjacencyEntry → AdjacencyEntry → Bool
order_entries lhs rhs =
    if lhs.vertex == rhs.vertex then ltb lhs.edge_id rhs.edge_id else ltb lhs.vertex rhs.vertex

pub record Buckets : Type 0 where
  pub outgoing_by_vertex : List (List AdjacencyEntry)
  pub incoming_by_vertex : List (List AdjacencyEntry)
  pub timestamps : List ℤ
  pub edge_id : ℕ

-- `rows[i].push_back(x)`
abbrev pub push_at :
    List (List AdjacencyEntry) → ℕ → AdjacencyEntry → Result (List (List AdjacencyEntry))
push_at rows i x = do r ← at rows i; ok (set rows i (r ++ x ∷ []))

pub add_edge : TemporalEdge → Buckets → Result Buckets
add_edge edge b = do
  let begin = length b.timestamps
  let stamps = b.timestamps ++ edge.timestamps
  let entry = λ (v : ℕ).
      let e : AdjacencyEntry = record {
        vertex = v;
        edge_id = b.edge_id;
        timestamp_begin = begin;
        timestamp_end = length stamps;
      } in
      e
  outgoing ← push_at b.outgoing_by_vertex edge.source (entry edge.target)
  incoming ← push_at b.incoming_by_vertex edge.target (entry edge.source)
  ok (record {
    outgoing_by_vertex = outgoing;
    incoming_by_vertex = incoming;
    timestamps = stamps;
    edge_id = suc b.edge_id;
  })

-- The sorted rows, laid one behind the other.
abbrev pub flatten_rows : ℕ → Buckets → GraphView
flatten_rows n b =
    let outgoing = map (sort order_entries) b.outgoing_by_vertex in
    let incoming = map (sort order_entries) b.incoming_by_vertex in
    record {
      vertex_count = n;
      outgoing_offsets = offsets_from 0 outgoing;
      outgoing_edges = concat outgoing;
      incoming_offsets = offsets_from 0 incoming;
      incoming_edges = concat incoming;
      timestamps = b.timestamps;
    }

unfoldable pub build_graph_view : TemporalGraph → Result GraphView
unfolding add_edge sort offsets_from concat
build_graph_view graph = do
  throw_if (ltb max_edge_id (Graph.edge_count graph)) overflow_error
  let n = Graph.vertex_count graph
  b ← for_each add_edge graph.edges (record {
    outgoing_by_vertex = replicate n [];
    incoming_by_vertex = replicate n [];
    timestamps = [];
    edge_id = 0;
  })
  ok (flatten_rows n b)
