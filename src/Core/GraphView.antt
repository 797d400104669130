-- ===== src/Core/GraphView.antt =====
-- The compressed adjacency arrays that every search reads (src/core/graph_builder.cpp,
-- include/cycle_enum/core/graph_view.hpp).
pub mod Rows
pub mod Csr
pub mod Build
use cycle_enumeration_gpu.Prelude.{
  ℕ, zero, suc, ◌+◌, ◌-◌, ◌≤◌, ◌<◌, ◌≡◌, List, [], ◌∷◌, leb, Result, ok, err, ◌>>=◌, ◌>>◌, throw_if,
  at, length, out_of_range, get_or, All,
}
use cycle_enumeration_gpu.Prelude.Int.{ℤ}

pub record AdjacencyEntry : Type 0 where
  pub vertex : ℕ
  pub edge_id : ℕ
  pub timestamp_begin : ℕ
  pub timestamp_end : ℕ

pub record GraphView : Type 0 where
  pub vertex_count : ℕ
  pub outgoing_offsets : List ℕ
  pub outgoing_edges : List AdjacencyEntry
  pub incoming_offsets : List ℕ
  pub incoming_edges : List AdjacencyEntry
  pub timestamps : List ℤ

abbrev pub edge_count : GraphView → ℕ
edge_count g = length g.outgoing_edges

abbrev pub timestamp_count : GraphView → ℕ
timestamp_count g = length g.timestamps

validate_vertex : GraphView → ℕ → Result (Unit {0})
validate_vertex g v = throw_if (leb g.vertex_count v) out_of_range

-- `offsets[vertex + 1] - offsets[vertex]`
degree : List ℕ → ℕ → Result ℕ
degree offsets v = do begin ← at offsets v; end ← at offsets (suc v); ok (end - begin)

pub out_degree : GraphView → ℕ → Result ℕ
unfolding validate_vertex degree
out_degree g v = do validate_vertex g v; degree g.outgoing_offsets v

pub in_degree : GraphView → ℕ → Result ℕ
unfolding validate_vertex degree
in_degree g v = do validate_vertex g v; degree g.incoming_offsets v

-- `n` reads from offset `begin` on.
pub read_range {ℓ} : {A : Type ℓ} → List A → ℕ → ℕ → Result (List A)
read_range xs begin zero = ok []
read_range xs begin (suc n) = do x ← at xs begin; rest ← read_range xs (suc begin) n; ok (x ∷ rest)

-- The entries that the loop `for (offset = offsets[v]; offset < offsets[v + 1]; ++offset)` visits.
-- No loop writes to these arrays, so that the entries are read first changes nothing.
unfoldable pub row {ℓ} : {A : Type ℓ} → List ℕ → List A → ℕ → Result (List A)
unfolding read_range
row offsets entries v = do
  begin ← at offsets v
  end ← at offsets (suc v)
  read_range entries begin (end - begin)

abbrev pub outgoing_row : GraphView → ℕ → Result (List AdjacencyEntry)
outgoing_row g v = row g.outgoing_offsets g.outgoing_edges v

abbrev pub incoming_row : GraphView → ℕ → Result (List AdjacencyEntry)
incoming_row g v = row g.incoming_offsets g.incoming_edges v
