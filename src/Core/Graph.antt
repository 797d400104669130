-- ===== src/Core/Graph.antt =====
-- The temporal multigraph with compact vertex ids (src/core/graph.cpp,
-- include/cycle_enum/core/graph.hpp). Ids and offsets are natural numbers, external ids and
-- timestamps are integers. Reading a file into a graph is not modelled.
pub mod Ids
use cycle_enumeration_gpu.Prelude.{
  ℕ, suc, ◌+◌, ◌%◌, ◌^◌, ◌&&◌, List, [], ◌∷◌, Option, none, some, leb, ◌==◌, if◌then◌else◌, Result,
  ◌>>◌, throw_if, at, length, out_of_range,
}
use cycle_enumeration_gpu.Prelude.Int.{ℤ, eqb_ℤ}

pub record TemporalEdge : Type 0 where
  pub source : ℕ
  pub target : ℕ
  pub timestamps : List ℤ

pub record TemporalGraph : Type 0 where
  pub external_ids : List ℤ
  pub edges : List TemporalEdge
  pub timestamp_count : ℕ

abbrev pub count_timestamps : List TemporalEdge → ℕ → ℕ
count_timestamps [] sum = sum
count_timestamps (e ∷ es) sum = count_timestamps es (sum + length e.timestamps)

-- The constructor.
unfoldable pub new : List ℤ → List TemporalEdge → TemporalGraph
new ids es = record { external_ids = ids; edges = es; timestamp_count = count_timestamps es 0 }

abbrev pub vertex_count : TemporalGraph → ℕ
vertex_count g = length g.external_ids

abbrev pub edge_count : TemporalGraph → ℕ
edge_count g = length g.edges

pub external_id : TemporalGraph → ℕ → Result ℤ
external_id g v = do throw_if (leb (length g.external_ids) v) out_of_range; at g.external_ids v

-- `std::find`; the position is cast to 32 bits.
find_id : List ℤ → ℤ → ℕ → Option ℕ
find_id [] x i = none
find_id (y ∷ ys) x i = if eqb_ℤ y x then some (i % 2 ^ 32) else find_id ys x (suc i)

pub compact_id : TemporalGraph → ℤ → Option ℕ
unfolding find_id
compact_id g external = find_id g.external_ids external 0

find_if_edge : List TemporalEdge → ℕ → ℕ → Option TemporalEdge
find_if_edge [] s t = none
find_if_edge (e ∷ es) s t = if e.source == s && e.target == t then some e else find_if_edge es s t

pub find_edge : TemporalGraph → ℕ → ℕ → Option TemporalEdge
unfolding find_if_edge
find_edge g s t = find_if_edge g.edges s t
