-- ===== src/Dynamic/ThroughEdge.antt =====
-- Cycles through one changed edge (src/dynamic/cycles_through_edge.cpp,
-- include/cycle_enum/dynamic/cycles_through_edge.hpp). `search` recurs on fuel; it enters only
-- unvisited vertices, so one unit for each vertex is enough. The buffer of visited flags, which
-- the source keeps for each thread, is handed in and returned.
pub mod Paths
pub mod Counts
pub mod Buffer
pub mod Scans
pub mod Owned
use cycle_enumeration_gpu.Prelude.{
  ℕ, zero, suc, ◌+◌, ◌*◌, ◌%◌, ◌^◌, Bool, true, false, ◌&&◌, ◌||◌, List, [], ◌∷◌, ◌++◌, Option,
  none, some, leb, ltb, ◌==◌, if◌then◌else◌, length, set, replicate, Result, ok, err, ◌>>=◌, at,
  for_each, out_of_fuel,
}
use cycle_enumeration_gpu.Dynamic.EdgeChange.{EdgeChange}
use cycle_enumeration_gpu.Dynamic.DirectedGraph.{DirectedGraph, row_at}

-- `(source << 32) | target`, for 32-bit ids.
pub edge_key : ℕ → ℕ → ℕ
edge_key source target = source * 2 ^ 32 + target

-- The unordered map from the key of a changed edge to its id.
abbrev pub ChangedEdgeIndex : Type 0
ChangedEdgeIndex = List (ℕ × ℕ)

find_id : ℕ → ChangedEdgeIndex → Option ℕ
find_id key [] = none
find_id key ((k, id) ∷ m) = if k == key then some id else find_id key m

-- `emplace` leaves a key that is there as it is.
emplace : ℕ → ℕ → ChangedEdgeIndex → ChangedEdgeIndex
unfolding find_id
emplace key id m = elim (find_id key m) [ none ↦ m ++ (key, id) ∷ [] | some _ ↦ m ]

index_from : ℕ → List EdgeChange → ChangedEdgeIndex → ChangedEdgeIndex
unfolding emplace edge_key
index_from id [] m = m
index_from id (c ∷ cs) m = index_from (suc id) cs (emplace (edge_key c.source c.target) id m)

unfoldable pub index_of : List EdgeChange → ChangedEdgeIndex
unfolding index_from
index_of changes = index_from 0 changes []

unfoldable pub forbidden_before : ChangedEdgeIndex → ℕ → ℕ → ℕ → Bool
unfolding find_id edge_key
forbidden_before index source target owner = elim (find_id (edge_key source target) index) [
  | none ↦ false
  | some id ↦ ltb id owner
]

pub record Scan : Type 0 where
  pub visited : List Bool
  pub counts : List ℕ

-- `counts[length] += 1`, where 64 bits wrap round.
abbrev pub bump : ℕ → List ℕ → Result (List ℕ)
bump size counts = do c ← at counts size; ok (set counts size ((c + 1) % 2 ^ 64))

module _ (g : DirectedGraph) (u v owner : ℕ) (index : ChangedEdgeIndex) (most : ℕ) where
  pub search_edge : (ℕ → ℕ → Scan → Result Scan) → ℕ → ℕ → ℕ → Scan → Result Scan
  unfolding forbidden_before
  search_edge call current size next s =
      if forbidden_before index current next owner
      then ok s
      else if next == u
      then (if leb 2 (suc size) && leb (suc size) most
          then (do counts ← bump (suc size) s.counts; ok (record s { counts = counts }))
          else ok s)
      else (do
        seen ← if next == v then ok true else at s.visited next
        if seen
            then ok s
            else if ltb (suc size) most
            then (do
              t ← call next (suc size) (record s { visited = set s.visited next true })
              ok (record t { visited = set t.visited next false }))
            else ok s)

  pub search : ℕ → ℕ → ℕ → Scan → Result Scan
  unfolding search_edge row_at
  search zero current size s = err out_of_fuel
  search (suc fuel) current size s = do
    neighbors ← row_at g current
    for_each (search_edge (search fuel) current size) neighbors s

-- `visited.assign(n, 0)` where the buffer is too small.
abbrev pub grow : ℕ → List Bool → List Bool
grow n visited = if ltb (length visited) n then replicate n false else visited

unfoldable pub count_cycles_through_edge :
    DirectedGraph → ℕ → ℕ → ℕ → ChangedEdgeIndex → ℕ → Scan → Result Scan
unfolding search
count_cycles_through_edge g source target owner index most s =
    if ltb most 2 || leb g.vertex_count target || leb g.vertex_count source then ok s else (do
      let marked = set (set (grow g.vertex_count s.visited) source true) target true
      t ←
          search g source target owner index most g.vertex_count target 1
            (record s { visited = marked })
      ok (record t { visited = set (set t.visited source false) target false }))
