-- ===== src/Sequential/Bruteforce.antt =====
-- The baseline counters (src/sequential/bruteforce.cpp). `dfs` recurs on fuel, one unit for each
-- vertex that it can put on the path, so the vertex count is enough.
pub mod Simple
pub mod Count
pub mod Enumerate
pub mod TimeWindow
pub mod Temporal
use cycle_enumeration_gpu.Prelude.{
  ℕ, zero, suc, Bool, true, false, ◌&&◌, ◌||◌, List, [], ◌∷◌, Option, none, some, ltb, leb, ◌==◌,
  if◌then◌else◌, length, tail, set, replicate, range, Result, ok, err, ◌>>=◌, ◌>>◌, at, throw_if,
  for_each, invalid_argument, out_of_fuel,
}
use cycle_enumeration_gpu.Core.Histogram.{CycleHistogram, no_cycles, increment}
use cycle_enumeration_gpu.Core.GraphView.{AdjacencyEntry, GraphView, outgoing_row}
use cycle_enumeration_gpu.Cycles.{at_limit, cycle_length}

-- What the nested loops share: the vectors `visited` and `path` (its back at the head of the list)
-- and the histogram.
pub record Search : Type 0 where
  pub histogram : CycleHistogram
  pub visited : List Bool
  pub path : List ℕ

unfoldable pub validate_max_cycle_length : Option ℕ → Result (Unit {0})
validate_max_cycle_length none = ok tt
validate_max_cycle_length (some most) = throw_if (ltb most 2) invalid_argument

-- `visited[v] = 1; path.push_back(v);`
abbrev pub enter : ℕ → Search → Search
enter v s = record s { visited = set s.visited v true; path = v ∷ s.path }

-- `path.pop_back(); visited[v] = 0;`
abbrev pub leave : ℕ → Search → Search
leave v s = record s { visited = set s.visited v false; path = tail s.path }

-- `histogram.increment(path.size())`
abbrev pub record_cycle : Search → Result Search
record_cycle s = do
  h ← increment (cycle_length s.path) 1 s.histogram
  ok (record s { histogram = h })

module _ (g : GraphView) (limit : Option ℕ) where
  -- One round of the loop over the edges of the current vertex; `call` is `dfs`.
  simple_edge : (ℕ → Search → Result Search) → ℕ → AdjacencyEntry → Search → Result Search
  simple_edge call root edge s =
      let next = edge.vertex in
      if next == root && leb 2 (length s.path) then record_cycle s else (do
        seen ← if leb next root then ok true else at s.visited next
        if seen || at_limit limit (length s.path)
            then ok s
            else (do t ← call next (enter next s); ok (leave next t)))

  pub simple_dfs : ℕ → ℕ → ℕ → Search → Result Search
  unfolding simple_edge
  simple_dfs zero root current s = err out_of_fuel
  simple_dfs (suc fuel) root current s = do
    edges ← outgoing_row g current
    for_each (simple_edge (simple_dfs fuel root) root) edges s

  simple_root : ℕ → Search → Result Search
  unfolding simple_dfs
  simple_root root s = do
    t ←
        simple_dfs g.vertex_count root root
          (record s { path = root ∷ []; visited = set s.visited root true })
    ok (record t { visited = set t.visited root false })

  unfoldable pub count_simple_cycles : Result CycleHistogram
  unfolding validate_max_cycle_length simple_root
  count_simple_cycles = do
    validate_max_cycle_length limit
    t ←
        for_each simple_root (range g.vertex_count)
          (record { histogram = no_cycles; visited = replicate g.vertex_count false; path = [] })
    ok t.histogram
