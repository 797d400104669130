-- ===== src/Sequential/Bruteforce/TimeWindow.antt =====
-- `count_time_window_cycles_bruteforce` (src/sequential/bruteforce.cpp): simple cycles each of whose
-- edges has some timestamp in the window of the start edge.
use cycle_enumeration_gpu.Prelude.{
  ℕ, zero, suc, ◌-◌, Bool, true, false, not, ◌&&◌, ◌||◌, [], ◌∷◌, Option, ltb, leb, ◌==◌,
  if◌then◌else◌, length, set, replicate, range, range_from, Result, ok, err, ◌>>=◌, ◌>>◌, at,
  throw_if, for_each, invalid_argument, out_of_fuel,
}
use cycle_enumeration_gpu.Prelude.Int.{ℤ, pos, ltb_ℤ}
use cycle_enumeration_gpu.Core.Histogram.{CycleHistogram, no_cycles}
use cycle_enumeration_gpu.Core.GraphView.{AdjacencyEntry, GraphView, outgoing_row}
use cycle_enumeration_gpu.Core.Timestamp.{inclusive, after_start, has_timestamp_in_window}
use cycle_enumeration_gpu.Cycles.{at_limit}
use cycle_enumeration_gpu.Sequential.Bruteforce.{
  Search, enter, leave, record_cycle, validate_max_cycle_length,
}

abbrev pub validate_window_width : ℤ → Result (Unit {0})
validate_window_width width = throw_if (ltb_ℤ width (pos 0)) invalid_argument

-- Vertices below the root must be entered at or after the start, the others after it.
unfoldable pub edge_has_timestamp : GraphView → ℤ → ℕ → AdjacencyEntry → ℕ → ℤ → Result Bool
edge_has_timestamp g width root edge current start =
    has_timestamp_in_window g.timestamps edge.timestamp_begin edge.timestamp_end start width
      (if ltb current root then inclusive else after_start)

-- The loops over the edges of a root and over the timestamps of each, which run a search for every
-- start event.
abbrev pub each_start : {S : Type 0} → GraphView → (ℕ → ℤ → S → Result S) → ℕ → S → Result S
each_start g search root s = do
  edges ← outgoing_row g root
  for_each
      (λ (e : AdjacencyEntry).
        for_each (λ offset s. at g.timestamps offset >>= λ start. search e.vertex start s)
          (range_from e.timestamp_begin (e.timestamp_end - e.timestamp_begin)))
      edges s

-- `path` and `visited` as they are set up for a start edge.
abbrev pub start_from : GraphView → ℕ → ℕ → Search → Search
start_from g root first s = record s {
  path = first ∷ root ∷ [];
  visited = set (set (replicate g.vertex_count false) root true) first true;
}

module _ (g : GraphView) (width : ℤ) (limit : Option ℕ) where
  window_edge : (ℕ → Search → Result Search) → ℕ → ℤ → ℕ → AdjacencyEntry → Search → Result Search
  unfolding edge_has_timestamp
  window_edge call root start current edge s = do
    let next = edge.vertex
    inside ← edge_has_timestamp g width root edge current start
    if not inside
        then ok s
        else if next == root && leb 2 (length s.path)
        then record_cycle s
        else (do
          seen ← at s.visited next
          if seen || at_limit limit (length s.path)
              then ok s
              else (do t ← call next (enter next s); ok (leave next t)))

  window_dfs : ℕ → ℕ → ℤ → ℕ → Search → Result Search
  unfolding window_edge
  window_dfs zero root start current s = err out_of_fuel
  window_dfs (suc fuel) root start current s = do
    edges ← outgoing_row g current
    for_each (window_edge (window_dfs fuel root start) root start current) edges s

  window_root : ℕ → Search → Result Search
  unfolding window_dfs
  window_root root =
      each_start g
        (λ first start s. window_dfs g.vertex_count root start first (start_from g root first s))
        root

  unfoldable pub count_time_window_cycles : Result CycleHistogram
  unfolding window_root validate_max_cycle_length
  count_time_window_cycles = do
    validate_max_cycle_length limit
    validate_window_width width
    t ←
        for_each window_root (range g.vertex_count)
          (record { histogram = no_cycles; visited = replicate g.vertex_count false; path = [] })
    ok t.histogram
