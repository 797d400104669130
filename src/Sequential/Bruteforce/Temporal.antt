-- ===== src/Sequential/Bruteforce/Temporal.antt =====
-- `count_temporal_cycles_bruteforce` (src/sequential/bruteforce.cpp): sequences of events along a
-- simple cycle whose timestamps rise within the window of the first.
pub mod Runs
pub mod Starts
pub mod Adds
use cycle_enumeration_gpu.Prelude.{
  ℕ, zero, suc, ◌-◌, false, ◌&&◌, ◌||◌, [], Option, leb, ◌==◌, if◌then◌else◌, length, replicate,
  range, range_from, Result, ok, err, ◌>>=◌, ◌>>◌, at, for_each, out_of_fuel,
}
use cycle_enumeration_gpu.Prelude.Int.{ℤ}
use cycle_enumeration_gpu.Core.Histogram.{CycleHistogram, no_cycles, increment}
use cycle_enumeration_gpu.Core.GraphView.{AdjacencyEntry, GraphView, outgoing_row}
use cycle_enumeration_gpu.Core.Timestamp.{
  TimestampRange, is_empty, size, checked_window_end, timestamps_after,
}
use cycle_enumeration_gpu.Cycles.{at_limit, cycle_length}
use cycle_enumeration_gpu.Sequential.Bruteforce.{Search, enter, leave, validate_max_cycle_length}
use cycle_enumeration_gpu.Sequential.Bruteforce.TimeWindow.{
  validate_window_width, each_start, start_from,
}

-- `histogram.increment(path.size(), range.size())`
abbrev pub record_cycles : TimestampRange → Search → Result Search
record_cycles r s = do
  h ← increment (cycle_length s.path) (size r) s.histogram
  ok (record s { histogram = h })

module _ (g : GraphView) (width : ℤ) (limit : Option ℕ) where
  pub temporal_edge :
      (ℕ → ℤ → Search → Result Search) → ℕ → ℤ → ℤ → AdjacencyEntry → Search → Result Search
  temporal_edge call root window_end previous edge s = do
    let next = edge.vertex
    r ← timestamps_after g.timestamps edge.timestamp_begin edge.timestamp_end previous window_end
    if is_empty r
        then ok s
        else if next == root && leb 2 (length s.path)
        then record_cycles r s
        else (do
          seen ← at s.visited next
          if seen || at_limit limit (length s.path) then ok s else (do
            t ←
                for_each (λ offset t. at g.timestamps offset >>= λ time. call next time t)
                  (range_from r.begin (r.end - r.begin)) (enter next s)
            ok (leave next t)))

  pub temporal_dfs : ℕ → ℕ → ℤ → ℕ → ℤ → Search → Result Search
  unfolding temporal_edge
  temporal_dfs zero root window_end current previous s = err out_of_fuel
  temporal_dfs (suc fuel) root window_end current previous s = do
    edges ← outgoing_row g current
    for_each (temporal_edge (temporal_dfs fuel root window_end) root window_end previous) edges s

  pub temporal_root : ℕ → Search → Result Search
  unfolding temporal_dfs checked_window_end
  temporal_root root =
      each_start g
        (λ first start s. checked_window_end start width >>= λ window_end.
          temporal_dfs g.vertex_count root window_end first start (start_from g root first s))
        root

  unfoldable pub count_temporal_cycles : Result CycleHistogram
  unfolding temporal_root validate_max_cycle_length
  count_temporal_cycles = do
    validate_max_cycle_length limit
    validate_window_width width
    t ←
        for_each temporal_root (range g.vertex_count)
          (record { histogram = no_cycles; visited = replicate g.vertex_count false; path = [] })
    ok t.histogram
