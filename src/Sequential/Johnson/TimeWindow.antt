-- ===== src/Sequential/Johnson/TimeWindow.antt =====
-- Johnson's search for cycles in a time window (src/sequential/johnson.cpp, class
-- JohnsonTimeWindowSearch). It shares the state and `unblock` with the static search.
use cycle_enumeration_gpu.Prelude.{
  ℕ, zero, suc, Bool, true, false, not, ◌&&◌, ◌||◌, [], ◌∷◌, Option, leb, ◌==◌, if◌then◌else◌,
  length, tail, replicate, range, Result, ok, err, ◌>>=◌, ◌>>◌, at, for_each, out_of_fuel,
}
use cycle_enumeration_gpu.Prelude.Int.{ℤ}
use cycle_enumeration_gpu.Core.Histogram.{CycleHistogram, no_cycles}
use cycle_enumeration_gpu.Core.GraphView.{AdjacencyEntry, GraphView, outgoing_row}
use cycle_enumeration_gpu.Cycles.{at_limit}
use cycle_enumeration_gpu.Sequential.Bruteforce.{validate_max_cycle_length}
use cycle_enumeration_gpu.Sequential.Bruteforce.TimeWindow.{edge_has_timestamp, each_start}
use cycle_enumeration_gpu.Sequential.Johnson.{Johnson, push, record_cycle, unblock, depend}

-- `reset_state`
reset_state : GraphView → ℕ → Johnson → Johnson
reset_state g root s = record s {
  blocked = replicate g.vertex_count false;
  blocked_list = replicate g.vertex_count [];
  path = root ∷ [];
}

module _ (g : GraphView) (width : ℤ) (limit : Option ℕ) (root : ℕ) (start : ℤ) where
  window_add_to_blocked_lists : ℕ → Johnson → Result Johnson
  window_add_to_blocked_lists vertex s = do
    edges ← outgoing_row g vertex
    for_each
        (λ (e : AdjacencyEntry) s. if e.vertex == root then ok s else (do
          inside ← edge_has_timestamp g width root e vertex start
          if inside then depend vertex e.vertex s else ok s))
        edges s

  window_circuit_edge :
      (ℕ → Johnson → Result (Johnson × Bool))
      → ℕ
      → AdjacencyEntry
      → Johnson × Bool
      → Result (Johnson × Bool)
  window_circuit_edge call vertex edge (s, found) = do
    let next = edge.vertex
    inside ← edge_has_timestamp g width root edge vertex start
    if not inside
        then ok (s, found)
        else if next == root && leb 2 (length s.path)
        then (do t ← record_cycle s; ok (t, true))
        else (do
          closed ← at s.blocked next
          if closed || at_limit limit (length s.path)
              then ok (s, found)
              else (do (t, hit) ← call next s; ok (t, hit || found)))

  window_circuit : ℕ → ℕ → Johnson → Result (Johnson × Bool)
  unfolding window_circuit_edge window_add_to_blocked_lists unblock
  window_circuit zero vertex s = err out_of_fuel
  window_circuit (suc fuel) vertex s = do
    edges ← outgoing_row g vertex
    (t, found) ←
        for_each (window_circuit_edge (window_circuit fuel) vertex) edges (push vertex s, false)
    u ←
        if found
        then unblock (suc g.vertex_count) vertex t
        else window_add_to_blocked_lists vertex t
    ok (record u { path = tail u.path }, found)

-- The fuel is one unit for each vertex; that it is enough is not shown.
unfoldable pub count_time_window_cycles_johnson : GraphView → ℤ → Option ℕ → Result CycleHistogram
unfolding window_circuit reset_state validate_max_cycle_length edge_has_timestamp
count_time_window_cycles_johnson g width limit = do
  validate_max_cycle_length limit
  t ←
      for_each
        (λ root.
          each_start g
            (λ first start s.
              window_circuit g width limit root start g.vertex_count first (reset_state g root s)
              >>= λ (t, found). ok t)
            root)
        (range g.vertex_count)
        (record {
          histogram = no_cycles;
          blocked = replicate g.vertex_count false;
          blocked_list = replicate g.vertex_count [];
          path = [];
        })
  ok t.histogram
