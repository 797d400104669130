-- ===== src/Sequential/TemporalReadTarjan.antt =====
-- The temporal Read-Tarjan search (src/sequential/temporal_read_tarjan.cpp): the baseline's search,
-- which goes on from a vertex only if a way back to the root is open. The search of the OpenMP worker
-- has the same statements and counts its work besides, so the counters of work are a parameter here;
-- the sequential search has none.
pub mod Runs
pub mod Agree
use cycle_enumeration_gpu.Prelude.{
  ℕ, zero, suc, ◌-◌, false, true, not, ◌&&◌, ◌||◌, [], Option, none, leb, ◌==◌, if◌then◌else◌,
  length, replicate, range, range_from, Result, ok, err, ◌>>=◌, ◌>>◌, at, for_each, out_of_fuel,
}
use cycle_enumeration_gpu.Prelude.Int.{ℤ, pos}
use cycle_enumeration_gpu.Core.Histogram.{CycleHistogram, no_cycles}
use cycle_enumeration_gpu.Core.GraphView.{AdjacencyEntry, GraphView, outgoing_row}
use cycle_enumeration_gpu.Core.Timestamp.{is_empty, size, checked_window_end, timestamps_after}
use cycle_enumeration_gpu.Cycles.{at_limit}
use cycle_enumeration_gpu.Sequential.Bruteforce.{Search, enter, leave, validate_max_cycle_length}
use cycle_enumeration_gpu.Sequential.Bruteforce.TimeWindow.{each_start, start_from}
use cycle_enumeration_gpu.Sequential.Bruteforce.Temporal.{record_cycles}
use cycle_enumeration_gpu.Sequential.Closing.{Closing, can_reach_root}

-- `histogram_`, `visited_` and `path_`, `closing_after_`, and the counters of work.
pub record Worker (Work : Type 0) : Type 0 where
  pub search : Search
  pub closing_after : Closing
  pub work : Work

-- What counts work: a call of `extend`, a call that is pruned, and the events of an edge.
pub record Counters (Work : Type 0) : Type 0 where
  pub entered : Work → Work
  pub pruned : Work → Work
  pub extended : ℕ → Work → Work

module _ {Work : Type 0} (counters : Counters Work) (g : GraphView) (width : ℤ)
    (limit : Option ℕ) where
  pub extend_edge :
      (ℕ → ℤ → Worker Work → Result (Worker Work))
      → ℕ
      → ℤ
      → ℤ
      → AdjacencyEntry
      → Worker Work
      → Result (Worker Work)
  extend_edge call root window_end previous edge s = do
    let next = edge.vertex
    r ← timestamps_after g.timestamps edge.timestamp_begin edge.timestamp_end previous window_end
    if is_empty r
        then ok s
        else if next == root && leb 2 (length s.search.path)
        then (do
          t ← record_cycles r s.search
          ok (record s { search = t; work = counters.extended (size r) s.work }))
        else (do
          seen ← at s.search.visited next
          if seen || at_limit limit (length s.search.path) then ok s else (do
            t ←
                for_each (λ offset t. at g.timestamps offset >>= λ time. call next time t)
                  (range_from r.begin (r.end - r.begin))
                  (record s {
                    search = enter next s.search;
                    work = counters.extended (size r) s.work;
                  })
            ok (record t { search = leave next t.search })))

  pub extend : ℕ → ℕ → ℤ → ℕ → ℤ → Worker Work → Result (Worker Work)
  unfolding extend_edge
  extend zero root window_end current previous s = err out_of_fuel
  extend (suc fuel) root window_end current previous s = do
    (reaches, closing) ←
        can_reach_root g root window_end (suc (length g.timestamps)) current previous
          s.closing_after
    let t = record s { closing_after = closing; work = counters.entered s.work }
    if not reaches then ok (record t { work = counters.pruned t.work }) else (do
      edges ← outgoing_row g current
      for_each (extend_edge (extend fuel root window_end) root window_end previous) edges t)

  unfoldable pub start : ℕ → ℕ → ℤ → Worker Work → Result (Worker Work)
  unfolding extend checked_window_end
  start root first start_timestamp s = do
    window_end ← checked_window_end start_timestamp width
    extend g.vertex_count root window_end first start_timestamp (record s {
      search = start_from g root first s.search;
      closing_after = replicate g.vertex_count none;
    })

  -- One round of the loop over the roots.
  unfoldable pub run_root : ℕ → Worker Work → Result (Worker Work)
  unfolding start
  run_root root = each_start g (start root) root

  -- The constructor of the search.
  unfoldable pub new_search : Work → Result (Worker Work)
  unfolding validate_max_cycle_length checked_window_end
  new_search work = do
    validate_max_cycle_length limit
    checked ← checked_window_end (pos 0) width
    ok (record {
      search = record {
        histogram = no_cycles;
        visited = replicate g.vertex_count false;
        path = [];
      };
      closing_after = [];
      work = work;
    })

-- The sequential search counts no work.
abbrev pub no_counters : Counters (Unit {0})
no_counters = record { entered = λ w. w; pruned = λ w. w; extended = λ n w. w }

pub count_temporal_cycles_read_tarjan : GraphView → ℤ → Option ℕ → Result CycleHistogram
unfolding new_search run_root
count_temporal_cycles_read_tarjan g width limit = do
  s ← new_search no_counters g width limit tt
  t ← for_each (run_root no_counters g width limit) (range g.vertex_count) s
  ok t.search.histogram
