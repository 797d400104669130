-- ===== src/Sequential/TemporalJohnson.antt =====
-- The temporal Johnson search (src/sequential/temporal_johnson.cpp). It carries a bundle along a path:
-- the times at which the path can arrive, each with the number of ways. The ordered map is an
-- association list with its keys in ascending order.
pub mod Bundles
pub mod Arrivals
pub mod Runs
pub mod Edges
pub mod Search
pub mod Totals
pub mod Closings
pub mod Extensions
pub mod Agree
use cycle_enumeration_gpu.Prelude.{
  ℕ, zero, suc, ◌+◌, ◌-◌, ◌*◌, ◌/◌, ◌%◌, ◌^◌, Bool, false, true, not, ◌&&◌, ◌||◌, List, [], ◌∷◌,
  Option, none, ltb, leb, ◌==◌, if◌then◌else◌, length, replicate, range, range_from, Result, ok,
  err, ◌>>=◌, ◌>>◌, at, throw_if, for_each, overflow_error, out_of_fuel,
}
use cycle_enumeration_gpu.Prelude.Int.{ℤ, pos, ltb_ℤ, eqb_ℤ}
use cycle_enumeration_gpu.Core.Histogram.{max_count, CycleHistogram, no_cycles, increment}
use cycle_enumeration_gpu.Core.GraphView.{AdjacencyEntry, GraphView, outgoing_row}
use cycle_enumeration_gpu.Core.Timestamp.{size, checked_window_end, timestamps_after}
use cycle_enumeration_gpu.Cycles.{at_limit, cycle_length}
use cycle_enumeration_gpu.Sequential.Bruteforce.{enter, leave, validate_max_cycle_length}
use cycle_enumeration_gpu.Sequential.Bruteforce.TimeWindow.{start_from}
use cycle_enumeration_gpu.Sequential.Closing.{can_reach_root}
use cycle_enumeration_gpu.Sequential.TemporalReadTarjan.{Worker}

pub record TimestampCount : Type 0 where
  pub timestamp : ℤ
  pub count : ℕ

abbrev pub TimestampBundle : Type 0
TimestampBundle = List TimestampCount

-- Counters of `std::uint64_t`.
pub record TemporalJohnsonStats : Type 0 where
  pub dfs_states : ℕ
  pub closing_time_prunes : ℕ
  pub bundled_arrival_timestamps : ℕ

pub record TemporalJohnsonResult : Type 0 where
  pub histogram : CycleHistogram
  pub stats : TemporalJohnsonStats

abbrev pub no_stats : TemporalJohnsonStats
no_stats = record { dfs_states = 0; closing_time_prunes = 0; bundled_arrival_timestamps = 0 }

unfoldable pub add_count : ℕ → ℕ → Result ℕ
add_count target value = do
  throw_if (ltb (max_count - target) value) overflow_error
  ok (target + value)

unfoldable pub multiply_count : ℕ → ℕ → Result ℕ
multiply_count count multiplier =
    if count == 0 || multiplier == 0
    then ok 0
    else (do throw_if (ltb (max_count / count) multiplier) overflow_error; ok (count * multiplier))

-- `add_count(counts[timestamp], value)`, where a missing key starts from 0.
unfoldable pub add_at : ℤ → ℕ → TimestampBundle → Result TimestampBundle
unfolding add_count
add_at timestamp value [] = do
  n ← add_count 0 value
  ok (record { timestamp = timestamp; count = n } ∷ [])
add_at timestamp value (entry ∷ counts) =
    let later = add_at timestamp value counts in
    if ltb_ℤ timestamp entry.timestamp
    then (do
      n ← add_count 0 value
      ok (record { timestamp = timestamp; count = n } ∷ entry ∷ counts))
    else if eqb_ℤ timestamp entry.timestamp
    then (do n ← add_count entry.count value; ok (record entry { count = n } ∷ counts))
    else (do counts' ← later; ok (entry ∷ counts'))

module _ (g : GraphView) (window_end : ℤ) where
  -- What one arrival adds to the counts at the end of an edge.
  unfoldable pub extend_arrival :
      AdjacencyEntry → TimestampCount → TimestampBundle → Result TimestampBundle
  unfolding timestamps_after add_at
  extend_arrival edge arrival counts = do
    r ←
        timestamps_after g.timestamps edge.timestamp_begin edge.timestamp_end arrival.timestamp
          window_end
    for_each (λ offset counts. at g.timestamps offset >>= λ time. add_at time arrival.count counts)
        (range_from r.begin (r.end - r.begin)) counts

  unfoldable pub extend_bundle : TimestampBundle → AdjacencyEntry → Result TimestampBundle
  unfolding extend_arrival
  extend_bundle arrivals edge = for_each (extend_arrival edge) arrivals []

  unfoldable pub close_arrival : AdjacencyEntry → TimestampCount → ℕ → Result ℕ
  unfolding timestamps_after multiply_count add_count
  close_arrival edge arrival total = do
    r ←
        timestamps_after g.timestamps edge.timestamp_begin edge.timestamp_end arrival.timestamp
          window_end
    n ← multiply_count arrival.count (size r)
    add_count total n

  unfoldable pub closing_count : TimestampBundle → AdjacencyEntry → Result ℕ
  unfolding close_arrival
  closing_count arrivals edge = for_each (close_arrival edge) arrivals 0

-- The start events of an edge, equal times together.
unfoldable pub start_counts : GraphView → AdjacencyEntry → Result TimestampBundle
unfolding add_at
start_counts g edge =
    for_each (λ offset counts. at g.timestamps offset >>= λ time. add_at time 1 counts)
      (range_from edge.timestamp_begin (edge.timestamp_end - edge.timestamp_begin)) []

-- The search, whose counters of work are the statistics.
abbrev pub JohnsonWorker : Type 0
JohnsonWorker = Worker TemporalJohnsonStats

-- `++dfs_states; bundled_arrival_timestamps += arrivals.size();`
abbrev pub enter_state : TimestampBundle → JohnsonWorker → JohnsonWorker
enter_state arrivals s = record s {
  work = record s.work {
    dfs_states = (s.work.dfs_states + 1) % 2 ^ 64;
    bundled_arrival_timestamps = (s.work.bundled_arrival_timestamps + length arrivals) % 2 ^ 64;
  };
}

-- `++closing_time_prunes`
abbrev pub note_prune : JohnsonWorker → JohnsonWorker
note_prune s = record s {
  work = record s.work { closing_time_prunes = (s.work.closing_time_prunes + 1) % 2 ^ 64 };
}

module _ (g : GraphView) (width : ℤ) (limit : Option ℕ) where
  -- One round of the loop over the edges; `found` is `found_cycle`.
  unfoldable pub johnson_edge :
      (ℕ → TimestampBundle → JohnsonWorker → Result (Bool × JohnsonWorker))
      → ℕ
      → ℤ
      → TimestampBundle
      → AdjacencyEntry
      → Bool × JohnsonWorker
      → Result (Bool × JohnsonWorker)
  unfolding closing_count extend_bundle
  johnson_edge call root window_end arrivals edge (found, s) =
      let next = edge.vertex in
      if next == root && leb 2 (length s.search.path)
      then (do
        count ← closing_count g window_end arrivals edge
        if count == 0 then ok (found, s) else (do
          h ← increment (cycle_length s.search.path) count s.search.histogram
          ok (true, record s { search = record s.search { histogram = h } })))
      else (do
        seen ← at s.search.visited next
        if seen || at_limit limit (length s.search.path) then ok (found, s) else (do
          next_arrivals ← extend_bundle g window_end arrivals edge
          elim next_arrivals [
            | [] ↦ ok (found, s)
            | first ∷ rest ↦ (do
              (below, t) ← call next (first ∷ rest) (record s { search = enter next s.search })
              ok (below || found, record t { search = leave next t.search }))
          ]))

  unfoldable pub johnson_dfs :
      ℕ → ℕ → ℤ → ℕ → TimestampBundle → JohnsonWorker → Result (Bool × JohnsonWorker)
  unfolding johnson_edge
  johnson_dfs zero root window_end current arrivals s = err out_of_fuel
  johnson_dfs (suc fuel) root window_end current [] s = ok (false, enter_state [] s)
  johnson_dfs (suc fuel) root window_end current (first ∷ rest) s = do
    let arrivals = first ∷ rest
    let t = enter_state arrivals s
    (reaches, closing) ←
        can_reach_root g root window_end (suc (length g.timestamps)) current first.timestamp
          t.closing_after
    let u = record t { closing_after = closing }
    if not reaches then ok (false, note_prune u) else (do
      edges ← outgoing_row g current
      for_each (johnson_edge (johnson_dfs fuel root window_end) root window_end arrivals) edges
          (false, u))

  unfoldable pub start_johnson : ℕ → ℕ → TimestampCount → JohnsonWorker → Result JohnsonWorker
  unfolding johnson_dfs checked_window_end
  start_johnson root first start s = do
    window_end ← checked_window_end start.timestamp width
    (found, t) ← johnson_dfs g.vertex_count root window_end first (start ∷ []) (record s {
      search = start_from g root first s.search;
      closing_after = replicate g.vertex_count none;
    })
    ok t

  unfoldable pub start_edge : ℕ → AdjacencyEntry → JohnsonWorker → Result JohnsonWorker
  unfolding start_counts start_johnson
  start_edge root edge s = do
    counts ← start_counts g edge
    for_each (start_johnson root edge.vertex) counts s

  unfoldable pub johnson_root : ℕ → JohnsonWorker → Result JohnsonWorker
  unfolding start_edge
  johnson_root root s = do edges ← outgoing_row g root; for_each (start_edge root) edges s

  unfoldable pub new_johnson : Result JohnsonWorker
  unfolding validate_max_cycle_length checked_window_end
  new_johnson = do
    validate_max_cycle_length limit
    checked ← checked_window_end (pos 0) width
    ok (record {
      search = record {
        histogram = no_cycles;
        visited = replicate g.vertex_count false;
        path = [];
      };
      closing_after = [];
      work = no_stats;
    })

  unfoldable pub count_johnson_with_stats : Result TemporalJohnsonResult
  unfolding new_johnson johnson_root
  count_johnson_with_stats = do
    s ← new_johnson
    t ← for_each johnson_root (range g.vertex_count) s
    ok (record { histogram = t.search.histogram; stats = t.work })

  unfoldable pub count_temporal_cycles_johnson : Result CycleHistogram
  unfolding count_johnson_with_stats
  count_temporal_cycles_johnson = do r ← count_johnson_with_stats; ok r.histogram
