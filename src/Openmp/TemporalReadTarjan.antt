-- ===== src/Openmp/TemporalReadTarjan.antt =====
-- The parallel temporal Read-Tarjan search (src/openmp/openmp_temporal_read_tarjan.cpp). The worker of
-- a thread is the sequential search with counters of work, which wrap at 64 bits. As for the other
-- parallel counter, whether OpenMP is there and the schedule of the roots are parameters. An exception
-- that leaves the parallel region, which ends the program, is an error of the call here.
pub mod Agree
use cycle_enumeration_gpu.Prelude.{
  ℕ, zero, suc, ◌+◌, ◌%◌, ◌^◌, Bool, ◌&&◌, List, Option, if◌then◌else◌, range, Result, ok, err,
  ◌>>=◌, for_each,
}
use cycle_enumeration_gpu.Prelude.Int.{ℤ, pos, ltb_ℤ}
use cycle_enumeration_gpu.Core.Histogram.{CycleHistogram, no_cycles, merge}
use cycle_enumeration_gpu.Core.GraphView.{GraphView}
use cycle_enumeration_gpu.Core.GraphView.Csr.{collect}
use cycle_enumeration_gpu.Sequential.TemporalReadTarjan.{Worker, Counters, start, new_search}
use cycle_enumeration_gpu.Sequential.Bruteforce.TimeWindow.{each_start}
use cycle_enumeration_gpu.Openmp.Johnson.{resolve_thread_count}

pub record TemporalReadTarjanStats : Type 0 where
  pub dfs_states : ℕ
  pub closing_time_prunes : ℕ
  pub timestamp_extensions : ℕ

pub record TemporalReadTarjanResult : Type 0 where
  pub histogram : CycleHistogram
  pub stats : TemporalReadTarjanStats

-- Sums of `std::uint64_t`.
abbrev pub u64 : ℕ → ℕ
u64 n = n % 2 ^ 64

abbrev pub no_stats : TemporalReadTarjanStats
no_stats = record { dfs_states = 0; closing_time_prunes = 0; timestamp_extensions = 0 }

-- `++dfs_states`, `++closing_time_prunes` and `timestamp_extensions += range.size()`.
abbrev pub stats_counters : Counters TemporalReadTarjanStats
stats_counters = record {
  entered = λ s. record s { dfs_states = u64 (s.dfs_states + 1) };
  pruned = λ s. record s { closing_time_prunes = u64 (s.closing_time_prunes + 1) };
  extended = λ n s. record s { timestamp_extensions = u64 (s.timestamp_extensions + n) };
}

pub merge_stats : TemporalReadTarjanStats → TemporalReadTarjanStats → TemporalReadTarjanStats
merge_stats target source = record {
  dfs_states = u64 (target.dfs_states + source.dfs_states);
  closing_time_prunes = u64 (target.closing_time_prunes + source.closing_time_prunes);
  timestamp_extensions = u64 (target.timestamp_extensions + source.timestamp_extensions);
}

abbrev pub result : Worker TemporalReadTarjanStats → TemporalReadTarjanResult
result w = record { histogram = w.search.histogram; stats = w.work }

-- `merged.histogram.merge(local.histogram); merge_stats(merged.stats, local.stats);`
pub merge_result :
    TemporalReadTarjanResult → TemporalReadTarjanResult → Result TemporalReadTarjanResult
unfolding merge_stats
merge_result local merged = do
  h ← merge merged.histogram local.histogram
  ok (record { histogram = h; stats = merge_stats merged.stats local.stats })

module _ (g : GraphView) (width : ℤ) (limit : Option ℕ) where
  -- The search of a worker from a start event.
  pub worker_start :
      ℕ → ℕ → ℤ → Worker TemporalReadTarjanStats → Result (Worker TemporalReadTarjanStats)
  unfolding start
  worker_start = start stats_counters g width limit

  pub count_root : ℕ → Worker TemporalReadTarjanStats → Result (Worker TemporalReadTarjanStats)
  unfolding worker_start
  count_root root = each_start g (worker_start root) root

  -- A worker, the roots that it is handed, and its result.
  pub count_roots : List ℕ → Result TemporalReadTarjanResult
  unfolding new_search count_root
  count_roots roots = do
    worker ← new_search stats_counters g width limit no_stats
    done ← for_each count_root roots worker
    ok (result done)

  pub count_single_thread : Result TemporalReadTarjanResult
  unfolding count_roots
  count_single_thread = count_roots (range g.vertex_count)

  -- The parallel region, and the merge of the local results.
  pub count_parallel : List (List ℕ) → Result TemporalReadTarjanResult
  unfolding count_roots collect merge_result
  count_parallel schedule = do
    locals ← collect count_roots schedule
    for_each merge_result locals (record { histogram = no_cycles; stats = no_stats })

  pub count_with_stats : Bool → List (List ℕ) → ℤ → Result TemporalReadTarjanResult
  unfolding resolve_thread_count count_single_thread count_parallel
  count_with_stats available schedule requested = do
    threads ← resolve_thread_count available requested
    if available && ltb_ℤ (pos 1) threads then count_parallel schedule else count_single_thread

  pub count_openmp : Bool → List (List ℕ) → ℤ → Result CycleHistogram
  unfolding count_with_stats
  count_openmp available schedule requested = do
    r ← count_with_stats available schedule requested
    ok r.histogram
