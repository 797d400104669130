-- ===== src/Openmp/Johnson.antt =====
-- The parallel counter of static cycles (src/openmp/openmp_johnson.cpp) and the check of the
-- thread count (src/openmp/openmp_config.cpp). Its `dfs` is, statement for statement, that of the
-- baseline, and is taken from there. What the OpenMP runtime decides is a parameter: whether it is
-- there, and a schedule, which lists for each thread the roots that it takes, in order.
pub mod Agree
use cycle_enumeration_gpu.Prelude.{
  ℕ, Bool, true, false, not, ◌&&◌, List, [], ◌∷◌, Option, if◌then◌else◌, set, replicate, range,
  Result, ok, err, ◌>>=◌, ◌>>◌, throw_if, for_each, invalid_argument, runtime_error,
}
use cycle_enumeration_gpu.Prelude.Int.{ℤ, pos, ltb_ℤ}
use cycle_enumeration_gpu.Core.Histogram.{CycleHistogram, no_cycles, merge}
use cycle_enumeration_gpu.Core.GraphView.{GraphView}
use cycle_enumeration_gpu.Core.GraphView.Csr.{collect}
use cycle_enumeration_gpu.Sequential.Bruteforce.{Search, simple_dfs, validate_max_cycle_length}

unfoldable pub resolve_thread_count : Bool → ℤ → Result ℤ
resolve_thread_count available requested = do
  throw_if (not (ltb_ℤ (pos 0) requested)) invalid_argument
  throw_if (not available && ltb_ℤ (pos 1) requested) runtime_error
  ok requested

-- A thread's histogram, flags and path before its first root.
abbrev pub fresh : CycleHistogram → Search
fresh h = record { histogram = h; visited = []; path = [] }

module _ (g : GraphView) (limit : Option ℕ) where
  unfoldable pub count_root : ℕ → Search → Result Search
  count_root root s =
      simple_dfs g limit g.vertex_count root root
        (record s { visited = set (replicate g.vertex_count false) root true; path = root ∷ [] })

  -- The roots of one thread, counted into its own histogram.
  unfoldable pub count_roots : List ℕ → Result CycleHistogram
  unfolding count_root
  count_roots roots = for_each count_root roots (fresh no_cycles) >>= λ t. ok t.histogram

  unfoldable pub count_single_thread : Result CycleHistogram
  unfolding count_roots
  count_single_thread = count_roots (range g.vertex_count)

  -- The parallel region, and the merge of the local histograms.
  count_parallel : List (List ℕ) → Result CycleHistogram
  unfolding count_roots collect
  count_parallel schedule = do
    locals ← collect count_roots schedule
    for_each (λ local merged. merge merged local) locals no_cycles

  pub count_simple_cycles_openmp : Bool → List (List ℕ) → ℤ → Result CycleHistogram
  unfolding resolve_thread_count count_single_thread count_parallel validate_max_cycle_length
  count_simple_cycles_openmp available schedule requested = do
    validate_max_cycle_length limit
    threads ← resolve_thread_count available requested
    if available && ltb_ℤ (pos 1) threads then count_parallel schedule else count_single_thread
