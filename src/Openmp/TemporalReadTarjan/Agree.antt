-- ===== src/Openmp/TemporalReadTarjan/Agree.antt =====
-- However the runtime hands out the roots, the parallel temporal search returns what the baseline
-- returns.
use cycle_enumeration_gpu.Prelude.{
  ℕ, ◌<◌, ◌≡◌, refl, ap, fun_ext, ◌∙◌, Bool, true, false, ◌&&◌, List, Option, if◌then◌else◌, range,
  All, All-range, All-of_mem, All-mem, flat_map, Result, ok, ◌>>=◌, >>=_assoc, for_each,
}
use mathlib.Core.List.{Permᴰ}
use cycle_enumeration_gpu.Prelude.Int.{ℤ, pos, ltb_ℤ, ◌≤ℤ◌}
use cycle_enumeration_gpu.Core.Histogram.{CycleHistogram, no_cycles, increment_all}
use cycle_enumeration_gpu.Core.GraphView.{GraphView}
use cycle_enumeration_gpu.Core.GraphView.Rows.{IsValid}
use cycle_enumeration_gpu.Core.GraphView.Csr.{concat}
use cycle_enumeration_gpu.Core.Timestamp.{max_timestamp}
use cycle_enumeration_gpu.Sequential.Bruteforce.{validate_max_cycle_length}
use cycle_enumeration_gpu.Sequential.Bruteforce.TimeWindow.{validate_window_width}
use cycle_enumeration_gpu.Sequential.Bruteforce.Temporal.{count_temporal_cycles}
use cycle_enumeration_gpu.Sequential.Bruteforce.Temporal.Starts.{does_root}
use cycle_enumeration_gpu.Sequential.CycleUnion.Correct.{AllTimed}
use cycle_enumeration_gpu.Sequential.Bruteforce.Temporal.Adds.{
  root_adds, baseline_adds, for_each-same,
}
use cycle_enumeration_gpu.Sequential.TemporalReadTarjan.{run_root}
use cycle_enumeration_gpu.Sequential.TemporalReadTarjan.Agree.{
  between, unsearched, then-new_search, run_roots-Keeps,
}
use cycle_enumeration_gpu.Openmp.Johnson.{resolve_thread_count}
use cycle_enumeration_gpu.Openmp.Merge.{Team, IsExact, run_team, run_team_agrees}
use cycle_enumeration_gpu.Openmp.TemporalReadTarjan.{
  TemporalReadTarjanResult, no_stats, stats_counters, merge_stats, result, merge_result, count_root,
  worker_start, count_roots, count_single_thread, count_parallel, count_with_stats, count_openmp,
}

module _ (g : GraphView) (width : ℤ) (limit : Option ℕ) where
  abbrev team : Team TemporalReadTarjanResult
  team = record {
    histogram_of = λ r. r.histogram;
    counted = count_roots g width limit;
    merge_local = merge_result;
  }

  -- The searches from a root make its increments, whatever the histogram.
  abbrev Counts : ℕ → Type 0
  Counts root =
      (root < g.vertex_count)
      × ((h : CycleHistogram)
          → does_root g width limit root h ≡ increment_all (root_adds g width limit root) h)

  count_roots-returns :
      IsValid g
      → AllTimed g
      → width ≤ℤ max_timestamp
      → validate_max_cycle_length limit ≡ ok tt
      → validate_window_width width ≡ ok tt
      → (roots : List ℕ) (h : CycleHistogram) → All Counts roots
      → increment_all (flat_map (root_adds g width limit) roots) no_cycles ≡ ok h
      → (local : TemporalReadTarjanResult) × (count_roots g width limit roots ≡ ok local)
        × (local.histogram ≡ h)
  unfolding count_roots count_root worker_start run_root
  count_roots-returns valid timed fits accepted wide roots h fine e =
      let (c, _, run) =
        run_roots-Keeps stats_counters g width limit valid timed.0 roots no_cycles
          (unsearched g no_stats) (All-of_mem _ roots (λ v m. (All-mem Counts roots v fine m).0)) in
      let all =
        for_each-same (does_root g width limit) (root_adds g width limit) roots
          (All-of_mem _ roots (λ v m. (All-mem Counts roots v fine m).1)) no_cycles in
      (
        result (between h c),
        then-new_search stats_counters g width limit no_stats
              (λ s. for_each (run_root stats_counters g width limit) roots s >>= λ done.
                ok (result done))
              fits
            ∙ rw (accepted, wide, run, all, e) refl,
        refl,
      )

  team-IsExact :
      IsValid g
      → AllTimed g
      → width ≤ℤ max_timestamp
      → validate_max_cycle_length limit ≡ ok tt
      → validate_window_width width ≡ ok tt
      → IsExact team (root_adds g width limit) Counts
  unfolding merge_result
  team-IsExact valid timed fits accepted wide = record {
    joined =
        λ local merged h. record { histogram = h; stats = merge_stats merged.stats local.stats };
    merges = λ local merged. refl;
    holds = λ local merged h. refl;
    counts = count_roots-returns valid timed fits accepted wide;
  }

if_both :
    (b : Bool) (one many : Result TemporalReadTarjanResult) (h : CycleHistogram)
    → (one >>= λ r. ok r.histogram) ≡ ok h
    → (many >>= λ r. ok r.histogram) ≡ ok h
    → ((if b then many else one) >>= λ r. ok r.histogram) ≡ ok h
if_both true one many h e f = f
if_both false one many h e f = e

-- Where the baseline returns a histogram on a valid view with sorted timestamps, for a width of 64
-- bits, so does the parallel temporal Read-Tarjan search, whichever thread takes which root and in
-- whatever order, as long as every root is taken exactly once; it refuses only a thread count that is
-- not positive, or above one without OpenMP.
pub temporal_openmp_agrees :
    (g : GraphView) (width : ℤ) (limit : Option ℕ) (available : Bool) (schedule : List (List ℕ))
    (requested : ℤ) (h : CycleHistogram)
    → IsValid g
    → AllTimed g
    → width ≤ℤ max_timestamp
    → Permᴰ (concat schedule) (range g.vertex_count)
    → count_temporal_cycles g width limit ≡ ok h
    → count_openmp g width limit available schedule requested
      ≡ (resolve_thread_count available requested >>= λ threads. ok h)
unfolding count_openmp count_with_stats count_single_thread count_parallel run_team
temporal_openmp_agrees g width limit available schedule requested h valid timed fits once e =
    let n = g.vertex_count in
    let (accepted, wide, each, total) = baseline_adds g width limit valid timed.0 h e in
    let fine : All (Counts g width limit) (range n) =
      All-of_mem _ (range n)
        (λ v m. (All-mem _ (range n) v (All-range n) m, All-mem _ (range n) v each m)) in
    let (one, run, same) =
      count_roots-returns g width limit valid timed fits accepted wide (range n) h fine total in
    let (merged, run', same') =
      run_team_agrees (team g width limit) (root_adds g width limit) (Counts g width limit)
        (team-IsExact g width limit valid timed fits accepted wide) schedule (range n)
        (record { histogram = no_cycles; stats = no_stats }) h refl once fine total in
    let single = count_single_thread g width limit in
    let parallel = count_parallel g width limit schedule in
    >>=_assoc (resolve_thread_count available requested)
      (λ threads. if available && ltb_ℤ (pos 1) threads then parallel else single)
      (λ r. ok r.histogram)
    ∙ ap (λ k. resolve_thread_count available requested >>= k)
        (fun_ext (λ threads.
          if_both (available && ltb_ℤ (pos 1) threads) single parallel h
            (ap (λ r. r >>= λ s. ok s.histogram) run ∙ ap ok same)
            (ap (λ r. r >>= λ s. ok s.histogram) run' ∙ ap ok same')))
