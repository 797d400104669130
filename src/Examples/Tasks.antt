-- ===== src/Examples/Tasks.antt =====
-- The counter with tasks at the triangle.
use cycle_enumeration_gpu.Prelude.{
  ℕ, ◌+◌, ◌≤◌, ◌≡◌, refl, true, [], ◌∷◌, none, arith, ok, ◌>>=◌, ◌>>◌, All,
}
use cycle_enumeration_gpu.Prelude.Int.{pos}
use cycle_enumeration_gpu.Core.GraphView.Rows.{row_of}
use cycle_enumeration_gpu.Cycles.{all_cycles, cycles_from, cycles_at}
use cycle_enumeration_gpu.Cycles.Views.{view_cycles}
use cycle_enumeration_gpu.Openmp.Johnson.{resolve_thread_count}
use cycle_enumeration_gpu.Openmp.ReadTarjanTasks.{
  Step, Run, Outcome, Pool, region, root_loop, waiting, root_task, run_job, validate_arguments,
  merge_locals,
}
use cycle_enumeration_gpu.Openmp.ReadTarjanTasks.Pending.{works}
use cycle_enumeration_gpu.Openmp.ReadTarjanTasks.Invariant.{FinePool, Long, Run-Fine}
use cycle_enumeration_gpu.Openmp.ReadTarjanTasks.Agree.{
  Inevitably, Ends, tasks_finish, complete_run, tasks_agree,
}
use cycle_enumeration_gpu.Core.Histogram.{no_cycles}
use cycle_enumeration_gpu.Examples.{triangle, triangle-IsValid, triangle_run, two_and_three}

tasks_finish_example :
    Inevitably triangle none 2 (Ends triangle none 2 two_and_three) (region triangle none 2 3)
tasks_finish_example =
    tasks_finish triangle none 2 3 two_and_three triangle-IsValid (omega arith) triangle_run

-- A pool in which the first task waits.
abbrev after_one : Pool triangle none 2
after_one = record {
  jobs = waiting (root_task triangle none 0) ∷ root_loop (1 ∷ 2 ∷ []) ∷ [];
  local_histograms = no_cycles ∷ no_cycles ∷ [];
}

one_step : Run triangle none 2 2 1 after_one
unfolding run_job
one_step = Run.next Run.begin (
    Step.run [] (root_loop (0 ∷ 1 ∷ 2 ∷ [])) [] (no_cycles ∷ no_cycles ∷ []) 1 no_cycles no_cycles
      (waiting (root_task triangle none 0) ∷ root_loop (1 ∷ 2 ∷ []) ∷ []) refl refl)

triangle-Long : All Long (view_cycles triangle none)
unfolding all_cycles cycles_from cycles_at row_of
triangle-Long = (omega arith, (omega arith, tt))

pool_example :
    FinePool triangle none 2 2 after_one
    × (1 + works triangle none after_one.jobs ≤ works triangle none (region triangle none 2 2).jobs)
pool_example = Run-Fine triangle none 2 2 triangle-IsValid triangle-Long one_step

all_run : (k : ℕ) × (p : Pool triangle none 2) × Run triangle none 2 2 k p × (p.jobs ≡ [])
all_run = complete_run triangle none 2 2 two_and_three triangle-IsValid (omega arith) triangle_run

all_run-Outcome : Outcome triangle none 2 true (pos 2) (merge_locals all_run.1.local_histograms)
unfolding validate_arguments resolve_thread_count
all_run-Outcome = Outcome.together (pos 2) all_run.0 all_run.1 refl refl all_run.2 all_run.3

tasks_agree_example : merge_locals all_run.1.local_histograms ≡ (
    validate_arguments none 2
    >> (resolve_thread_count true (pos 2) >>= λ threads. ok two_and_three))
tasks_agree_example =
    tasks_agree triangle none 2 true (pos 2) two_and_three (merge_locals all_run.1.local_histograms)
      triangle-IsValid triangle_run all_run-Outcome
