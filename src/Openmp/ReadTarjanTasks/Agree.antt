-- ===== src/Openmp/ReadTarjanTasks/Agree.antt =====
-- Every way to run the tasks ends, and ends with what the baseline returns.
use cycle_enumeration_gpu.Prelude.{
  ℕ, zero, suc, ◌-◌, ◌<◌, ◌≡◌, refl, sym, ap, fun_ext, ◌∙◌, Bool, List, [], ◌∷◌, Option, range,
  arith, Result, ok, err, ◌>>=◌, >>=_assoc, ◌>>◌, for_each,
}
use cycle_enumeration_gpu.Prelude.Int.{ℤ, pos_part}
use cycle_enumeration_gpu.Core.Histogram.{CycleHistogram, no_cycles}
use cycle_enumeration_gpu.Core.GraphView.{GraphView}
use cycle_enumeration_gpu.Core.GraphView.Rows.{IsValid}
use cycle_enumeration_gpu.Sequential.Bruteforce.{Search, count_simple_cycles}
use cycle_enumeration_gpu.Openmp.Johnson
use cycle_enumeration_gpu.Openmp.Johnson.{fresh, resolve_thread_count}
use cycle_enumeration_gpu.Openmp.Johnson.Agree.{single_thread_agrees}
use cycle_enumeration_gpu.Openmp.ReadTarjanTasks.{
  Job, Pool, Step, Run, region, merge_locals, Outcome, count_single_thread, count_serial_root,
  count_subtree_serial, validate_arguments,
}
use cycle_enumeration_gpu.Openmp.ReadTarjanTasks.Pending.{works}
use cycle_enumeration_gpu.Openmp.ReadTarjanTasks.Invariant.{
  FinePool, Step-Fine, Run-Fine, region-Fine,
}
use cycle_enumeration_gpu.Openmp.ReadTarjanTasks.Progress.{
  Total, baseline_Total, any_job-Step, merge_locals-total,
}

module _ (g : GraphView) (limit : Option ℕ) (cutoff : ℕ) where
  -- Whatever steps are taken, a pool is reached of which `Goal` holds.
  pub data Inevitably (Goal : Pool g limit cutoff → Type 0) : Pool g limit cutoff → Type 0 where
    reached : {p : Pool g limit cutoff} → Goal p → Inevitably Goal p
    onward :
        {p : Pool g limit cutoff}
        → ((q : Pool g limit cutoff) × Step g limit cutoff p q)
        → ((q : Pool g limit cutoff) → Step g limit cutoff p q → Inevitably Goal q)
        → Inevitably Goal p

  -- No job is left, and merging the threads' histograms gives `h`.
  abbrev pub Ends : CycleHistogram → Pool g limit cutoff → Type 0
  Ends h p = (p.jobs ≡ []) × (merge_locals p.local_histograms ≡ ok h)

  module _ (threads : ℕ) (valid : IsValid g) (h : CycleHistogram) (total : Total g limit h) where
    abbrev pool : List Job → List CycleHistogram → Pool g limit cutoff
    pool jobs locals = record { jobs = jobs; local_histograms = locals }

    finish :
        (bound : ℕ) (jobs : List Job) (locals : List CycleHistogram)
        → works g limit jobs < bound
        → 0 < threads
        → FinePool g limit cutoff threads (pool jobs locals)
        → Inevitably (Ends h) (pool jobs locals)
    finish zero jobs locals small some_ f = absurd (omega arith)
    finish (suc bound) [] locals small some_ f =
        Inevitably.reached
          (refl, merge_locals-total g limit cutoff threads valid h total (pool [] locals) f refl)
    finish (suc bound) (job ∷ jobs) locals small some_ f =
        Inevitably.onward
          (any_job-Step g limit cutoff threads valid h total [] job jobs locals f 0 some_)
          (λ q s.
            let (f', less) = Step-Fine g limit cutoff threads valid s f in
            finish bound q.jobs q.local_histograms (omega arith) some_ f')

    go_on :
        (bound k : ℕ) (jobs : List Job) (locals : List CycleHistogram)
        → works g limit jobs < bound
        → 0 < threads
        → FinePool g limit cutoff threads (pool jobs locals)
        → Run g limit cutoff threads k (pool jobs locals)
        → (l : ℕ) × (q : Pool g limit cutoff) × Run g limit cutoff threads l q × (q.jobs ≡ [])
    go_on zero k jobs locals small some_ f run = absurd (omega arith)
    go_on (suc bound) k [] locals small some_ f run = (k, pool [] locals, run, refl)
    go_on (suc bound) k (job ∷ jobs) locals small some_ f run =
        let (q, s) =
          any_job-Step g limit cutoff threads valid h total [] job jobs locals f 0 some_ in
        let (f', less) = Step-Fine g limit cutoff threads valid s f in
        go_on bound (suc k) q.jobs q.local_histograms (omega arith) some_ f' (Run.next run s)

-- There is a run that empties the pool.
pub complete_run :
    (g : GraphView) (limit : Option ℕ) (cutoff threads : ℕ) (h : CycleHistogram)
    → IsValid g
    → 0 < threads
    → count_simple_cycles g limit ≡ ok h
    → (k : ℕ) × (p : Pool g limit cutoff) × Run g limit cutoff threads k p × (p.jobs ≡ [])
complete_run g limit cutoff threads h valid some_ e =
    let total = baseline_Total g limit h valid e in
    let begin = region g limit cutoff threads in
    go_on g limit cutoff threads valid h total (suc (works g limit begin.jobs)) 0 begin.jobs
      begin.local_histograms (omega arith) some_
      (region-Fine g limit cutoff threads valid total.long) Run.begin

-- Where the baseline returns a histogram on a valid view, the parallel region with at least one
-- thread cannot get stuck and cannot go on for ever: whichever job runs next, and on whichever thread,
-- a pool without jobs is reached, and there the merge of the threads' histograms gives the histogram of
-- the baseline.
pub tasks_finish :
    (g : GraphView) (limit : Option ℕ) (cutoff threads : ℕ) (h : CycleHistogram)
    → IsValid g
    → 0 < threads
    → count_simple_cycles g limit ≡ ok h
    → Inevitably g limit cutoff (Ends g limit cutoff h) (region g limit cutoff threads)
tasks_finish g limit cutoff threads h valid some_ e =
    let total = baseline_Total g limit h valid e in
    finish g limit cutoff threads valid h total
      (suc (works g limit (region g limit cutoff threads).jobs))
      (region g limit cutoff threads).jobs (region g limit cutoff threads).local_histograms
      (omega arith) some_ (region-Fine g limit cutoff threads valid total.long)

same_serial_root :
    (g : GraphView) (limit : Option ℕ) (root : ℕ) (s : Search)
    → count_serial_root g limit root s ≡ Johnson.count_root g limit root s
unfolding count_serial_root count_subtree_serial Johnson.count_root
same_serial_root g limit root s =
    let same : suc g.vertex_count - 1 ≡ g.vertex_count = omega arith in rw same refl

single_thread_same :
    (g : GraphView) (limit : Option ℕ)
    → count_single_thread g limit ≡ Johnson.count_single_thread g limit
unfolding count_single_thread Johnson.count_single_thread Johnson.count_roots
single_thread_same g limit =
    ap
      (λ step.
        for_each step (range g.vertex_count) (fresh no_cycles) >>= λ (t : Search). ok t.histogram)
      (fun_ext (λ root. fun_ext (same_serial_root g limit root)))

-- Once the arguments are accepted or refused, the rest follows.
accepted_or_refused :
    (limit : Option ℕ) (cutoff : ℕ) (available : Bool) (requested : ℤ) (h : CycleHistogram)
    (threads : Result ℤ)
    → (validate_arguments limit cutoff >> resolve_thread_count available requested) ≡ threads
    → (threads >>= λ t. ok h) ≡ (
        validate_arguments limit cutoff >> (resolve_thread_count available requested >>= λ t. ok h))
accepted_or_refused limit cutoff available requested h threads e =
    ap (λ r. r >>= λ t. ok h) (sym e)
    ∙ >>=_assoc (validate_arguments limit cutoff) (λ done. resolve_thread_count available requested)
        (λ t. ok h)

-- Where the baseline returns a histogram on a valid view, whatever the counter with tasks can return
-- is that histogram, or the error of an argument that it refuses: a limit or a cutoff that is too small,
-- or a number of threads that is not positive, or above one without OpenMP.
pub tasks_agree :
    (g : GraphView) (limit : Option ℕ) (cutoff : ℕ) (available : Bool) (requested : ℤ)
    (h : CycleHistogram) (r : Result CycleHistogram)
    → IsValid g
    → count_simple_cycles g limit ≡ ok h
    → Outcome g limit cutoff available requested r
    → r ≡ (
        validate_arguments limit cutoff
        >> (resolve_thread_count available requested >>= λ threads. ok h))
tasks_agree g limit cutoff available requested h r valid e (Outcome.refused x no_) =
    accepted_or_refused limit cutoff available requested h (err x) no_
tasks_agree g limit cutoff available requested h r valid e (Outcome.alone threads yes_ one) =
    single_thread_same g limit
    ∙ single_thread_agrees g limit valid h e
    ∙ accepted_or_refused limit cutoff available requested h (ok threads) yes_
tasks_agree g limit cutoff available requested h r valid e
      (Outcome.together threads k p yes_ many run finished) =
    let total = baseline_Total g limit h valid e in
    let (f, _) = Run-Fine g limit cutoff (pos_part threads) valid total.long run in
    merge_locals-total g limit cutoff (pos_part threads) valid h total p f finished
    ∙ accepted_or_refused limit cutoff available requested h (ok threads) yes_
