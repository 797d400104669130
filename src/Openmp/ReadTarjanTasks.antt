-- ===== src/Openmp/ReadTarjanTasks.antt =====
-- The counter with OpenMP tasks (src/openmp/openmp_read_tarjan_tasks.cpp). The search of a subtree is,
-- statement for statement, that of the baseline, and is taken from there, with one unit of fuel for
-- each vertex that can still be put on the path.
--
-- What may run at the same time is a pool of jobs: the loop that creates a task for each root, the
-- tasks that wait, and the tasks that are amid their loop over edges. A step runs one round of any job
-- on any thread. This covers every order in which tasks can be handed to threads, also that of a thread
-- which turns to another task where it creates one. A thread's histogram is only touched by that
-- thread, so a search without such points is one step.
pub mod Pending
pub mod Invariant
pub mod Progress
pub mod Agree
use cycle_enumeration_gpu.Prelude.{
  ℕ, zero, suc, ◌-◌, ◌≡◌, Bool, true, false, ◌&&◌, ◌||◌, List, [], ◌∷◌, ◌++◌, Option, none, some,
  ltb, leb, ◌==◌, if◌then◌else◌, length, get_elem?, set, replicate, range, Result, ok, err, Error,
  ◌>>=◌, ◌>>◌, at, throw_if, for_each, invalid_argument,
}
use cycle_enumeration_gpu.Prelude.Int.{ℤ, pos, pos_part, ltb_ℤ}
use cycle_enumeration_gpu.Core.Histogram.{CycleHistogram, no_cycles, increment, merge}
use cycle_enumeration_gpu.Core.GraphView.{AdjacencyEntry, GraphView, outgoing_row}
use cycle_enumeration_gpu.Cycles.{at_limit, cycle_length}
use cycle_enumeration_gpu.Sequential.Bruteforce.{Search, simple_dfs, validate_max_cycle_length}
use cycle_enumeration_gpu.Openmp.Johnson.{resolve_thread_count}

unfoldable pub validate_arguments : Option ℕ → ℕ → Result (Unit {0})
unfolding validate_max_cycle_length
validate_arguments limit task_cutoff_depth = do
  validate_max_cycle_length limit
  throw_if (task_cutoff_depth == 0) invalid_argument

-- The private copies that a task receives.
pub record Task : Type 0 where
  pub root : ℕ
  pub path : List ℕ
  pub visited : List Bool

pub data Job : Type 0 where
  -- The loop over the roots, from these roots on.
  root_loop : List ℕ → Job
  -- A task that waits.
  waiting : Task → Job
  -- A task amid its loop, from these edges on.
  expanding : Task → List AdjacencyEntry → Job

module _ (g : GraphView) (limit : Option ℕ) where
  unfoldable pub count_subtree_serial : ℕ → Search → Result Search
  count_subtree_serial root s = do
    current ← at s.path 0
    simple_dfs g limit (suc g.vertex_count - length s.path) root current s

  unfoldable pub count_serial_root : ℕ → Search → Result Search
  unfolding count_subtree_serial
  count_serial_root root s =
      count_subtree_serial root
        (record s { visited = set (replicate g.vertex_count false) root true; path = root ∷ [] })

  unfoldable pub count_single_thread : Result CycleHistogram
  unfolding count_serial_root
  count_single_thread = do
    t ←
        for_each count_serial_root (range g.vertex_count)
          (record { histogram = no_cycles; visited = []; path = [] })
    ok t.histogram

  -- The task that the loop over the roots creates.
  abbrev pub root_task : ℕ → Task
  root_task root = record {
    root = root;
    path = root ∷ [];
    visited = set (replicate g.vertex_count false) root true;
  }

  -- The private copies of a task for a vertex: with it at the end of the path, and marked.
  abbrev pub child_task : Task → ℕ → Task
  child_task t next = record t { path = next ∷ t.path; visited = set t.visited next true }

  -- One round of the loop of `task_expand`: the thread's histogram, and the tasks that it creates.
  unfoldable pub task_edge :
      Task → AdjacencyEntry → CycleHistogram → Result (CycleHistogram × List Task)
  task_edge t edge local =
      let next = edge.vertex in
      if next == t.root && leb 2 (length t.path)
      then (do h ← increment (cycle_length t.path) 1 local; ok (h, []))
      else (do
        seen ← if leb next t.root then ok true else at t.visited next
        if seen || at_limit limit (length t.path)
            then ok (local, [])
            else ok (local, child_task t next ∷ []))

  module _ (task_cutoff_depth : ℕ) where
    -- The beginning of `task_expand`, and the jobs that the task becomes.
    unfoldable pub task_expand : Task → CycleHistogram → Result (CycleHistogram × List Job)
    unfolding count_subtree_serial
    task_expand t local =
        if leb task_cutoff_depth (length t.path)
        then (do
          s ←
              count_subtree_serial t.root
                (record { histogram = local; visited = t.visited; path = t.path })
          ok (s.histogram, []))
        else (do
          current ← at t.path 0
          edges ← outgoing_row g current
          ok (local, expanding t edges ∷ []))

    abbrev pub waiting_all : List Task → List Job → List Job
    waiting_all [] jobs = jobs
    waiting_all (t ∷ ts) jobs = waiting t ∷ waiting_all ts jobs

    -- One round of a job on a thread with the histogram `local`, and the jobs that it becomes.
    unfoldable pub run_job : Job → CycleHistogram → Result (CycleHistogram × List Job)
    unfolding task_expand task_edge
    run_job (root_loop []) local = ok (local, [])
    run_job (root_loop (root ∷ roots)) local =
        ok (local, waiting (root_task root) ∷ root_loop roots ∷ [])
    run_job (waiting t) local = task_expand t local
    run_job (expanding t []) local = ok (local, [])
    run_job (expanding t (edge ∷ edges)) local = do
      (h, created) ← task_edge t edge local
      ok (h, waiting_all created (expanding t edges ∷ []))

    -- The jobs, and the histogram of each thread.
    pub record Pool : Type 0 where
      pub jobs : List Job
      pub local_histograms : List CycleHistogram

    -- Any job runs on any thread.
    pub data Step : Pool → Pool → Type 0 where
      run :
          (before : List Job) (job : Job) (after : List Job) (locals : List CycleHistogram)
          (thread : ℕ) (local h : CycleHistogram) (created : List Job)
          → get_elem? locals thread ≡ some local
          → run_job job local ≡ ok (h, created)
          → Step
              (record { jobs = before ++ job ∷ after; local_histograms = locals })
              (record {
                jobs = before ++ (created ++ after);
                local_histograms = set locals thread h;
              })

    -- The pool of a parallel region with so many threads.
    abbrev pub region : ℕ → Pool
    region threads = record {
      jobs = root_loop (range g.vertex_count) ∷ [];
      local_histograms = replicate threads no_cycles;
    }

    -- So many steps lead from the beginning of the region to a pool.
    pub data Run (threads : ℕ) : ℕ → Pool → Type 0 where
      begin : Run threads 0 (region threads)
      next : {k : ℕ} {p q : Pool} → Run threads k p → Step p q → Run threads (suc k) q

-- The merge of the threads' histograms, after the region.
unfoldable pub merge_locals : List CycleHistogram → Result CycleHistogram
merge_locals locals = for_each (λ local merged. merge merged local) locals no_cycles

-- What a call of the counter can return: the error of a refused argument, the count of one thread, or
-- the merge after a run of the region that has emptied the pool.
pub data Outcome (g : GraphView) (limit : Option ℕ) (task_cutoff_depth : ℕ) (available : Bool)
    (requested : ℤ) : Result CycleHistogram → Type 0 where
  refused :
      (e : Error)
      → (validate_arguments limit task_cutoff_depth >> resolve_thread_count available requested)
        ≡ err e
      → Outcome g limit task_cutoff_depth available requested (err e)
  alone :
      (threads : ℤ)
      → (validate_arguments limit task_cutoff_depth >> resolve_thread_count available requested)
        ≡ ok threads
      → (available && ltb_ℤ (pos 1) threads) ≡ false
      → Outcome g limit task_cutoff_depth available requested (count_single_thread g limit)
  together :
      (threads : ℤ) (k : ℕ) (p : Pool g limit task_cutoff_depth)
      → (validate_arguments limit task_cutoff_depth >> resolve_thread_count available requested)
        ≡ ok threads
      → (available && ltb_ℤ (pos 1) threads) ≡ true
      → Run g limit task_cutoff_depth (pos_part threads) k p
      → p.jobs ≡ []
      → Outcome g limit task_cutoff_depth available requested (merge_locals p.local_histograms)
