-- ===== src/Openmp/ReadTarjanTasks/Pending.antt =====
-- What the jobs of a pool are still to count, and what one round of a job does to it.
pub mod Rounds
use cycle_enumeration_gpu.Prelude.{
  ℕ, zero, suc, ◌+◌, ◌-◌, ◌<◌, ◌≡◌, Bool, true, false, ◌&&◌, ◌||◌, List, [], ◌∷◌, Option, length,
  flat_map, map, All, Result, ok, ◌>>=◌, at, ◌++◌,
}
use cycle_enumeration_gpu.Core.Histogram.{CycleHistogram, increment_all}
use cycle_enumeration_gpu.Core.GraphView.{AdjacencyEntry, GraphView}
use cycle_enumeration_gpu.Cycles.{cycles_via, cycles_from, cycles_at, tally}
use cycle_enumeration_gpu.Cycles.Marks.{marks, spare}
use cycle_enumeration_gpu.Cycles.Views.{successors}
use cycle_enumeration_gpu.Openmp.ReadTarjanTasks.{Task, Job, root_loop, waiting, expanding, run_job}

abbrev pub last_of : List ℕ → ℕ
last_of [] = 0
last_of (v ∷ path) = v

abbrev pub targets : List AdjacencyEntry → List ℕ
targets es = map (λ (e : AdjacencyEntry). e.vertex) es

module _ (g : GraphView) (limit : Option ℕ) where
  -- The cycles that a job will count, with those of the tasks that it creates.
  abbrev pub pending : Job → List (List ℕ)
  pending (root_loop roots) = flat_map (cycles_at (successors g) limit g.vertex_count) roots
  pending (waiting t) =
      cycles_from (successors g) limit t.root (suc g.vertex_count - length t.path) (last_of t.path)
        t.path
  pending (expanding t edges) =
      let deeper = cycles_from (successors g) limit t.root (g.vertex_count - length t.path) in
      flat_map (cycles_via (successors g) limit t.root deeper t.path) (targets edges)

  abbrev pub work_edges : (List ℕ → ℕ) → List ℕ → List ℕ → ℕ
  work_edges deeper path [] = 1
  work_edges deeper path (v ∷ vs) = suc (deeper (v ∷ path) + work_edges deeper path vs)

  -- A bound on the rounds of a task and of the tasks that it creates.
  unfoldable pub work_from : ℕ → List ℕ → ℕ
  work_from zero path = 1
  work_from (suc fuel) path = suc (work_edges (work_from fuel) path (successors g (last_of path)))

  abbrev pub work_roots : List ℕ → ℕ
  work_roots [] = 1
  work_roots (root ∷ roots) = suc (work_from g.vertex_count (root ∷ []) + work_roots roots)

  abbrev pub work : Job → ℕ
  work (root_loop roots) = work_roots roots
  work (waiting t) = work_from (suc g.vertex_count - length t.path) t.path
  work (expanding t edges) =
      work_edges (work_from (g.vertex_count - length t.path)) t.path (targets edges)

  abbrev pub works : List Job → ℕ
  works [] = 0
  works (job ∷ jobs) = work job + works jobs

  -- The copies of a task are those of a search at the end of its path.
  pub record FineTask (t : Task) : Type 0 where
    pub ends : at t.path 0 ≡ ok (last_of t.path)
    pub marked : t.visited ≡ marks g.vertex_count t.path
    pub inside : last_of t.path < g.vertex_count
    pub room : spare g.vertex_count t.path + length t.path ≡ g.vertex_count

  abbrev pub FineJob : Job → Type 0
  FineJob (root_loop roots) = All (λ v. v < g.vertex_count) roots
  FineJob (waiting t) = FineTask t
  FineJob (expanding t edges) =
      FineTask t × All (λ (e : AdjacencyEntry). e.vertex < g.vertex_count) edges

  -- One round counts some of the cycles of the job, leaves the others to jobs that are fine again, and
  -- leaves less work.
  pub record Round (cutoff : ℕ) (job : Job) : Type 0 where
    pub closed : List (List ℕ)
    pub created : List Job
    pub runs :
        (local : CycleHistogram)
        → run_job g limit cutoff job local
          ≡ (increment_all (tally closed) local >>= λ h. ok (h, created))
    pub splits : pending job ≡ closed ++ flat_map pending created
    pub fine : All FineJob created
    pub less : works created < work job
