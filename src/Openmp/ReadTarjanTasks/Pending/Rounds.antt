-- ===== src/Openmp/ReadTarjanTasks/Pending/Rounds.antt =====
-- Every round of a job is such a round.
use cycle_enumeration_gpu.Prelude.{
  ℕ, zero, suc, ◌-◌, ◌<◌, ◌≡◌, refl, sym, true, false, ◌&&◌, List, [], ◌∷◌, append-nil, Option, leb,
  ◌==◌, length, mem, flat_map, All, arith, inl, inr, Bool-cases, ok, ◌>>=◌,
}
use cycle_enumeration_gpu.Core.Histogram.{CycleHistogram, increment_all}
use cycle_enumeration_gpu.Core.Histogram.Laws.{increment_all-nil, increment_all-one}
use cycle_enumeration_gpu.Core.GraphView.{AdjacencyEntry, GraphView}
use cycle_enumeration_gpu.Core.GraphView.Rows.{IsValid, outgoing_of, row_lem, row_of-All}
use cycle_enumeration_gpu.Cycles.{at_limit, cycle_length, cycles_via, cycles_from, cycles_at, tally}
use cycle_enumeration_gpu.Cycles.Marks.{
  get-marks, set-marks, replicate-marks, spare-cons, spare-nil,
}
use cycle_enumeration_gpu.Cycles.Runs.{then_Runs}
use cycle_enumeration_gpu.Cycles.Views.{successors}
use cycle_enumeration_gpu.Sequential.Bruteforce.{Search}
use cycle_enumeration_gpu.Sequential.Bruteforce.Simple.{searching, simple_dfs-Runs}
use cycle_enumeration_gpu.Openmp.ReadTarjanTasks.{
  Task, Job, root_loop, waiting, expanding, root_task, child_task, waiting_all, task_edge,
  task_expand, count_subtree_serial, run_job,
}
use cycle_enumeration_gpu.Openmp.ReadTarjanTasks.Pending.{
  last_of, pending, work_from, FineTask, FineJob, Round,
}

work_from-positive :
    (g : GraphView) (limit : Option ℕ) (fuel : ℕ) (path : List ℕ) → 0 < work_from g limit fuel path
unfolding work_from
work_from-positive g limit zero path = omega arith
work_from-positive g limit (suc fuel) path = omega arith

module _ (g : GraphView) (limit : Option ℕ) (valid : IsValid g) (cutoff : ℕ) where
  root_task-Fine : (root : ℕ) → root < g.vertex_count → FineTask g limit (root_task g limit root)
  root_task-Fine root lt =
      let n = g.vertex_count in
      record {
        ends = refl;
        marked = rw (replicate-marks n) (set-marks n root []);
        inside = lt;
        room = omega (arith, spare-cons n root [] lt refl, spare-nil n);
      }

  child_task-Fine :
      (t : Task) (v : ℕ)
      → FineTask g limit t
      → v < g.vertex_count
      → mem v t.path ≡ false
      → FineTask g limit (child_task g limit t v)
  child_task-Fine t v fine lt new =
      let n = g.vertex_count in
      record {
        ends = refl;
        marked = rw fine.marked (set-marks n v t.path);
        inside = lt;
        room = omega (arith, spare-cons n v t.path lt new, fine.room);
      }

  root_loop-Round :
      (roots : List ℕ)
      → All (λ v. v < g.vertex_count) roots
      → Round g limit cutoff (root_loop roots)
  unfolding run_job cycles_at
  root_loop-Round [] low = record {
    closed = [];
    created = [];
    runs = λ local. rw (increment_all-nil local);
    splits = refl;
    fine = tt;
    less = omega arith;
  }
  root_loop-Round (root ∷ roots) low =
      let n = g.vertex_count in
      let same : suc n - 1 ≡ n = omega arith in
      record {
        closed = [];
        created = waiting (root_task g limit root) ∷ root_loop roots ∷ [];
        runs = λ local. rw (increment_all-nil local);
        splits = rw (same, append-nil (flat_map (cycles_at (successors g) limit n) roots)) refl;
        fine = (root_task-Fine root low.0, (low.1, tt));
        less = rw same (omega arith);
      }

  serial-Round :
      (t : Task)
      → FineTask g limit t
      → leb cutoff (length t.path) ≡ true
      → Round g limit cutoff (waiting t)
  unfolding run_job task_expand count_subtree_serial
  serial-Round t fine deep =
      let n = g.vertex_count in
      let fuel = suc n - length t.path in
      let cycles = cycles_from (successors g) limit t.root fuel (last_of t.path) t.path in
      record {
        closed = cycles;
        created = [];
        runs = λ local.
            rw
              (
                deep,
                fine.ends,
                fine.marked,
                simple_dfs-Runs g limit t.root valid fuel (last_of t.path) t.path local fine.inside
                    (omega (arith, fine.room)),
              )
              (then_Runs (increment_all (tally cycles) local) (λ h. searching n t.path h)
                (λ (s : Search). ok (s.histogram, [])) (λ h. (h, [])) (λ h. refl));
        splits = sym (append-nil cycles);
        fine = tt;
        less = work_from-positive g limit fuel t.path;
      }

  opened-Round :
      (t : Task)
      → FineTask g limit t
      → leb cutoff (length t.path) ≡ false
      → Round g limit cutoff (waiting t)
  unfolding run_job task_expand cycles_from work_from
  opened-Round t fine shallow =
      let n = g.vertex_count in
      let last = last_of t.path in
      let es = outgoing_of g last in
      let rest = n - length t.path in
      let same : suc n - length t.path ≡ suc rest = omega (arith, fine.room) in
      record {
        closed = [];
        created = expanding t es ∷ [];
        runs = λ local.
            rw (
              shallow,
              fine.ends,
              row_lem valid.outgoing last fine.inside,
              increment_all-nil local,
            );
        splits = rw same (sym (append-nil (pending g limit (expanding t es))));
        fine = ((fine, row_of-All _ g.outgoing_offsets g.outgoing_edges last valid.targets), tt);
        less = rw same (omega arith);
      }

  -- An edge over which the task does not go on.
  skipped-Round :
      (t : Task) (e : AdjacencyEntry) (es : List AdjacencyEntry) (cycles : List (List ℕ))
      → FineJob g limit (expanding t (e ∷ es))
      → ((local : CycleHistogram)
          → task_edge g limit t e local ≡ (increment_all (tally cycles) local >>= λ h. ok (h, [])))
      → cycles_via
          (successors g)
          limit
          t.root
          (cycles_from (successors g) limit t.root (g.vertex_count - length t.path))
          t.path
          e.vertex
        ≡ cycles
      → Round g limit cutoff (expanding t (e ∷ es))
  unfolding run_job
  skipped-Round t e es cycles fine runs same = record {
    closed = cycles;
    created = expanding t es ∷ [];
    runs = λ local. rw (runs local) (
        then_Runs (increment_all (tally cycles) local) (λ h. (h, []))
          (λ (h, created). ok (h, waiting_all g limit cutoff created (expanding t es ∷ [])))
          (λ h. (h, expanding t es ∷ [])) (λ h. refl));
    splits = rw (same, append-nil (pending g limit (expanding t es))) refl;
    fine = ((fine.0, fine.1.1), tt);
    less = omega arith;
  }

  -- An edge over which the task creates another.
  created-Round :
      (t : Task) (e : AdjacencyEntry) (es : List AdjacencyEntry)
      → FineJob g limit (expanding t (e ∷ es))
      → mem e.vertex t.path ≡ false
      → ((local : CycleHistogram)
          → task_edge g limit t e local ≡ ok (local, child_task g limit t e.vertex ∷ []))
      → cycles_via
          (successors g)
          limit
          t.root
          (cycles_from (successors g) limit t.root (g.vertex_count - length t.path))
          t.path
          e.vertex
        ≡ cycles_from
            (successors g)
            limit
            t.root
            (g.vertex_count - length t.path)
            e.vertex
            (e.vertex ∷ t.path)
      → Round g limit cutoff (expanding t (e ∷ es))
  unfolding run_job
  created-Round t e es fine new runs same =
      let n = g.vertex_count in
      let depth : suc n - suc (length t.path) ≡ n - length t.path = omega arith in
      record {
        closed = [];
        created = waiting (child_task g limit t e.vertex) ∷ expanding t es ∷ [];
        runs = λ local. rw (runs local, increment_all-nil local);
        splits = rw (same, depth, append-nil (pending g limit (expanding t es))) refl;
        fine = (child_task-Fine t e.vertex fine.0 fine.1.0 new, ((fine.0, fine.1.1), tt));
        less = rw depth (omega arith);
      }

  edge-Round :
      (t : Task) (e : AdjacencyEntry) (es : List AdjacencyEntry)
      → FineJob g limit (expanding t (e ∷ es))
      → Round g limit cutoff (expanding t (e ∷ es))
  unfolding task_edge
  edge-Round t e es fine =
      let n = g.vertex_count in
      let path = t.path in
      let seen = get-marks n e.vertex path fine.1.0 in
      elim (Bool-cases (e.vertex == t.root && leb 2 (length path))) [
        | inl closes ↦
            skipped-Round t e es (path ∷ []) fine
              (λ local. rw (closes, increment_all-one (cycle_length path) 1 local)) (rw closes refl)
        | inr open_ ↦ elim (Bool-cases (leb e.vertex t.root)) [
          | inl below ↦
              skipped-Round t e es [] fine (λ local. rw (open_, below, increment_all-nil local))
                (rw (open_, below) refl)
          | inr above ↦ elim (Bool-cases (mem e.vertex path)) [
            | inl old ↦
                skipped-Round t e es [] fine
                  (λ local. rw (open_, above, fine.0.marked, seen, old, increment_all-nil local))
                  (rw (open_, above, old) refl)
            | inr new ↦ elim (Bool-cases (at_limit limit (length path))) [
              | inl far ↦
                  skipped-Round t e es [] fine
                    (λ local.
                      rw (open_, above, fine.0.marked, seen, new, far, increment_all-nil local))
                    (rw (open_, above, new, far) refl)
              | inr near ↦
                  created-Round t e es fine new
                    (λ local. rw (open_, above, fine.0.marked, seen, new, near))
                    (rw (open_, above, new, near) refl)
            ]
          ]
        ]
      ]

  pub run_job-Round : (job : Job) → FineJob g limit job → Round g limit cutoff job
  unfolding run_job
  run_job-Round (root_loop roots) low = root_loop-Round roots low
  run_job-Round (waiting t) fine = elim (Bool-cases (leb cutoff (length t.path))) [
    | inl deep ↦ serial-Round t fine deep
    | inr shallow ↦ opened-Round t fine shallow
  ]
  run_job-Round (expanding t []) fine = record {
    closed = [];
    created = [];
    runs = λ local. rw (increment_all-nil local);
    splits = refl;
    fine = tt;
    less = omega arith;
  }
  run_job-Round (expanding t (e ∷ es)) fine = edge-Round t e es fine
