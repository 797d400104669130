-- ===== src/Openmp/ReadTarjanTasks/Progress.antt =====
-- Any job of a pool can run, and the merge of the threads' histograms counts all cycles.
use cycle_enumeration_gpu.Prelude.{
  ℕ, zero, suc, ◌+◌, ◌≤◌, ◌<◌, ◌≡◌, refl, sym, ap, subst, ◌∙◌, List, [], ◌∷◌, ◌++◌, Option, some,
  get_elem?, get_or, get_elem?-eq-get_or, All, arith, inl, inr, ok, for_each, Result-cases,
}
use cycle_enumeration_gpu.Core.Histogram.{max_count, CycleHistogram, no_cycles, count, merge}
use cycle_enumeration_gpu.Core.Histogram.Laws
use cycle_enumeration_gpu.Core.Histogram.Laws.{
  weight, increment_all_returns, count-increment_all, increment_all-IsValid, increment_all-lengths,
  count-no_cycles, count-le, eq_of_counts, merge_returns,
}
use cycle_enumeration_gpu.Core.GraphView.{GraphView}
use cycle_enumeration_gpu.Core.GraphView.Rows.{IsValid}
use cycle_enumeration_gpu.Cycles.{tally}
use cycle_enumeration_gpu.Cycles.Views.{view_cycles}
use cycle_enumeration_gpu.Sequential.Bruteforce.{count_simple_cycles, validate_max_cycle_length}
use cycle_enumeration_gpu.Sequential.Bruteforce.Simple.{count_simple_cycles_lem}
use cycle_enumeration_gpu.Openmp.Merge.Sums.{flat_map-append, All-append}
use cycle_enumeration_gpu.Openmp.ReadTarjanTasks.{Job, Pool, Step, merge_locals}
use cycle_enumeration_gpu.Openmp.ReadTarjanTasks.Pending.{pending, FineJob}
use cycle_enumeration_gpu.Openmp.ReadTarjanTasks.Pending.Rounds.{run_job-Round}
use cycle_enumeration_gpu.Openmp.ReadTarjanTasks.Invariant.{
  counts_of, weigh, weigh-append, Long, FinePool, weigh-pending, split_middle, pending_all,
}

Long-lengths : (cycles : List (List ℕ)) → All Long cycles → All (λ (k, c). 2 ≤ k) (tally cycles)
Long-lengths [] a = tt
Long-lengths (c ∷ cycles) a = (a.0, Long-lengths cycles a.1)

lengths-Long : (cycles : List (List ℕ)) → All (λ (k, c). 2 ≤ k) (tally cycles) → All Long cycles
lengths-Long [] a = tt
lengths-Long (c ∷ cycles) a = (a.0, lengths-Long cycles a.1)

count-counts_of :
    (size : ℕ) (hs : List CycleHistogram) (i : ℕ) (h : CycleHistogram)
    → get_elem? hs i ≡ some h
    → count h size ≤ counts_of size hs
count-counts_of size [] i h e = absurd (cc e)
count-counts_of size (x ∷ hs) zero h e = let same : x ≡ h = cc e in rw same (omega arith)
count-counts_of size (x ∷ hs) (suc i) h e = omega (arith, count-counts_of size hs i h e)

-- Merging adds what the threads counted.
merge_locals_from :
    (locals : List CycleHistogram) (m : CycleHistogram)
    → All Laws.IsValid locals
    → Laws.IsValid m
    → ((j : ℕ) → count m j + counts_of j locals ≤ max_count)
    → (t : CycleHistogram) × (for_each (λ local merged. merge merged local) locals m ≡ ok t)
      × Laws.IsValid t
      × ((j : ℕ) → count t j ≡ count m j + counts_of j locals)
merge_locals_from [] m a v fits = (m, refl, v, λ j. omega arith)
merge_locals_from (h ∷ locals) m a v fits =
    let (u, eu, vu, cu) = merge_returns m h v a.0 (λ j. omega (arith, fits j)) in
    let (t, et, vt, ct) = merge_locals_from locals u a.1 vu (λ j. omega (arith, fits j, cu j)) in
    (t, rw eu et, vt, λ j. omega (arith, ct j, cu j))

-- What the baseline's histogram says of the cycles.
pub record Total (g : GraphView) (limit : Option ℕ) (h : CycleHistogram) : Type 0 where
  pub kept : Laws.IsValid h
  pub counts : (j : ℕ) → count h j ≡ weigh j (view_cycles g limit)
  pub long : All Long (view_cycles g limit)

pub baseline_Total :
    (g : GraphView) (limit : Option ℕ) (h : CycleHistogram)
    → IsValid g
    → count_simple_cycles g limit ≡ ok h
    → Total g limit h
baseline_Total g limit h valid e =
    let cs = view_cycles g limit in
    let e' = sym (count_simple_cycles_lem g limit valid) ∙ e in
    elim (Result-cases (validate_max_cycle_length limit)) [
      | inl (u, accepted) ↦
          let run = rw accepted at e' in
          record {
            kept = increment_all-IsValid (tally cs) no_cycles h tt run;
            counts = λ j.
                omega (arith, count-increment_all (tally cs) no_cycles h j run, count-no_cycles j);
            long = lengths-Long cs (increment_all-lengths (tally cs) no_cycles h run);
          }
      | inr (x, bad) ↦ absurd (cc (rw bad at e'))
    ]

module _ (g : GraphView) (limit : Option ℕ) (cutoff threads : ℕ) (valid : IsValid g)
    (h : CycleHistogram) (total : Total g limit h) where
  -- In a fine pool any job can run on any thread.
  pub any_job-Step :
      (before : List Job) (job : Job) (after : List Job) (locals : List CycleHistogram)
      → FinePool g limit cutoff threads
          (record { jobs = before ++ job ∷ after; local_histograms = locals })
      → (thread : ℕ) → thread < threads
      → (q : Pool g limit cutoff) × Step g limit cutoff
          (record { jobs = before ++ job ∷ after; local_histograms = locals })
          q
  any_job-Step before job after locals f thread lt =
      let (fb, fj, fa) =
        split_middle g limit cutoff threads valid (FineJob g limit) before job after f.fine in
      let r = run_job-Round g limit valid cutoff job fj in
      let local = get_or locals thread no_cycles in
      let get : get_elem? locals thread ≡ some local =
        get_elem?-eq-get_or locals thread no_cycles (omega (arith, f.size)) in
      let all = subst (All Long) (flat_map-append (pending g limit) before (job ∷ after)) f.long in
      let (_, right) =
        All-append Long (pending_all g limit cutoff threads before)
          (pending_all g limit cutoff threads (job ∷ after)) all in
      let (mine, _) =
        All-append Long (pending g limit job) (pending_all g limit cutoff threads after) right in
      let (long, _) =
        All-append Long r.closed (pending_all g limit cutoff threads r.created)
          (subst (All Long) r.splits mine) in
      let (u, e) = increment_all_returns (tally r.closed) local (Long-lengths r.closed long) (λ j.
        omega (
          arith,
          f.sums j,
          total.counts j,
          count-le j h total.kept,
          count-counts_of j locals thread local get,
          weigh-pending g limit cutoff threads j before (job ∷ after),
          weigh-append j (pending g limit job) (pending_all g limit cutoff threads after),
          ap (weigh j) r.splits,
          weigh-append j r.closed (pending_all g limit cutoff threads r.created),
        )) in
      (_, Step.run before job after locals thread local u r.created get (r.runs local ∙ rw e refl))

  pub merge_locals-total :
      (p : Pool g limit cutoff)
      → FinePool g limit cutoff threads p
      → p.jobs ≡ []
      → merge_locals p.local_histograms ≡ ok h
  unfolding merge_locals
  merge_locals-total p f finished =
      let none_ : (j : ℕ) → weigh j (pending_all g limit cutoff threads p.jobs) ≡ 0 =
        λ j. ap (λ js. weigh j (pending_all g limit cutoff threads js)) finished in
      let (t, run, kept, counts) = merge_locals_from p.local_histograms no_cycles f.kept tt (λ j.
        omega
          (arith, f.sums j, none_ j, total.counts j, count-le j h total.kept, count-no_cycles j)) in
      run
      ∙ ap ok (
          eq_of_counts t h kept total.kept
            (λ j. omega (arith, counts j, f.sums j, none_ j, total.counts j, count-no_cycles j)))
