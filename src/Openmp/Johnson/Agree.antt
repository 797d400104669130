-- ===== src/Openmp/Johnson/Agree.antt =====
-- However the runtime hands out the roots, the parallel counter returns what the baseline returns.
use cycle_enumeration_gpu.Prelude.{
  ℕ, ◌<◌, ◌≡◌, refl, sym, ap, fun_ext, ◌∙◌, Bool, true, false, ◌&&◌, List, [], ◌∷◌, Option,
  if◌then◌else◌, range, All, All-range, flat_map, arith, inl, inr, Result, ok, ◌>>=◌, >>=-ok,
  Result-cases,
}
use mathlib.Core.List.{Permᴰ}
use cycle_enumeration_gpu.Prelude.Int.{ℤ, pos, ltb_ℤ}
use cycle_enumeration_gpu.Core.Histogram.{CycleHistogram, Entries, no_cycles, increment_all, merge}
use cycle_enumeration_gpu.Core.GraphView.{GraphView}
use cycle_enumeration_gpu.Core.GraphView.Rows.{IsValid}
use cycle_enumeration_gpu.Core.GraphView.Csr.{concat}
use cycle_enumeration_gpu.Cycles.{cycles_at, tally, all_cycles}
use cycle_enumeration_gpu.Cycles.Marks.{marks, set-marks, replicate-marks, spare-cons, spare-nil}
use cycle_enumeration_gpu.Cycles.Views.{successors}
use cycle_enumeration_gpu.Cycles.Runs.{for_each-Runs, after_all, returned_histogram, tally-flat_map}
use cycle_enumeration_gpu.Sequential.Bruteforce.{
  Search, count_simple_cycles, validate_max_cycle_length,
}
use cycle_enumeration_gpu.Sequential.Bruteforce.Simple.{simple_dfs-Runs, count_simple_cycles_lem}
use cycle_enumeration_gpu.Openmp.Merge.{Team, IsExact, run_team, run_team_agrees}
use cycle_enumeration_gpu.Openmp.Johnson.{
  count_root, count_roots, count_single_thread, count_parallel, count_simple_cycles_openmp,
  resolve_thread_count,
}

module _ (g : GraphView) (limit : Option ℕ) (valid : IsValid g) where
  -- What the cycles of a root add.
  abbrev adds : ℕ → Entries
  adds root = tally (cycles_at (successors g) limit g.vertex_count root)

  -- What a thread keeps between two roots is its histogram; flags and path are left from the last.
  abbrev between : CycleHistogram → List Bool × List ℕ → Search
  between h (flags, path) = record { histogram = h; visited = flags; path = path }

  abbrev left_by : ℕ → List Bool × List ℕ → List Bool × List ℕ
  left_by root _ = (marks g.vertex_count (root ∷ []), root ∷ [])

  count_root-Runs :
      (root : ℕ) (h : CycleHistogram) (c : List Bool × List ℕ)
      → root < g.vertex_count
      → count_root g limit root (between h c)
        ≡ (increment_all (adds root) h >>= λ h'. ok (between h' (left_by root c)))
  unfolding count_root cycles_at
  count_root-Runs root h c lt =
      let n = g.vertex_count in
      rw (replicate-marks n, set-marks n root [])
        (simple_dfs-Runs g limit root valid n root (root ∷ []) h lt
          (omega (arith, spare-cons n root [] lt refl, spare-nil n)))

  count_roots-Runs :
      (roots : List ℕ)
      → All (λ v. v < g.vertex_count) roots
      → count_roots g limit roots ≡ increment_all (flat_map adds roots) no_cycles
  unfolding count_roots
  count_roots-Runs roots low =
      rw
        (for_each-Runs (count_root g limit) adds between left_by (λ v. v < g.vertex_count)
          count_root-Runs roots no_cycles ([], []) low)
        (returned_histogram _ (λ h. between h (after_all left_by roots ([], []))) (λ t. t.histogram)
          (λ h. refl))

  -- The threads count roots into histograms.
  abbrev team : Team CycleHistogram
  team = record {
    histogram_of = λ h. h;
    counted = count_roots g limit;
    merge_local = λ local merged. merge merged local;
  }

  team-IsExact : IsExact team adds (λ v. v < g.vertex_count)
  team-IsExact = record {
    joined = λ local merged h. h;
    merges = λ local merged. sym (>>=-ok (merge merged local));
    holds = λ local merged h. refl;
    counts = λ roots h low e. (h, count_roots-Runs roots low ∙ e, refl);
  }

  sequential_adds :
      (h : CycleHistogram)
      → count_simple_cycles g limit ≡ ok h
      → (validate_max_cycle_length limit ≡ ok tt)
        × (increment_all (flat_map adds (range g.vertex_count)) no_cycles ≡ ok h)
  unfolding all_cycles
  sequential_adds h e =
      let n = g.vertex_count in
      let all = tally-flat_map (cycles_at (successors g) limit n) (range n) in
      let e' = rw (count_simple_cycles_lem g limit valid, all) at e in
      elim (Result-cases (validate_max_cycle_length limit)) [
        | inl (u, ok_) ↦ (ok_, rw ok_ at e')
        | inr (x, bad) ↦ cc (rw bad at e')
      ]

  pub single_thread_agrees :
      (h : CycleHistogram) → count_simple_cycles g limit ≡ ok h → count_single_thread g limit ≡ ok h
  unfolding count_single_thread
  single_thread_agrees h e =
      count_roots-Runs (range g.vertex_count) (All-range g.vertex_count) ∙ (sequential_adds h e).1

  parallel_agrees :
      (schedule : List (List ℕ)) (h : CycleHistogram)
      → Permᴰ (concat schedule) (range g.vertex_count)
      → increment_all (flat_map adds (range g.vertex_count)) no_cycles ≡ ok h
      → count_parallel g limit schedule ≡ ok h
  unfolding count_parallel run_team
  parallel_agrees schedule h once e =
      let (merged, run, same) =
        run_team_agrees team adds (λ v. v < g.vertex_count) team-IsExact schedule
          (range g.vertex_count) no_cycles h refl once (All-range g.vertex_count) e in
      run ∙ ap ok same

if_same : (b : Bool) (r : Result CycleHistogram) → (if b then r else r) ≡ r
if_same true r = refl
if_same false r = refl

-- Where the baseline returns a histogram on a valid view, so does the OpenMP counter, whichever
-- thread takes which root and in whatever order, as long as every root is taken exactly once; it
-- refuses only a thread count that is not positive, or above one without OpenMP.
pub openmp_agrees :
    (g : GraphView) (limit : Option ℕ) (available : Bool) (schedule : List (List ℕ)) (requested : ℤ)
    (h : CycleHistogram)
    → IsValid g
    → Permᴰ (concat schedule) (range g.vertex_count)
    → count_simple_cycles g limit ≡ ok h
    → count_simple_cycles_openmp g limit available schedule requested
      ≡ (resolve_thread_count available requested >>= λ threads. ok h)
unfolding count_simple_cycles_openmp count_single_thread
openmp_agrees g limit available schedule requested h valid once e =
    let (accepted, total) = sequential_adds g limit valid h e in
    let single = single_thread_agrees g limit valid h e in
    let parallel = parallel_agrees g limit valid schedule h once total in
    rw (accepted, single, parallel)
      (ap (λ k. resolve_thread_count available requested >>= k)
        (fun_ext (λ threads. if_same (available && ltb_ℤ (pos 1) threads) (ok h))))
