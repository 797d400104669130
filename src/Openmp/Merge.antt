-- ===== src/Openmp/Merge.antt =====
-- Local histograms that are merged, whatever the threads counted.
pub mod Sums
use cycle_enumeration_gpu.Prelude.{
  ℕ, ◌+◌, ◌≤◌, ◌<◌, ◌≡◌, refl, sym, ap, subst, fun_ext, ◌∙◌, Bool, true, false, ◌&&◌, List, [], ◌∷◌,
  ◌++◌, append_assoc, Option, if◌then◌else◌, range, All, All-range, flat_map, arith, inl, inr,
  Result, ok, ◌>>=◌, for_each, Result-cases,
}
use mathlib.Core.List.{Permᴰ}
use cycle_enumeration_gpu.Prelude.Int.{ℤ, pos, ltb_ℤ}
use cycle_enumeration_gpu.Core.Histogram.{
  max_count, CycleHistogram, Entries, no_cycles, count, increment_all, merge,
}
use cycle_enumeration_gpu.Core.Histogram.Laws
use cycle_enumeration_gpu.Core.Histogram.Laws.{
  Ascends, weight, weight-append, weight-entries, increment_all_returns, count-increment_all,
  increment_all-IsValid, increment_all-lengths, eq_of_counts, count-le, count-no_cycles,
  merge_returns,
}
use cycle_enumeration_gpu.Core.GraphView.{GraphView}
use cycle_enumeration_gpu.Core.GraphView.Rows.{IsValid}
use cycle_enumeration_gpu.Core.GraphView.Csr.{collect, concat}
use cycle_enumeration_gpu.Cycles.{cycles_at, tally, all_cycles}
use cycle_enumeration_gpu.Cycles.Marks.{marks, set-marks, replicate-marks, spare-cons, spare-nil}
use cycle_enumeration_gpu.Cycles.Views.{successors}
use cycle_enumeration_gpu.Cycles.Runs.{for_each-Runs, after_all, returned_histogram, tally-flat_map}
use cycle_enumeration_gpu.Sequential.Bruteforce.{
  Search, count_simple_cycles, validate_max_cycle_length,
}
use cycle_enumeration_gpu.Sequential.Bruteforce.Simple.{simple_dfs-Runs, count_simple_cycles_lem}
use cycle_enumeration_gpu.Openmp.Merge.Sums.{
  weight-flat_map, All-append, All-flat_map, weight-Permᴰ, All-Permᴰ, lengths-Permᴰ,
}

-- What the threads do: each counts its share of the roots into a local result, which holds a
-- histogram, and the local results are merged one by one.
pub record Team (Local : Type 0) : Type 0 where
  pub histogram_of : Local → CycleHistogram
  pub counted : List ℕ → Result Local
  pub merge_local : Local → Local → Result Local

-- The histogram of a merged result is the merge of the two histograms, and counting makes the
-- increments of the roots.
pub record IsExact {Local : Type 0} (t : Team Local) (adds : ℕ → Entries) (Counts : ℕ → Type 0)
    : Type 0 where
  pub joined : Local → Local → CycleHistogram → Local
  pub merges :
      (local merged : Local)
      → t.merge_local local merged
        ≡ (merge (t.histogram_of merged) (t.histogram_of local) >>= λ h. ok (joined local merged h))
  pub holds :
      (local merged : Local) (h : CycleHistogram) → t.histogram_of (joined local merged h) ≡ h
  pub counts :
      (roots : List ℕ) (h : CycleHistogram)
      → All Counts roots
      → increment_all (flat_map adds roots) no_cycles ≡ ok h
      → (local : Local) × (t.counted roots ≡ ok local) × (t.histogram_of local ≡ h)

-- The threads, and then the merge of their results into `empty`.
unfoldable pub run_team : {Local : Type 0} → Team Local → Local → List (List ℕ) → Result Local
unfolding collect
run_team t empty schedule = do
  locals ← collect t.counted schedule
  for_each t.merge_local locals empty

module _ {Local : Type 0} (t : Team Local) (adds : ℕ → Entries) (Counts : ℕ → Type 0)
    (exact : IsExact t adds Counts) where
  -- The increments of all roots, thread by thread.
  abbrev all_adds : List (List ℕ) → Entries
  all_adds schedule = flat_map adds (concat schedule)

  -- The local results, and what merging them into `m` gives.
  record Merges (schedule : List (List ℕ)) (m : Local) : Type 0 where
    locals : List Local
    counted : collect t.counted schedule ≡ ok locals
    merged : Local
    returned : for_each t.merge_local locals m ≡ ok merged
    kept : Laws.IsValid (t.histogram_of merged)
    sums :
        (j : ℕ)
        → count (t.histogram_of merged) j
          ≡ count (t.histogram_of m) j + weight j (all_adds schedule)

  merges :
      (schedule : List (List ℕ)) (m : Local)
      → Laws.IsValid (t.histogram_of m)
      → All Counts (concat schedule)
      → All (λ (k, c). 2 ≤ k) (all_adds schedule)
      → ((j : ℕ) → count (t.histogram_of m) j + weight j (all_adds schedule) ≤ max_count)
      → Merges schedule m
  unfolding collect concat
  merges [] m v low lengths fits = record {
    locals = [];
    counted = refl;
    merged = m;
    returned = refl;
    kept = v;
    sums = λ j. omega arith;
  }
  merges (roots ∷ schedule) m v low lengths fits =
      let split = λ (j : ℕ). weight-flat_map adds j roots (concat schedule) in
      let parts = All-flat_map (λ (x : ℕ × ℕ). 2 ≤ x.0) adds roots (concat schedule) lengths in
      let lows = All-append Counts roots (concat schedule) low in
      let (h, e) =
        increment_all_returns (flat_map adds roots) no_cycles parts.0
          (λ j. omega (arith, fits j, split j, count-no_cycles j)) in
      let (local, run, same) = exact.counts roots h lows.0 e in
      let w = increment_all-IsValid (flat_map adds roots) no_cycles h tt e in
      let counts = λ (j : ℕ). count-increment_all (flat_map adds roots) no_cycles h j e in
      let (u, et, vt, ct) =
        merge_returns (t.histogram_of m) h v w
          (λ j. omega (arith, fits j, split j, counts j, count-no_cycles j)) in
      let both = exact.joined local m u in
      let is_u = exact.holds local m u in
      let rest = merges schedule both (subst Laws.IsValid (sym is_u) vt) lows.1 parts.1 (λ j.
        omega
          (arith, fits j, split j, counts j, ct j, count-no_cycles j, ap (λ x. count x j) is_u)) in
      record {
        locals = local ∷ rest.locals;
        counted = rw (run, rest.counted);
        merged = rest.merged;
        returned = rw (exact.merges local m, same, et) rest.returned;
        kept = rest.kept;
        sums = λ j. omega (
          arith,
          rest.sums j,
          split j,
          counts j,
          ct j,
          count-no_cycles j,
          ap (λ x. count x j) is_u,
        );
      }

  -- Whatever the schedule, the merged histogram is the one that the roots in order give.
  pub run_team_agrees :
      (schedule : List (List ℕ)) (roots : List ℕ) (empty : Local) (h : CycleHistogram)
      → t.histogram_of empty ≡ no_cycles
      → Permᴰ (concat schedule) roots
      → All Counts roots
      → increment_all (flat_map adds roots) no_cycles ≡ ok h
      → (merged : Local) × (run_team t empty schedule ≡ ok merged) × (t.histogram_of merged ≡ h)
  unfolding run_team
  run_team_agrees schedule roots empty h is_empty once fine e =
      let all = flat_map adds roots in
      let valid_h = increment_all-IsValid all no_cycles h tt e in
      let counts = λ (j : ℕ). count-increment_all all no_cycles h j e in
      let same = λ (j : ℕ). weight-Permᴰ adds j once in
      let none_ : (j : ℕ) → count (t.histogram_of empty) j ≡ 0 =
        λ j. ap (λ x. count x j) is_empty ∙ count-no_cycles j in
      let run =
        merges schedule empty (subst Laws.IsValid (sym is_empty) tt) (All-Permᴰ Counts once fine)
          (lengths-Permᴰ adds once (increment_all-lengths all no_cycles h e))
          (λ j.
            omega (arith, same j, counts j, count-no_cycles j, none_ j, count-le j h valid_h)) in
      (
        run.merged,
        rw (run.counted, run.returned),
        eq_of_counts (t.histogram_of run.merged) h run.kept valid_h
            (λ j. omega (arith, run.sums j, same j, counts j, count-no_cycles j, none_ j)),
      )
