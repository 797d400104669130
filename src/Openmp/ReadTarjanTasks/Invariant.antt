-- ===== src/Openmp/ReadTarjanTasks/Invariant.antt =====
-- What holds of the pool between two steps.
use cycle_enumeration_gpu.Prelude.{
  ℕ, zero, suc, ◌+◌, ◌≤◌, ◌<◌, ◌≡◌, refl, sym, ap, subst, ◌∙◌, List, [], ◌∷◌, ◌++◌, append-nil,
  some, length, length-set, length-replicate, get_elem?, set, replicate, flat_map, range, All,
  All-range, arith, inl, inr, Option, ok, Result-cases,
}
use cycle_enumeration_gpu.Core.Histogram.{CycleHistogram, no_cycles, count, increment_all}
use cycle_enumeration_gpu.Core.Histogram.Laws
use cycle_enumeration_gpu.Core.Histogram.Laws.{
  weight, weight-append, count-increment_all, increment_all-IsValid, count-no_cycles,
}
use cycle_enumeration_gpu.Core.GraphView.{GraphView}
use cycle_enumeration_gpu.Core.GraphView.Rows.{IsValid}
use cycle_enumeration_gpu.Cycles.{cycle_length, cycles_at, all_cycles, tally}
use cycle_enumeration_gpu.Cycles.Runs.{tally-append}
use cycle_enumeration_gpu.Cycles.Views.{successors, view_cycles}
use cycle_enumeration_gpu.Openmp.Merge.Sums.{flat_map-append, All-append, All-join}
use cycle_enumeration_gpu.Openmp.ReadTarjanTasks.{Job, Pool, Step, Run, region, run_job}
use cycle_enumeration_gpu.Openmp.ReadTarjanTasks.Pending.{pending, works, FineJob}
use cycle_enumeration_gpu.Openmp.ReadTarjanTasks.Pending.Rounds.{run_job-Round}

-- The counts of all threads together.
abbrev pub counts_of : ℕ → List CycleHistogram → ℕ
counts_of size [] = 0
counts_of size (h ∷ hs) = count h size + counts_of size hs

counts_of-set :
    (size : ℕ) (hs : List CycleHistogram) (i : ℕ) (h h' : CycleHistogram)
    → get_elem? hs i ≡ some h
    → counts_of size (set hs i h') + count h size ≡ counts_of size hs + count h' size
counts_of-set size [] i h h' e = absurd (cc e)
counts_of-set size (x ∷ hs) zero h h' e = let same : x ≡ h = cc e in rw same (omega arith)
counts_of-set size (x ∷ hs) (suc i) h h' e = omega (arith, counts_of-set size hs i h h' e)

counts_of-replicate : (size n : ℕ) → counts_of size (replicate n no_cycles) ≡ 0
counts_of-replicate size zero = refl
counts_of-replicate size (suc n) = omega (arith, count-no_cycles size, counts_of-replicate size n)

All-set :
    {A : Type 0} (P : A → Type 0) (xs : List A) (i : ℕ) (x : A)
    → All P xs
    → P x
    → All P (set xs i x)
All-set P [] i x a p = tt
All-set P (y ∷ xs) zero x a p = (p, a.1)
All-set P (y ∷ xs) (suc i) x a p = (a.0, All-set P xs i x a.1 p)

All-replicate : {A : Type 0} (P : A → Type 0) (n : ℕ) (x : A) → P x → All P (replicate n x)
All-replicate P zero x p = tt
All-replicate P (suc n) x p = (p, All-replicate P n x p)

pub All-get :
    {A : Type 0} (P : A → Type 0) (xs : List A) (i : ℕ) (x : A)
    → All P xs
    → get_elem? xs i ≡ some x
    → P x
All-get P [] i x a e = absurd (cc e)
All-get P (y ∷ xs) zero x a e = let same : y ≡ x = cc e in subst P same a.0
All-get P (y ∷ xs) (suc i) x a e = All-get P xs i x a.1 e

-- How many of the cycles are of a length.
abbrev pub weigh : ℕ → List (List ℕ) → ℕ
weigh size cycles = weight size (tally cycles)

pub weigh-append :
    (size : ℕ) (xs ys : List (List ℕ)) → weigh size (xs ++ ys) ≡ weigh size xs + weigh size ys
weigh-append size xs ys =
    ap (weight size) (tally-append xs ys) ∙ weight-append size (tally xs) (tally ys)

-- A length that a histogram accepts.
abbrev pub Long : List ℕ → Type 0
Long c = 2 ≤ cycle_length c

module _ (g : GraphView) (limit : Option ℕ) (cutoff threads : ℕ) where
  abbrev pub pending_all : List Job → List (List ℕ)
  pending_all jobs = flat_map (pending g limit) jobs

  -- No cycle is lost and none counted twice: those counted and those pending are all cycles.
  pub record FinePool (p : Pool g limit cutoff) : Type 0 where
    pub size : length p.local_histograms ≡ threads
    pub fine : All (FineJob g limit) p.jobs
    pub kept : All Laws.IsValid p.local_histograms
    pub sums :
        (j : ℕ)
        → counts_of j p.local_histograms + weigh j (pending_all p.jobs)
          ≡ weigh j (view_cycles g limit)
    pub long : All Long (pending_all p.jobs)

  pub weigh-pending :
      (j : ℕ) (xs ys : List Job)
      → weigh j (pending_all (xs ++ ys)) ≡ weigh j (pending_all xs) + weigh j (pending_all ys)
  weigh-pending j xs ys =
      ap (weigh j) (flat_map-append (pending g limit) xs ys)
      ∙ weigh-append j (pending_all xs) (pending_all ys)

  works-append : (xs ys : List Job) → works g limit (xs ++ ys) ≡ works g limit xs + works g limit ys
  works-append [] ys = omega arith
  works-append (x ∷ xs) ys = omega (arith, works-append xs ys)

  module _ (valid : IsValid g) where
    -- What a step made of the job that it ran.
    pub stepped :
        (job : Job) (local h : CycleHistogram) (created : List Job) (fine : FineJob g limit job)
        → run_job g limit cutoff job local ≡ ok (h, created)
        → let r = run_job-Round g limit valid cutoff job fine in
          (increment_all (tally r.closed) local ≡ ok h) × (created ≡ r.created)
    stepped job local h created fine ran =
        let r = run_job-Round g limit valid cutoff job fine in
        elim (Result-cases (increment_all (tally r.closed) local)) [
          | inl (u, e) ↦
              let both = rw e at (sym (r.runs local) ∙ ran) in
              let same : u ≡ h = cc both in (e ∙ ap ok same, cc both)
          | inr (x, e) ↦ absurd (cc (rw e at (sym (r.runs local) ∙ ran)))
        ]

    pub split_middle :
        {A : Type 0} (P : A → Type 0) (xs : List A) (y : A) (zs : List A)
        → All P (xs ++ y ∷ zs)
        → All P xs × P y × All P zs
    split_middle P xs y zs a = let (l, r) = All-append P xs (y ∷ zs) a in (l, r.0, r.1)

    sums_kept :
        (j : ℕ) (before after created : List Job) (job : Job) (closed : List (List ℕ))
        (locals : List CycleHistogram) (thread : ℕ) (local h : CycleHistogram)
        → get_elem? locals thread ≡ some local
        → increment_all (tally closed) local ≡ ok h
        → pending g limit job ≡ closed ++ pending_all created
        → counts_of j (set locals thread h) + weigh j (pending_all (before ++ (created ++ after)))
          ≡ counts_of j locals + weigh j (pending_all (before ++ job ∷ after))
    sums_kept j before after created job closed locals thread local h get added splits = omega (
      arith,
      counts_of-set j locals thread local h get,
      count-increment_all (tally closed) local h j added,
      weigh-pending j before (created ++ after),
      weigh-pending j created after,
      weigh-pending j before (job ∷ after),
      weigh-append j (pending g limit job) (pending_all after),
      ap (weigh j) splits,
      weigh-append j closed (pending_all created),
    )

    step-Long :
        (before after created : List Job) (job : Job) (closed : List (List ℕ))
        → pending g limit job ≡ closed ++ pending_all created
        → All Long (pending_all (before ++ job ∷ after))
        → All Long (pending_all (before ++ (created ++ after)))
    step-Long before after created job closed splits a =
        let all = subst (All Long) (flat_map-append (pending g limit) before (job ∷ after)) a in
        let (l, r) = All-append Long (pending_all before) (pending_all (job ∷ after)) all in
        let (m, n) = All-append Long (pending g limit job) (pending_all after) r in
        let (o, p) = All-append Long closed (pending_all created) (subst (All Long) splits m) in
        subst (All Long) (sym (flat_map-append (pending g limit) before (created ++ after))) (
          All-join Long (pending_all before) (pending_all (created ++ after)) l (
            subst (All Long) (sym (flat_map-append (pending g limit) created after))
              (All-join Long (pending_all created) (pending_all after) p n)))

    -- A step keeps what holds of the pool, and leaves less work.
    pub Step-Fine :
        {p q : Pool g limit cutoff}
        → Step g limit cutoff p q
        → FinePool p
        → FinePool q × (works g limit q.jobs < works g limit p.jobs)
    Step-Fine (Step.run before job after locals thread local h created get ran) f =
        let (fb, fj, fa) = split_middle (FineJob g limit) before job after f.fine in
        let r = run_job-Round g limit valid cutoff job fj in
        let (added, same) = stepped job local h created fj ran in
        let splits = r.splits ∙ ap (λ c. r.closed ++ pending_all c) (sym same) in
        let fc = subst (All (FineJob g limit)) (sym same) r.fine in
        (
          record {
            size = length-set locals thread h ∙ f.size;
            fine =
                All-join (FineJob g limit) before (created ++ after) fb
                  (All-join (FineJob g limit) created after fc fa);
            kept = All-set Laws.IsValid locals thread h f.kept (
                increment_all-IsValid (tally r.closed) local h
                  (All-get Laws.IsValid locals thread local f.kept get) added);
            sums = λ j.
                sums_kept j before after created job r.closed locals thread local h get added splits
                ∙ f.sums j;
            long = step-Long before after created job r.closed splits f.long;
          },
          omega (
            arith,
            works-append before (created ++ after),
            works-append created after,
            works-append before (job ∷ after),
            r.less,
            ap (works g limit) same,
          ),
        )

    pub region-Fine : All Long (view_cycles g limit) → FinePool (region g limit cutoff threads)
    unfolding all_cycles
    region-Fine long =
        let same =
          append-nil
            (flat_map (cycles_at (successors g) limit g.vertex_count) (range g.vertex_count)) in
        record {
          size = length-replicate threads no_cycles;
          fine = (All-range g.vertex_count, tt);
          kept = All-replicate Laws.IsValid threads no_cycles tt;
          sums = λ j. omega (arith, counts_of-replicate j threads, ap (weigh j) same);
          long = subst (All Long) (sym same) long;
        }

    -- Where the parallel region begins with all cycles pending, and each has a length that a histogram
    -- accepts, the invariant holds of every pool that steps lead to, and the steps and the work that
    -- is left do not exceed the work of the beginning.
    pub Run-Fine :
        All Long (view_cycles g limit)
        → {k : ℕ} {p : Pool g limit cutoff} → Run g limit cutoff threads k p
        → FinePool p
          × (k + works g limit p.jobs ≤ works g limit (region g limit cutoff threads).jobs)
    Run-Fine long Run.begin = (region-Fine long, omega arith)
    Run-Fine long (Run.next r s) =
        let (f, bounded) = Run-Fine long r in
        let (f', less) = Step-Fine s f in (f', omega (arith, bounded, less))
