-- ===== src/Sequential/Bruteforce/Count.antt =====
-- The counts that the baseline returns.
use cycle_enumeration_gpu.Prelude.{
  ℕ, ◌+◌, ◌≤◌, ◌<◌, ◌≡◌, refl, ◌∙◌, List, [], ◌∷◌, Option, none, some, ◌==◌, if◌then◌else◌, length,
  All, All-of_mem, ◌∈◌, arith, ok,
}
use native.Mathlib.Nat.{mod-eq_of_lt}
use cycle_enumeration_gpu.Core.Histogram.{max_count, CycleHistogram, no_cycles, count}
use cycle_enumeration_gpu.Core.Histogram.Laws.{
  weight, increment_all_returns, count-increment_all, count-no_cycles,
}
use cycle_enumeration_gpu.Core.GraphView.{GraphView}
use cycle_enumeration_gpu.Core.GraphView.Rows.{IsValid}
use cycle_enumeration_gpu.Cycles.{cycle_length, tally}
use cycle_enumeration_gpu.Cycles.Complete.{all_cycles_iff, IsCycle-length}
use cycle_enumeration_gpu.Cycles.Views.{successors, view_cycles, successors-lt}
use cycle_enumeration_gpu.Sequential.Bruteforce.{count_simple_cycles, validate_max_cycle_length}
use cycle_enumeration_gpu.Sequential.Bruteforce.Simple.{count_simple_cycles_lem}

-- A limit that the counters accept.
abbrev pub FitsLimit : Option ℕ → Type 0
FitsLimit none = Unit {0}
FitsLimit (some most) = 2 ≤ most

-- How many walks of the list have the length.
abbrev pub how_many : ℕ → List (List ℕ) → ℕ
how_many size [] = 0
how_many size (c ∷ cs) = (if size == length c then 1 else 0) + how_many size cs

abbrev pub FitsLength : List ℕ → Type 0
FitsLength c = (2 ≤ length c) × (length c < 4294967296)

pub weight-tally :
    (size : ℕ) (cs : List (List ℕ)) → All FitsLength cs → weight size (tally cs) ≡ how_many size cs
weight-tally size [] a = refl
weight-tally size (c ∷ cs) a =
    let e : cycle_length c ≡ length c = mod-eq_of_lt a.0.1 in
    ground (arith, e, weight-tally size cs)

pub tally-lengths : (cs : List (List ℕ)) → All FitsLength cs → All (λ (k, c). 2 ≤ k) (tally cs)
tally-lengths [] a = tt
tally-lengths (c ∷ cs) a =
    let e : cycle_length c ≡ length c = mod-eq_of_lt a.0.1 in (omega arith, tally-lengths cs a.1)

pub how_many-le : (size : ℕ) (cs : List (List ℕ)) → how_many size cs ≤ length cs
how_many-le size [] = omega arith
how_many-le size (c ∷ cs) = ground (arith, how_many-le size cs)

accepts : (limit : Option ℕ) → FitsLimit limit → validate_max_cycle_length limit ≡ ok tt
unfolding validate_max_cycle_length
accepts none h = refl
accepts (some most) h = ground arith

pub view_cycles-FitsLength :
    (g : GraphView) (limit : Option ℕ)
    → IsValid g
    → g.vertex_count < 4294967296
    → (c : List ℕ) → c ∈ view_cycles g limit
    → FitsLength c
view_cycles-FitsLength g limit valid small c m =
    let n = g.vertex_count in
    let bounded = successors-lt g valid in
    let (root, lt, cycle) = (all_cycles_iff (successors g) limit n bounded c).0 m in
    let size = IsCycle-length (successors g) limit n bounded root lt cycle in omega arith

-- On a valid view of fewer than 2^32 vertices, with a limit that is absent or at least 2, and where
-- fewer than 2^64 cycles keep to the limit, the counter returns, and at every length its count is
-- the number of simple cycles of that length.
pub count_simple_cycles_counts :
    (g : GraphView) (limit : Option ℕ)
    → IsValid g
    → g.vertex_count < 4294967296
    → FitsLimit limit
    → length (view_cycles g limit) ≤ max_count
    → (h : CycleHistogram) × (count_simple_cycles g limit ≡ ok h)
      × ((size : ℕ) → count h size ≡ how_many size (view_cycles g limit))
count_simple_cycles_counts g limit valid small fits few =
    let cs = view_cycles g limit in
    let lengths : All FitsLength cs =
      All-of_mem FitsLength cs (view_cycles-FitsLength g limit valid small) in
    let (h, e) = increment_all_returns (tally cs) no_cycles (tally-lengths cs lengths) (λ size.
      omega (arith, count-no_cycles size, weight-tally size cs lengths, how_many-le size cs)) in
    (
      h,
      count_simple_cycles_lem g limit valid ∙ rw (accepts limit fits) e,
      λ size. omega (
        arith,
        count-increment_all (tally cs) no_cycles h size e,
        count-no_cycles size,
        weight-tally size cs lengths,
      ),
    )
