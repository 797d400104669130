-- ===== src/Cuda/BranchSplit/Counts.antt =====
-- What the host counts and what it leaves to the device.
use cycle_enumeration_gpu.Prelude.{
  ℕ, zero, suc, ◌+◌, ◌≤◌, ◌<◌, ◌≡◌, refl, ap, ◌∙◌, Bool, true, false, ◌&&◌, ◌||◌, List, [], ◌∷◌,
  Option, none, some, leb, ltb, ◌==◌, if◌then◌else◌, length, mem, map, flat_map, flat_map_cases,
  mem-flat_map, range, inl, inr, Bool-cases, arith, ◌∈◌, All, All-of_mem, ok,
}
use cycle_enumeration_gpu.Core.Histogram.{max_count, CycleHistogram, no_cycles, count}
use cycle_enumeration_gpu.Core.Histogram.Laws.{
  increment_all_returns, count-increment_all, count-no_cycles,
}
use cycle_enumeration_gpu.Core.GraphView.{GraphView}
use cycle_enumeration_gpu.Core.GraphView.Rows.{IsValid}
use cycle_enumeration_gpu.Cycles.{at_limit, tally, cycles_via, cycles_from, cycles_at, all_cycles}
use cycle_enumeration_gpu.Cycles.Views.{successors, view_cycles}
use cycle_enumeration_gpu.Cycles.Runs.{flat_map-map}
use cycle_enumeration_gpu.Sequential.Bruteforce.{count_simple_cycles}
use cycle_enumeration_gpu.Sequential.Bruteforce.Count.{
  FitsLimit, FitsLength, view_cycles-FitsLength, how_many, how_many-le, weight-tally, tally-lengths,
  count_simple_cycles_counts,
}
use cycle_enumeration_gpu.Cuda.BranchSplit.{
  SplitWorkItem, BranchSplit, split_static_search, refuses,
}
use cycle_enumeration_gpu.Cuda.BranchSplit.Parts.{
  cycles_beyond, closed_from, prefixes_via, prefixes_from, closed_all, prefixes_all,
}
use cycle_enumeration_gpu.Cuda.BranchSplit.Whole.{all_cycles_split}
use cycle_enumeration_gpu.Cuda.BranchSplit.Runs.{split_static_search_lem}
use cycle_enumeration_gpu.Cuda.BranchSplit.Work.{item}

only : (b : Bool) (c x : List ℕ) → c ∈ (if b then x ∷ [] else []) → c ≡ x
only true c x (inl e) = e
only true c x (inr m) = absurd m
only false c x m = absurd m

module _ (next : ℕ → List ℕ) (limit : Option ℕ) (cutoff root : ℕ) where
  via_cases :
      (deeper : ℕ → List ℕ → List (List ℕ)) (path : List ℕ) (v : ℕ) (c : List ℕ)
      → c ∈ prefixes_via next limit cutoff root deeper path v
      → c ∈ deeper v (v ∷ path)
  via_cases deeper path v c m = elim (Bool-cases (v == root && leb 2 (length path))) [
    | inl closes ↦ absurd (rw closes at m)
    | inr open_ ↦ elim (Bool-cases (leb v root || mem v path)) [
      | inl old ↦ absurd (rw (open_, old) at m)
      | inr new ↦ elim (Bool-cases (at_limit limit (length path))) [
        | inl far ↦ absurd (rw (open_, new, far) at m)
        | inr near ↦ rw (open_, new, near) at m
      ]
    ]
  ]

  prefixes_from-length :
      (fuel v : ℕ) (path : List ℕ) (c : List ℕ)
      → length path ≤ cutoff
      → c ∈ prefixes_from next limit cutoff root fuel v path
      → length c ≡ cutoff
  unfolding prefixes_from
  prefixes_from-length zero v path c short m = absurd m
  prefixes_from-length (suc fuel) v path c short m = elim (Bool-cases (length path == cutoff)) [
    | inl cut ↦ ap length (only _ c path (rw cut at m)) ∙ ground (arith, cut)
    | inr uncut ↦
        let (w, _, inner) =
          flat_map_cases
            (prefixes_via next limit cutoff root (prefixes_from next limit cutoff root fuel) path) c
            (next v) (rw uncut at m) in
        prefixes_from-length fuel w (w ∷ path) c (ground (arith, uncut))
          (via_cases (prefixes_from next limit cutoff root fuel) path w c inner)
  ]

  closed_via_cases :
      (deeper all : ℕ → List ℕ → List (List ℕ)) (path : List ℕ) (v : ℕ) (c : List ℕ)
      → length path < cutoff
      → (c ∈ deeper v (v ∷ path) → (c ∈ all v (v ∷ path)) × (length c < cutoff))
      → c ∈ cycles_via next limit root deeper path v
      → (c ∈ cycles_via next limit root all path v) × (length c < cutoff)
  closed_via_cases deeper all path v c short inner m =
      elim (Bool-cases (v == root && leb 2 (length path))) [
        | inl closes ↦
            let e : c ≡ path = only true c path (rw closes at m) in
            rw closes (inl e, omega (arith, ap length e))
        | inr open_ ↦ elim (Bool-cases (leb v root || mem v path)) [
          | inl old ↦ absurd (rw (open_, old) at m)
          | inr new ↦ elim (Bool-cases (at_limit limit (length path))) [
            | inl far ↦ absurd (rw (open_, new, far) at m)
            | inr near ↦ rw (open_, new, near) (inner (rw (open_, new, near) at m))
          ]
        ]
      ]

  closed_from_cases :
      (fuel v : ℕ) (path : List ℕ) (c : List ℕ)
      → length path ≤ cutoff
      → c ∈ closed_from next limit cutoff root fuel v path
      → (c ∈ cycles_from next limit root fuel v path) × (length c < cutoff)
  unfolding closed_from cycles_from
  closed_from_cases zero v path c short m = absurd m
  closed_from_cases (suc fuel) v path c short m = elim (Bool-cases (length path == cutoff)) [
    | inl cut ↦ absurd (rw cut at m)
    | inr uncut ↦
        let closed = closed_from next limit cutoff root fuel in
        let all = cycles_from next limit root fuel in
        let (w, from, inner) =
          flat_map_cases (cycles_via next limit root closed path) c (next v) (rw uncut at m) in
        let short' : length path < cutoff = ground (arith, uncut) in
        let (m', less) =
          closed_via_cases closed all path w c short'
            (closed_from_cases fuel w (w ∷ path) c (omega arith)) inner in
        (mem-flat_map (cycles_via next limit root all path) c w (next v) from m', less)
  ]

-- The cycles that the device finds from the work items: for each, those that go on from its prefix.
abbrev pub continuations : GraphView → Option ℕ → ℕ → List SplitWorkItem → List (List ℕ)
continuations g limit cutoff items =
    flat_map
      (λ (i : SplitWorkItem). cycles_beyond (successors g) limit cutoff g.vertex_count i.prefix)
      items

refuses_lem : (limit : Option ℕ) → FitsLimit limit → refuses limit ≡ false
refuses_lem none h = refl
refuses_lem (some most) h = ground arith

how_many-zero :
    (size : ℕ) (cs : List (List ℕ)) → All (λ c. length c < size) cs → how_many size cs ≡ 0
how_many-zero size [] a = refl
how_many-zero size (c ∷ cs) a = ground (arith, how_many-zero size cs a.1, a.0)

All-items :
    (cutoff : ℕ) (ps : List (List ℕ))
    → All (λ p. length p ≡ cutoff) ps
    → All (λ (i : SplitWorkItem). length i.prefix ≡ cutoff) (map item ps)
All-items cutoff [] a = tt
All-items cutoff (p ∷ ps) a = (a.0, All-items cutoff ps a.1)

-- What becomes of a closed cycle and of a prefix, over all roots.
closed_all_cases :
    (next : ℕ → List ℕ) (limit : Option ℕ) (cutoff n : ℕ) (c : List ℕ)
    → 1 ≤ cutoff
    → c ∈ closed_all next limit cutoff n
    → (c ∈ all_cycles next limit n) × (length c < cutoff)
unfolding closed_all all_cycles cycles_at
closed_all_cases next limit cutoff n c long m =
    let (root, from, inner) =
      flat_map_cases (λ r. closed_from next limit cutoff r n r (r ∷ [])) c (range n) m in
    let (m', less) =
      closed_from_cases next limit cutoff root n root (root ∷ []) c (omega arith) inner in
    (mem-flat_map (cycles_at next limit n) c root (range n) from m', less)

prefixes_all-length :
    (next : ℕ → List ℕ) (limit : Option ℕ) (cutoff n : ℕ) (c : List ℕ)
    → 1 ≤ cutoff
    → c ∈ prefixes_all next limit cutoff n
    → length c ≡ cutoff
unfolding prefixes_all
prefixes_all-length next limit cutoff n c long m =
    let (root, from, inner) =
      flat_map_cases (λ r. prefixes_from next limit cutoff r n r (r ∷ [])) c (range n) m in
    prefixes_from-length next limit cutoff root n root (root ∷ []) c (omega arith) inner

-- On a valid view of fewer than 2^32 vertices, with a limit that is absent or at least 2, a cut of at
-- least 2 and fewer than 2^64 cycles within the limit, the baseline and the split both return. Every
-- item is a prefix as long as the cut, the histogram of the split counts only cycles shorter than
-- the cut, and at every length the cycles that it counts and those that go on from the items are
-- together as many as the baseline counts.
pub split_static_search_counts :
    (g : GraphView) (limit : Option ℕ) (cutoff : ℕ)
    → IsValid g
    → g.vertex_count < 4294967296
    → FitsLimit limit
    → 2 ≤ cutoff
    → length (view_cycles g limit) ≤ max_count
    → (h : CycleHistogram) × (out : BranchSplit) × (count_simple_cycles g limit ≡ ok h)
      × (split_static_search g cutoff limit ≡ ok out)
      × All (λ (i : SplitWorkItem). length i.prefix ≡ cutoff) out.items
      × ((size : ℕ) → cutoff ≤ size → count out.closed size ≡ 0)
      × ((size : ℕ)
          → count h size
            ≡ count out.closed size + how_many size (continuations g limit cutoff out.items))
split_static_search_counts g limit cutoff valid small fits long few =
    let n = g.vertex_count in
    let next = successors g in
    let closed = closed_all next limit cutoff n in
    let prefixes = prefixes_all next limit cutoff n in
    let (h, e, counts) = count_simple_cycles_counts g limit valid small fits few in
    let parts = λ (size : ℕ). all_cycles_split next limit cutoff n size (omega arith) in
    let lengths : All FitsLength closed = All-of_mem FitsLength closed (λ c m.
      view_cycles-FitsLength g limit valid small c
        (closed_all_cases next limit cutoff n c (omega arith) m).0) in
    let (h', e') =
      increment_all_returns (tally closed) no_cycles (tally-lengths closed lengths) (λ size. omega (
        arith,
        count-no_cycles size,
        weight-tally size closed lengths,
        parts size,
        how_many-le size (view_cycles g limit),
      )) in
    let counted : (size : ℕ) → count h' size ≡ how_many size closed = λ size. omega (
      arith,
      count-increment_all (tally closed) no_cycles h' size e',
      count-no_cycles size,
      weight-tally size closed lengths,
    ) in
    let accepted : ltb cutoff 2 ≡ false = ground arith in
    (
      h,
      record { items = map item prefixes; closed = h' },
      e,
      split_static_search_lem g cutoff limit valid ∙ rw (accepted, refuses_lem limit fits, e'),
      All-items cutoff prefixes (
          All-of_mem _ prefixes (λ c m. prefixes_all-length next limit cutoff n c (omega arith) m)),
      λ size far.
          counted size
          ∙ how_many-zero size closed (
              All-of_mem _ closed (λ c m.
                omega (arith, (closed_all_cases next limit cutoff n c (omega arith) m).1, far))),
      λ size.
          let beyond =
            flat_map-map (λ (i : SplitWorkItem). cycles_beyond next limit cutoff n i.prefix) item
              prefixes in
          omega (arith, counts size, parts size, counted size, ap (how_many size) beyond),
    )
