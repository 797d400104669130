-- ===== src/Dynamic/UpdateOpenmp/Agree.antt =====
-- However the runtime hands out the changes, the parallel update is the sequential one.
use cycle_enumeration_gpu.Prelude.{
  ℕ, suc, ◌-◌, ◌≤◌, ◌<◌, ◌≡◌, refl, sym, ap, ◌∙◌, fun_ext, Bool, true, false, inl, inr, Bool-cases,
  List, [], ◌∷◌, ltb, ◌&&◌, ◌==◌, if◌then◌else◌, length, replicate, get_elem?, range, map, All,
  All-range, arith, Result, ok, ◌>>=◌, throw_if, invalid_argument,
}
use mathlib.Core.List.{Permᴰ}
use cycle_enumeration_gpu.Prelude.Int.{ℤ, pos, ltb_ℤ}
use cycle_enumeration_gpu.Core.Histogram.{CycleHistogram}
use cycle_enumeration_gpu.Core.GraphView.Csr.{concat}
use cycle_enumeration_gpu.Dynamic.EdgeChange.{EdgeChange, EdgeBatch, normalize}
use cycle_enumeration_gpu.Dynamic.DirectedGraph.{DirectedGraph, apply_batch}
use cycle_enumeration_gpu.Dynamic.ThroughEdge.{index_of}
use cycle_enumeration_gpu.Dynamic.ThroughEdge.Buffer.{Clear}
use cycle_enumeration_gpu.Dynamic.ThroughEdge.Owned.{IsClosed}
use cycle_enumeration_gpu.Dynamic.Update.{
  Sign, minus, plus, Phase, accumulate_phase, update_static_histogram, apply_histogram_delta,
}
use cycle_enumeration_gpu.Dynamic.Update.Sums.{
  Buckets, zeros-Buckets, add_all-Buckets, add_all, add_all-zero, sum_of, sum_of-Permᴰ,
}
use cycle_enumeration_gpu.Openmp.Johnson.{resolve_thread_count}
use cycle_enumeration_gpu.Openmp.Merge.Sums.{All-Permᴰ}
use cycle_enumeration_gpu.Dynamic.UpdateOpenmp.{
  accumulate_phase_parallel, update_static_histogram_openmp,
}
use cycle_enumeration_gpu.Dynamic.UpdateOpenmp.Phases.{
  amount, count_owners_lem, accumulate_from_lem, locals_lem,
}

All-Clear :
    (ps : List Phase)
    → All (λ (p : Phase). Clear p.visited) ps
    → All Clear (map (λ (p : Phase). p.visited) ps)
All-Clear [] a = tt
All-Clear (p ∷ ps) a = (a.0, All-Clear ps a.1)

module _ (g : DirectedGraph) (changes : List EdgeChange) (most : ℕ) (sign : Sign)
    (closed : IsClosed g) (two : 2 ≤ most) where
  -- What all changes of a phase add at a length.
  abbrev pub phase_total : ℕ → ℤ
  phase_total k =
      sum_of (λ owner. amount g changes most sign (index_of changes) owner k)
        (range (length changes))

  pub sequential_phase :
      (p : Phase)
      → Buckets (suc most) p.delta
      → Clear p.visited
      → (size : ℕ) × (accumulate_phase g changes most sign p
          ≡ ok (record {
            visited = replicate size false;
            delta = add_all phase_total 2 (most - 1) p.delta;
          }))
  unfolding accumulate_phase
  sequential_phase p l clear =
      let (size, run) =
        count_owners_lem g changes most sign (index_of changes) closed two (range (length changes))
          p (All-range (length changes)) l clear in
      (
        size,
        accumulate_from_lem g changes most sign (index_of changes) closed two 0 changes p
              (λ k. ap (get_elem? changes) (omega arith))
            ∙ run,
      )

  no_total :
      (delta : List ℤ)
      → length changes ≡ 0
      → Buckets (suc most) delta
      → add_all phase_total 2 (most - 1) delta ≡ delta
  unfolding sum_of
  no_total delta none l =
      ap
        (λ (n : ℕ).
          add_all
            (λ k. sum_of (λ owner. amount g changes most sign (index_of changes) owner k) (range n))
            2 (most - 1) delta)
        none
      ∙ add_all-zero 2 (most - 1) (suc most) delta (omega (arith, two)) l

  parallel_phase :
      (schedule : List (List ℕ)) (buffers : List (List Bool)) (delta : List ℤ)
      → Permᴰ (concat schedule) (range (length changes))
      → Buckets (suc most) delta
      → All Clear buffers
      → (left : List (List Bool)) × (accumulate_phase_parallel g changes most sign buffers schedule
            delta
          ≡ ok (left, add_all phase_total 2 (most - 1) delta))
        × All Clear left
  unfolding accumulate_phase_parallel
  parallel_phase schedule buffers delta once l clear =
      let run =
        locals_lem g changes most sign (index_of changes) closed two schedule buffers delta clear
          (All-Permᴰ (λ owner. owner < length changes) once (All-range (length changes))) l in
      let same : add_all
            (λ k.
              sum_of (λ owner. amount g changes most sign (index_of changes) owner k)
                (concat schedule))
            2 (most - 1) delta
          ≡ add_all phase_total 2 (most - 1) delta =
        ap (λ (f : ℕ → ℤ). add_all f 2 (most - 1) delta)
          (fun_ext (λ k.
            sum_of-Permᴰ (λ owner. amount g changes most sign (index_of changes) owner k) once)) in
      elim (Bool-cases (length changes == 0)) [
        | inl none ↦
            let none_left : length changes ≡ 0 = ground (arith, none) in
            (
              buffers,
              rw none (ap (λ (d : List ℤ). ok (buffers, d)) (sym (no_total delta none_left l))),
              clear,
            )
        | inr some_ ↦ (
          map (λ (p : Phase). p.visited) run.left,
          rw (some_, run.returned, run.added, same),
          All-Clear run.left run.clear,
        )
      ]

-- The part of the update that the threads share.
abbrev two_phases :
    DirectedGraph
    → List (List ℕ)
    → List (List ℕ)
    → CycleHistogram
    → EdgeBatch
    → ℕ
    → Result CycleHistogram
two_phases g first second h batch most = do
  (buffers, delta) ←
      accumulate_phase_parallel g (normalize batch).deletions most minus [] first
        (replicate (suc most) (pos 0))
  final ← apply_batch g (normalize batch)
  (_, sums) ←
      accumulate_phase_parallel final (normalize batch).insertions most plus buffers second delta
  apply_histogram_delta h sums most

two_phases_agree :
    (g final : DirectedGraph) (first second : List (List ℕ)) (h : CycleHistogram)
    (batch : EdgeBatch) (most : ℕ)
    → IsClosed g
    → IsClosed final
    → 2 ≤ most
    → apply_batch g (normalize batch) ≡ ok final
    → Permᴰ (concat first) (range (length (normalize batch).deletions))
    → Permᴰ (concat second) (range (length (normalize batch).insertions))
    → two_phases g first second h batch most ≡ update_static_histogram g h batch most
unfolding update_static_histogram
two_phases_agree g final first second h batch most closed closed' two e once once' =
    let n = normalize batch in
    let zeros = replicate (suc most) (pos 0) in
    let lz = zeros-Buckets (suc most) in
    let middle = add_all (phase_total g n.deletions most minus closed two) 2 (most - 1) zeros in
    let lm = add_all-Buckets _ 2 (most - 1) (suc most) zeros (omega arith) lz in
    let (size, p) =
      sequential_phase g n.deletions most minus closed two (record { visited = []; delta = zeros })
        lz (0, refl) in
    let (left, p', clear) =
      parallel_phase g n.deletions most minus closed two first [] zeros once lz tt in
    let (size', q) =
      sequential_phase final n.insertions most plus closed' two
        (record { visited = replicate size false; delta = middle }) lm (size, refl) in
    let (left', q', clear') =
      parallel_phase final n.insertions most plus closed' two second left middle once' lm clear in
    let enough : ltb most 2 ≡ false = ground (arith, two) in rw (enough, p, p', e, q, q')

if_same : {A : Type 0} (b : Bool) (x y : A) → x ≡ y → (if b then x else y) ≡ y
if_same true x y e = e
if_same false x y e = refl

-- A choice between two calls that agree, behind a guard that lets it pass.
guarded_choice :
    (refused : Bool) (threads : Result ℤ) (c : ℤ → Bool) (x y : Result CycleHistogram)
    → refused ≡ false
    → x ≡ y
    → (throw_if refused invalid_argument >>= λ done. threads >>= λ t. if c t then x else y)
      ≡ (threads >>= λ t. y)
guarded_choice refused threads c x y e same =
    rw e (
      ap (λ (k : ℤ → Result CycleHistogram). threads >>= k) (fun_ext (λ t. if_same (c t) x y same)))

-- As long as each change of a phase is taken exactly once, by whichever thread and in whatever order,
-- and the graph before and the graph after the batch are laid out well, the parallel update returns
-- what the sequential one returns, errors included, where sums of type `long long` that overflow, for
-- which C++ defines no behaviour, wrap around in both; it refuses only a thread count that is not
-- positive, or above one without OpenMP.
pub update_openmp_agrees :
    (available : Bool) (first second : List (List ℕ)) (g final : DirectedGraph) (h : CycleHistogram)
    (batch : EdgeBatch) (most : ℕ) (requested : ℤ)
    → IsClosed g
    → IsClosed final
    → 2 ≤ most
    → apply_batch g (normalize batch) ≡ ok final
    → Permᴰ (concat first) (range (length (normalize batch).deletions))
    → Permᴰ (concat second) (range (length (normalize batch).insertions))
    → update_static_histogram_openmp available first second g h batch most requested ≡ (
        resolve_thread_count available requested >>= λ threads.
        update_static_histogram g h batch most)
unfolding update_static_histogram_openmp
update_openmp_agrees available first second g final h batch most requested closed closed' two e once
      once' =
    let enough : ltb most 2 ≡ false = ground (arith, two) in
    let same = two_phases_agree g final first second h batch most closed closed' two e once once' in
    guarded_choice (ltb most 2) (resolve_thread_count available requested)
      (λ threads. available && ltb_ℤ (pos 1) threads) _ _ enough same
