-- ===== src/Sequential/CycleUnion/Correct.antt =====
-- What the prefilter includes.
use cycle_enumeration_gpu.Prelude.{
  ℕ, ◌≤◌, ◌<◌, ◌≡◌, refl, ap, true, false, List, [], ◌∷◌, leb, length, mem-range, range, inl, inr,
  arith, ◌∈◌, ◌↔◌, All, All-mem, All-range, ok,
}
use cycle_enumeration_gpu.Prelude.Int.{ℤ, ◌+ℤ◌}
use cycle_enumeration_gpu.Core.GraphView.{AdjacencyEntry, GraphView, outgoing_row, incoming_row}
use cycle_enumeration_gpu.Core.GraphView.Rows.{
  IsValid, outgoing_of, incoming_of, row_lem, row_of-All,
}
use cycle_enumeration_gpu.Core.Timestamp.Window.{FitsWindow, checked_window_end_returns}
use cycle_enumeration_gpu.Cycles.Marks.{marks, length-marks, get-marks, replicate-marks}
use cycle_enumeration_gpu.Sequential.CycleUnion.{
  CycleUnionRequest, CycleUnion, contains, validate_request, forward_reachable,
  reverse_reachable_to_root, compute_temporal_cycle_union,
}
use cycle_enumeration_gpu.Sequential.CycleUnion.Queue.{mem-true, mem-∈}
use cycle_enumeration_gpu.Sequential.CycleUnion.Leads.{Leads, Reaches-Leads, Leads-Reaches}
use cycle_enumeration_gpu.Sequential.CycleUnion.Search.{IsTimed, IsFine, reach_from_returns}
use cycle_enumeration_gpu.Sequential.CycleUnion.Join.{
  union_of, join_all, join_all_lem, join_all-∈, Joined,
}

-- The timestamps of every edge of a view are in range and sorted.
abbrev pub AllTimed : GraphView → Type 0
AllTimed g =
    All (IsTimed g.timestamps) g.outgoing_edges × All (IsTimed g.timestamps) g.incoming_edges

-- A vertex can be reached from the first vertex of a request over outgoing rows, and from its root
-- over incoming rows.
abbrev pub IsCandidate : GraphView → CycleUnionRequest → ℕ → Type 0
IsCandidate g r w =
    Leads g.timestamps r.start_timestamp (r.start_timestamp +ℤ r.window_width) (outgoing_of g)
      r.first_vertex w
    × Leads g.timestamps r.start_timestamp (r.start_timestamp +ℤ r.window_width) (incoming_of g)
        r.root w

All-IsFine :
    (g : GraphView) (first last : ℤ) (es : List AdjacencyEntry)
    → All (IsTimed g.timestamps) es
    → All (λ (e : AdjacencyEntry). e.vertex < g.vertex_count) es
    → All (IsFine g first last) es
unfolding IsFine
All-IsFine g first last [] a b = tt
All-IsFine g first last (e ∷ es) a b = ((a.0, b.0), All-IsFine g first last es a.1 b.1)

module _ (g : GraphView) (valid : IsValid g) (timed : AllTimed g) (first last : ℤ) where
  forward_returns :
      (v : ℕ)
      → v < g.vertex_count
      → (seen : List ℕ) × (forward_reachable g first last v ≡ ok (marks g.vertex_count seen))
        × ((w : ℕ) → (w ∈ seen) ↔ Leads g.timestamps first last (outgoing_of g) v w)
  unfolding forward_reachable
  forward_returns v lt =
      let fine = λ (c : ℕ).
        row_of-All (IsFine g first last) g.outgoing_offsets g.outgoing_edges c
          (All-IsFine g first last g.outgoing_edges timed.0 valid.targets) in
      let (seen, run, iff) =
        reach_from_returns g first last (outgoing_row g) (outgoing_of g)
          (λ c h. row_lem valid.outgoing c h) fine v lt in
      (
        seen,
        run,
        λ w. (
          (λ m. Reaches-Leads g first last (outgoing_of g) fine v w ((iff w).0 m)),
          λ l. (iff w).1 (Leads-Reaches g first last (outgoing_of g) fine v w l),
        ),
      )

  reverse_returns :
      (v : ℕ)
      → v < g.vertex_count
      → (seen : List ℕ) × (reverse_reachable_to_root g first last v
          ≡ ok (marks g.vertex_count seen))
        × ((w : ℕ) → (w ∈ seen) ↔ Leads g.timestamps first last (incoming_of g) v w)
  unfolding reverse_reachable_to_root
  reverse_returns v lt =
      let fine = λ (c : ℕ).
        row_of-All (IsFine g first last) g.incoming_offsets g.incoming_edges c
          (All-IsFine g first last g.incoming_edges timed.1 valid.sources) in
      let (seen, run, iff) =
        reach_from_returns g first last (incoming_row g) (incoming_of g)
          (λ c h. row_lem valid.incoming c h) fine v lt in
      (
        seen,
        run,
        λ w. (
          (λ m. Reaches-Leads g first last (incoming_of g) fine v w ((iff w).0 m)),
          λ l. (iff w).1 (Leads-Reaches g first last (incoming_of g) fine v w l),
        ),
      )

contains_lem :
    (n : ℕ) (inc : List ℕ) (w : ℕ) → w < n → (contains (union_of n inc) w ≡ ok true) ↔ (w ∈ inc)
unfolding contains
contains_lem n inc w lt =
    let inside : leb (length (marks n inc)) w ≡ false = ground (arith, length-marks n inc) in
    rw (inside, get-marks n w inc lt) ((λ e. mem-true w inc (cc e)), λ m. ap ok (mem-∈ w inc m))

one_at_least : (xs : List ℕ) (w : ℕ) → w ∈ xs → 1 ≤ length xs
one_at_least [] w m = absurd m
one_at_least (x ∷ xs) w m = omega arith

some_member : (xs : List ℕ) → 1 ≤ length xs → (w : ℕ) × (w ∈ xs)
some_member [] h = absurd (omega arith)
some_member (x ∷ xs) h = (x, inl refl)

-- On a valid view with sorted timestamps, for a window that fits and two of its vertices, the
-- prefilter returns. A vertex is included exactly if it can be reached from the first vertex over
-- outgoing rows, and from the root over incoming rows, along edges with an event after the start and
-- not after the end of the window; and the count is positive exactly if there is such a vertex.
pub compute_temporal_cycle_union_lem :
    (g : GraphView) (r : CycleUnionRequest)
    → IsValid g
    → AllTimed g
    → FitsWindow r.start_timestamp r.window_width
    → r.root < g.vertex_count
    → r.first_vertex < g.vertex_count
    → (u : CycleUnion) × (compute_temporal_cycle_union g r ≡ ok u)
      × ((w : ℕ) → w < g.vertex_count → (contains u w ≡ ok true) ↔ IsCandidate g r w)
      × ((1 ≤ u.included_count) ↔ ((w : ℕ) × (w < g.vertex_count) × IsCandidate g r w))
unfolding compute_temporal_cycle_union validate_request Joined
compute_temporal_cycle_union_lem g r valid timed fits lt ltf =
    let n = g.vertex_count in
    let last = r.start_timestamp +ℤ r.window_width in
    let (forward, run, found) =
      forward_returns g valid timed r.start_timestamp last r.first_vertex ltf in
    let (reverse, run', found') = reverse_returns g valid timed r.start_timestamp last r.root lt in
    let inside : leb n r.root ≡ false = ground arith in
    let inside' : leb n r.first_vertex ≡ false = ground arith in
    let inc = join_all forward reverse (range n) [] in
    let member = λ (w : ℕ). join_all-∈ n forward reverse (range n) [] w in
    let exactly : (w : ℕ) → w < n → (w ∈ inc) ↔ IsCandidate g r w = λ w h. (
      (λ m. elim ((member w).0 m) [
        | inl none ↦ absurd none
        | inr b ↦ ((found w).0 b.1, (found' w).0 b.2)
      ]),
      λ c. (member w).1 (inr (mem-range w n h, (found w).1 c.0, (found' w).1 c.1)),
    ) in
    (
      union_of n inc,
      rw
          (
            checked_window_end_returns r.start_timestamp r.window_width fits,
            inside,
            inside',
            run,
            run',
            replicate-marks n,
          )
          (join_all_lem n forward reverse (range n) [] (All-range n)),
      (λ w h. (
        (λ e. (exactly w h).0 ((contains_lem n inc w h).0 e)),
        λ c. (contains_lem n inc w h).1 ((exactly w h).1 c),
      )),
      (
        (λ some_.
            let (w, m) = some_member inc some_ in
            elim ((member w).0 m) [
              | inl none ↦ absurd none
              | inr b ↦
                  (w, All-mem _ (range n) w (All-range n) b.0, ((found w).0 b.1, (found' w).0 b.2))
            ]),
        λ (w, h, c). one_at_least inc w ((exactly w h).1 c),
      ),
    )
