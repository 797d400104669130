-- ===== src/Sequential/Johnson/Bounded.antt =====
-- `circuit_bounded` lists the cycles that the specification lists, so with a limit Johnson's
-- counter agrees with the baseline.
use cycle_enumeration_gpu.Prelude.{
  ℕ, zero, suc, ◌≤◌, ◌<◌, ◌≡◌, refl, sym, ap, ◌∙◌, Bool, true, false, ◌&&◌, ◌||◌, List, [], ◌∷◌,
  ◌++◌, some, leb, ◌==◌, length, mem, replicate, range, All-range, map, flat_map, arith, inl, inr,
  Bool-cases, Result, ok, ◌>>=◌, ◌>>◌, >>=_assoc,
}
use cycle_enumeration_gpu.Core.Histogram.{CycleHistogram, no_cycles, increment, increment_all}
use cycle_enumeration_gpu.Core.Histogram.Laws.{increment_all-nil, increment_all-one}
use cycle_enumeration_gpu.Core.GraphView.{AdjacencyEntry, GraphView}
use cycle_enumeration_gpu.Core.GraphView.Rows.{IsValid, outgoing_of, row_lem, row_of-All}
use cycle_enumeration_gpu.Cycles.{
  cycle_length, cycles_via, cycles_from, cycles_at, all_cycles, tally,
}
use cycle_enumeration_gpu.Cycles.Marks.{
  marks, get-marks, set-marks, unset-marks, replicate-marks, spare, spare-cons, spare-nil,
}
use cycle_enumeration_gpu.Cycles.Views.{successors, tally-successors, view_cycles}
use cycle_enumeration_gpu.Cycles.Runs.{
  for_each-Runs, then_Runs, after_all, returned_histogram, tally-flat_map,
}
use cycle_enumeration_gpu.Sequential.Bruteforce.{validate_max_cycle_length, count_simple_cycles}
use cycle_enumeration_gpu.Sequential.Bruteforce.Simple.{count_simple_cycles_lem}
use cycle_enumeration_gpu.Sequential.Johnson.{
  Johnson, bounded_edge, circuit_bounded, run_root, count_simple_cycles_johnson,
}

abbrev pub nonempty : List (List ℕ) → Bool
nonempty [] = false
nonempty (c ∷ cs) = true

nonempty-append : (xs ys : List (List ℕ)) → nonempty (xs ++ ys) ≡ (nonempty xs || nonempty ys)
nonempty-append [] ys = refl
nonempty-append (x ∷ xs) ys = refl

found_after :
    (f : ℕ → List (List ℕ)) (es : List AdjacencyEntry) (c : Bool)
    → after_all (λ (e : AdjacencyEntry) c. nonempty (f e.vertex) || c) es c
      ≡ (nonempty (flat_map f (map (λ (e : AdjacencyEntry). e.vertex) es)) || c)
found_after f [] c = refl
found_after f (e ∷ es) c = ground (
  arith,
  found_after f es (nonempty (f e.vertex) || c),
  nonempty-append (f e.vertex) (flat_map f (map (λ (e : AdjacencyEntry). e.vertex) es)),
)

-- The state of a bounded search that is at the end of `path`.
abbrev searching : ℕ → List (List ℕ) → List ℕ → CycleHistogram → Johnson
searching n lists path h = record {
  histogram = h;
  blocked = marks n path;
  blocked_list = lists;
  path = path;
}

module _ (g : GraphView) (root most : ℕ) (lists : List (List ℕ)) where
  -- What a nested `circuit_bounded` is to do.
  abbrev Explores :
      (ℕ → Johnson → Result (Johnson × Bool)) → (ℕ → List ℕ → List (List ℕ)) → List ℕ → Type 0
  Explores call deeper path =
      (v : ℕ) (h : CycleHistogram)
      → v < g.vertex_count
      → mem v path ≡ false
      → call v (searching g.vertex_count lists path h) ≡ (
          increment_all (tally (deeper v (v ∷ path))) h >>= λ h'.
          ok (searching g.vertex_count lists path h', nonempty (deeper v (v ∷ path))))

  bounded_edge-Runs :
      (call : ℕ → Johnson → Result (Johnson × Bool)) (deeper : ℕ → List ℕ → List (List ℕ))
      (path : List ℕ)
      → Explores call deeper path
      → (e : AdjacencyEntry) (h : CycleHistogram) (c : Bool) → e.vertex < g.vertex_count
      → let here = cycles_via (successors g) (some most) root deeper path e.vertex in
        bounded_edge g root call most e (searching g.vertex_count lists path h, c) ≡ (
          increment_all (tally here) h >>= λ h'.
          ok (searching g.vertex_count lists path h', nonempty here || c))
  unfolding bounded_edge
  bounded_edge-Runs call deeper path calls e h c lt =
      elim (Bool-cases (e.vertex == root && leb 2 (length path))) [
        | inl closes ↦
            rw (closes, increment_all-one (cycle_length path) 1 h)
              (>>=_assoc (increment (cycle_length path) 1 h) _ _)
        | inr passes ↦ rw passes (elim (Bool-cases (leb e.vertex root)) [
          | inl below ↦ rw (below, increment_all-nil h)
          | inr above ↦
              rw (above, get-marks g.vertex_count e.vertex path lt)
                (elim (Bool-cases (mem e.vertex path)) [
                  | inl seen ↦ rw (seen, increment_all-nil h)
                  | inr new ↦ rw new (elim (Bool-cases (leb most (length path))) [
                    | inl far ↦ rw (far, increment_all-nil h)
                    | inr near ↦
                        rw (near, calls e.vertex h lt new)
                          (then_Runs (increment_all (tally (deeper e.vertex (e.vertex ∷ path))) h) _
                            _ _ (λ h'. refl))
                  ])
                ])
        ])
      ]

  circuit_bounded-Runs :
      IsValid g
      → (fuel v : ℕ) (path : List ℕ) (h : CycleHistogram) → v < g.vertex_count
      → mem v path ≡ false
      → spare g.vertex_count path ≤ fuel
      → let here = cycles_from (successors g) (some most) root fuel v (v ∷ path) in
        circuit_bounded g root most fuel v (searching g.vertex_count lists path h) ≡ (
          increment_all (tally here) h >>= λ h'.
          ok (searching g.vertex_count lists path h', nonempty here))
  unfolding circuit_bounded cycles_from
  circuit_bounded-Runs valid zero v path h lt new f =
      absurd (omega (arith, spare-cons g.vertex_count v path lt new))
  circuit_bounded-Runs valid (suc fuel) v path h lt new f =
      let n = g.vertex_count in
      let deeper = cycles_from (successors g) (some most) root fuel in
      let via = cycles_via (successors g) (some most) root deeper (v ∷ path) in
      let calls : Explores (circuit_bounded g root most fuel) deeper (v ∷ path) = λ w h' ltw neww.
        circuit_bounded-Runs valid fuel w (v ∷ path) h' ltw neww
          (omega (arith, spare-cons n v path lt new)) in
      let loop =
        for_each-Runs (bounded_edge g root (circuit_bounded g root most fuel) most)
          (λ (e : AdjacencyEntry). tally (via e.vertex))
          (λ h' c. (searching n lists (v ∷ path) h', c)) (λ e c. nonempty (via e.vertex) || c)
          (λ e. e.vertex < n)
          (bounded_edge-Runs (circuit_bounded g root most fuel) deeper (v ∷ path) calls)
          (outgoing_of g v) h false
          (row_of-All _ g.outgoing_offsets g.outgoing_edges v valid.targets) in
      rw
        (
          row_lem valid.outgoing v lt,
          set-marks n v path,
          loop,
          tally-successors via (outgoing_of g v),
          found_after via (outgoing_of g v) false,
        )
        (then_Runs (increment_all _ h) _ _ _ (λ h'. ground (arith, unset-marks n v path new)))

module _ (g : GraphView) (most : ℕ) (valid : IsValid g) where
  abbrev idle : CycleHistogram → Johnson
  idle h = searching g.vertex_count (replicate g.vertex_count []) [] h

  run_root-Runs :
      (root : ℕ) (h : CycleHistogram)
      → root < g.vertex_count
      → run_root g (some most) root (idle h) ≡ (
          increment_all (tally (cycles_at (successors g) (some most) g.vertex_count root)) h
          >>= λ h'. ok (idle h'))
  unfolding run_root cycles_at
  run_root-Runs root h lt =
      let n = g.vertex_count in
      rw
        (
          replicate-marks n,
          circuit_bounded-Runs g root most (replicate n []) valid n root [] h lt refl
              (omega (arith, spare-nil n)),
        )
        (then_Runs (increment_all _ h) _ _ _ (λ h'. refl))

  johnson_bounded_lem : count_simple_cycles_johnson g (some most) ≡ (
      validate_max_cycle_length (some most)
      >> increment_all (tally (view_cycles g (some most))) no_cycles)
  unfolding count_simple_cycles_johnson all_cycles
  johnson_bounded_lem =
      let n = g.vertex_count in
      let cycles = cycles_at (successors g) (some most) n in
      let loop =
        for_each-Runs (run_root g (some most)) (λ root. tally (cycles root))
          (λ h (c : Unit {0}). idle h) (λ root c. c) (λ root. root < n)
          (λ root h c. run_root-Runs root h) (range n) no_cycles tt (All-range n) in
      rw (replicate-marks n, loop, tally-flat_map cycles (range n))
        (ap (λ r. validate_max_cycle_length (some most) >> r)
          (returned_histogram _ idle (λ t. t.histogram) (λ h. refl)))

-- With a length limit Johnson's counter returns what the baseline returns on every valid view, the
-- refusal of a limit below 2 and an overflow of a count included.
pub johnson_bounded_agrees :
    (g : GraphView) (most : ℕ)
    → IsValid g
    → count_simple_cycles_johnson g (some most) ≡ count_simple_cycles g (some most)
johnson_bounded_agrees g most valid =
    johnson_bounded_lem g most valid ∙ sym (count_simple_cycles_lem g (some most) valid)
