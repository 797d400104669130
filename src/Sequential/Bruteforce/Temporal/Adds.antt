-- ===== src/Sequential/Bruteforce/Temporal/Adds.antt =====
-- The increments of each root, where the baseline returns.
use cycle_enumeration_gpu.Prelude.{
  ℕ, ◌-◌, ◌<◌, ◌≡◌, refl, sym, ap, fun_ext, ◌∙◌, List, [], ◌∷◌, Option, range, range_from, All,
  All-range, All-of_mem, flat_map, get_elem?-eq-get_or, length, arith, inl, inr, Result, ok, ◌>>=◌,
  for_each, at, Result-cases,
}
use cycle_enumeration_gpu.Prelude.Int.{ℤ, pos, ◌+ℤ◌}
use cycle_enumeration_gpu.Core.Histogram.{CycleHistogram, Entries, no_cycles, increment_all}
use cycle_enumeration_gpu.Core.GraphView.{AdjacencyEntry, GraphView}
use cycle_enumeration_gpu.Core.GraphView.Rows.{IsValid, outgoing_of, row_lem, row_of-All}
use cycle_enumeration_gpu.Core.Timestamp.{value_at, checked_window_end}
use cycle_enumeration_gpu.Core.Timestamp.Window.{checked_window_end_fits}
use cycle_enumeration_gpu.Cycles.Runs.{increment_all-flat_map}
use cycle_enumeration_gpu.Sequential.Bruteforce.{validate_max_cycle_length}
use cycle_enumeration_gpu.Sequential.Bruteforce.TimeWindow.{validate_window_width}
use cycle_enumeration_gpu.Sequential.Bruteforce.Temporal.{count_temporal_cycles}
use cycle_enumeration_gpu.Sequential.Bruteforce.Temporal.Runs.{adds_from}
use cycle_enumeration_gpu.Sequential.Bruteforce.Temporal.Starts.{
  does_start, does_root, count_temporal_cycles_lem,
}
use cycle_enumeration_gpu.Sequential.CycleUnion.Search.{IsTimed}
use cycle_enumeration_gpu.Sequential.Closing.Loops.{range_from_bounds}

-- Steps that only add, wherever they succeed, only add.
for_each-adds :
    {A : Type 0} (step : A → CycleHistogram → Result CycleHistogram) (adds : A → Entries)
    (P : A → Type 0)
    → ((x : A) (s t : CycleHistogram)
        → P x
        → step x s ≡ ok t
        → (h : CycleHistogram) → step x h ≡ increment_all (adds x) h)
    → (xs : List A) (s t : CycleHistogram) → All P xs
    → for_each step xs s ≡ ok t
    → All (λ x. (h : CycleHistogram) → step x h ≡ increment_all (adds x) h) xs
for_each-adds step adds P each [] s t a e = tt
for_each-adds step adds P each (x ∷ xs) s t a e = elim (Result-cases (step x s)) [
  | inl (u, eu) ↦ (each x s u a.0 eu, for_each-adds step adds P each xs u t a.1 (rw eu at e))
  | inr (z, ez) ↦ cc (rw ez at e)
]

pub for_each-same :
    {A : Type 0} (step : A → CycleHistogram → Result CycleHistogram) (adds : A → Entries)
    (xs : List A)
    → All (λ x. (h : CycleHistogram) → step x h ≡ increment_all (adds x) h) xs
    → (h : CycleHistogram) → for_each step xs h ≡ increment_all (flat_map adds xs) h
for_each-same step adds xs a h = for_each-equal xs a h ∙ sym (increment_all-flat_map adds xs h)
  where
    for_each-equal :
        (xs : List _)
        → All (λ x. (h : CycleHistogram) → step x h ≡ increment_all (adds x) h) xs
        → (h : CycleHistogram) → for_each step xs h ≡ for_each (λ x. increment_all (adds x)) xs h
    for_each-equal [] a h = refl
    for_each-equal (x ∷ xs) a h =
        rw (a.0 h) (ap (λ k. increment_all (adds x) h >>= k) (fun_ext (for_each-equal xs a.1)))

module _ (g : GraphView) (width : ℤ) (limit : Option ℕ) where
  unfoldable pub start_adds : ℕ → ℕ → ℕ → Entries
  start_adds root first i =
      let start = value_at g.timestamps i in
      adds_from g limit root (start +ℤ width) g.vertex_count first start (first ∷ root ∷ [])

  unfoldable pub edge_adds : ℕ → AdjacencyEntry → Entries
  unfolding start_adds
  edge_adds root e =
      flat_map (start_adds root e.vertex)
        (range_from e.timestamp_begin (e.timestamp_end - e.timestamp_begin))

  -- What all searches from a root add.
  unfoldable pub root_adds : ℕ → Entries
  unfolding edge_adds
  root_adds root = flat_map (edge_adds root) (outgoing_of g root)

  abbrev at_offset : ℕ → ℕ → ℕ → CycleHistogram → Result CycleHistogram
  at_offset root first offset h =
      at g.timestamps offset >>= λ start. does_start g width limit root first start h

  does_start-adds :
      (root first i : ℕ) (s t : CycleHistogram)
      → i < length g.timestamps
      → at_offset root first i s ≡ ok t
      → (h : CycleHistogram) → at_offset root first i h ≡ increment_all (start_adds root first i) h
  unfolding start_adds
  does_start-adds root first i s t inside e h =
      let start = value_at g.timestamps i in
      let get = get_elem?-eq-get_or g.timestamps i (pos 0) inside in
      elim (Result-cases (checked_window_end start width)) [
        | inl (last, run) ↦
            let same : last ≡ start +ℤ width = (checked_window_end_fits start width last run).1 in
            rw (get, run, same) refl
        | inr (x, bad) ↦ absurd (cc (rw (get, bad) at e))
      ]

  module _ (valid : IsValid g) (timed : All (IsTimed g.timestamps) g.outgoing_edges) where
    inside_offsets :
        (e : AdjacencyEntry)
        → IsTimed g.timestamps e
        → All
            (λ i. i < length g.timestamps)
            (range_from e.timestamp_begin (e.timestamp_end - e.timestamp_begin))
    inside_offsets e fine = All-of_mem _ _ (λ i m.
        let (lo, hi) =
          range_from_bounds i e.timestamp_begin (e.timestamp_end - e.timestamp_begin) m in
        omega (arith, fine.1, fine.0))

    abbrev at_edge : ℕ → AdjacencyEntry → CycleHistogram → Result CycleHistogram
    at_edge root e =
        for_each (at_offset root e.vertex)
          (range_from e.timestamp_begin (e.timestamp_end - e.timestamp_begin))

    does_edge-adds :
        (root : ℕ) (e : AdjacencyEntry) (s t : CycleHistogram)
        → IsTimed g.timestamps e
        → at_edge root e s ≡ ok t
        → (h : CycleHistogram) → at_edge root e h ≡ increment_all (edge_adds root e) h
    unfolding edge_adds
    does_edge-adds root e s t fine run h =
        for_each-same (at_offset root e.vertex) (start_adds root e.vertex)
          (range_from e.timestamp_begin (e.timestamp_end - e.timestamp_begin))
          (for_each-adds (at_offset root e.vertex) (start_adds root e.vertex)
            (λ i. i < length g.timestamps)
            (λ i s' t' inside e' h'. does_start-adds root e.vertex i s' t' inside e' h')
            (range_from e.timestamp_begin (e.timestamp_end - e.timestamp_begin)) s t
            (inside_offsets e fine) run)
          h

    does_root-adds :
        (root : ℕ) (s t : CycleHistogram)
        → root < g.vertex_count
        → does_root g width limit root s ≡ ok t
        → (h : CycleHistogram) → does_root g width limit root h ≡ increment_all (root_adds root) h
    unfolding root_adds
    does_root-adds root s t lt run h =
        let es = outgoing_of g root in
        let run' = rw (row_lem valid.outgoing root lt) at run in
        rw (row_lem valid.outgoing root lt) (
          for_each-same (at_edge root) (edge_adds root) es
            (for_each-adds (at_edge root) (edge_adds root) (IsTimed g.timestamps)
              (λ e s' t' fine e' h'. does_edge-adds root e s' t' fine e' h') es s t
              (row_of-All _ g.outgoing_offsets g.outgoing_edges root timed) run')
            h)

    -- Where the baseline returns, the arguments were accepted, and it makes the increments of each
    -- root.
    pub baseline_adds :
        (h : CycleHistogram)
        → count_temporal_cycles g width limit ≡ ok h
        → (validate_max_cycle_length limit ≡ ok tt)
          × (validate_window_width width ≡ ok tt)
          × All
              (λ root.
                (h : CycleHistogram)
                → does_root g width limit root h ≡ increment_all (root_adds root) h)
              (range g.vertex_count)
          × (increment_all (flat_map root_adds (range g.vertex_count)) no_cycles ≡ ok h)
    baseline_adds h run =
        let n = g.vertex_count in
        let run' = sym (count_temporal_cycles_lem g width limit valid timed) ∙ run in
        elim (Result-cases (validate_max_cycle_length limit)) [
          | inl (u, accepted) ↦
              let run'' = rw accepted at run' in
              elim (Result-cases (validate_window_width width)) [
                | inl (w, wide) ↦
                    let all = rw wide at run'' in
                    let each =
                      for_each-adds (does_root g width limit) root_adds (λ v. v < n) does_root-adds
                        (range n) no_cycles h (All-range n) all in
                    (
                      accepted,
                      wide,
                      each,
                      sym (
                            for_each-same (does_root g width limit) root_adds (range n) each
                              no_cycles)
                          ∙ all,
                    )
                | inr (x, bad) ↦ absurd (cc (rw bad at run''))
              ]
          | inr (x, bad) ↦ absurd (cc (rw bad at run'))
        ]
