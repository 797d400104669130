-- ===== src/Sequential/Bruteforce/Temporal/Starts.antt =====
-- `count_temporal_cycles` as a sequence of increments, one search for each start event.
use cycle_enumeration_gpu.Prelude.{
  ℕ, ◌-◌, ◌<◌, ◌≡◌, refl, ap, Bool, false, List, [], ◌∷◌, Option, length, get_elem?-eq-get_or,
  range, range_from, All-range, All, All-mem, All-of_mem, arith, Result, ok, ◌>>=◌, ◌>>◌, at, inl,
  inr, Result-cases, replicate, for_each,
}
use cycle_enumeration_gpu.Prelude.Int.{ℤ, pos}
use cycle_enumeration_gpu.Core.Histogram.{CycleHistogram, no_cycles, increment_all}
use cycle_enumeration_gpu.Core.GraphView.{AdjacencyEntry, GraphView}
use cycle_enumeration_gpu.Core.GraphView.Rows.{IsValid, outgoing_of, row_lem, row_of-All}
use cycle_enumeration_gpu.Core.Timestamp.{value_at, checked_window_end}
use cycle_enumeration_gpu.Cycles.Marks.{
  marks, set-marks, replicate-marks, spare-cons, spare-nil, spare_le,
}
use cycle_enumeration_gpu.Cycles.Runs.{for_each-Keeps, returned_histogram}
use cycle_enumeration_gpu.Sequential.CycleUnion.Search.{IsTimed}
use cycle_enumeration_gpu.Sequential.Closing.Loops.{range_from_bounds}
use cycle_enumeration_gpu.Sequential.Bruteforce.{Search, validate_max_cycle_length}
use cycle_enumeration_gpu.Sequential.Bruteforce.TimeWindow.{
  each_start, start_from, validate_window_width,
}
use cycle_enumeration_gpu.Sequential.Bruteforce.Temporal.{
  temporal_dfs, temporal_root, count_temporal_cycles,
}
use cycle_enumeration_gpu.Sequential.Bruteforce.Temporal.Runs.{adds_from, temporal_dfs-Runs}

-- A search for each start event of a root that does what `does` says, and leaves some component as
-- it should be.
pub each_start-Keeps :
    {S C : Type 0} (g : GraphView) (search : ℕ → ℤ → S → Result S)
    (does : ℕ → ℤ → CycleHistogram → Result CycleHistogram) (state : CycleHistogram → C → S)
    (Keeps : C → Type 0) (root : ℕ)
    → IsValid g
    → All (IsTimed g.timestamps) g.outgoing_edges
    → root < g.vertex_count
    → ((first i : ℕ) (h : CycleHistogram) (c : C)
        → first < g.vertex_count
        → i < length g.timestamps
        → Keeps c
        → (c' : C) × Keeps c'
          × (search first (value_at g.timestamps i) (state h c)
              ≡ (does first (value_at g.timestamps i) h >>= λ h'. ok (state h' c'))))
    → (h : CycleHistogram) (c : C) → Keeps c
    → (c' : C) × Keeps c'
      × (each_start g search root (state h c)
          ≡ (each_start g does root h >>= λ h'. ok (state h' c')))
each_start-Keeps {S} {C} g search does state Keeps root valid timed lt runs h c k =
    let es = outgoing_of g root in
    let (c', k', run) =
      for_each-Keeps
        (λ (e : AdjacencyEntry).
          for_each (λ offset s. at g.timestamps offset >>= λ start. search e.vertex start s)
            (range_from e.timestamp_begin (e.timestamp_end - e.timestamp_begin)))
        (λ (e : AdjacencyEntry).
          for_each (λ offset s. at g.timestamps offset >>= λ start. does e.vertex start s)
            (range_from e.timestamp_begin (e.timestamp_end - e.timestamp_begin)))
        state Keeps (λ e. IsTimed g.timestamps e × (e.vertex < g.vertex_count))
        (λ e h' c' fine k'.
          for_each-Keeps (λ offset s. at g.timestamps offset >>= λ start. search e.vertex start s)
            (λ offset s. at g.timestamps offset >>= λ start. does e.vertex start s) state Keeps
            (λ i. i < length g.timestamps)
            (λ i h'' c'' inside k''.
              rw (get_elem?-eq-get_or g.timestamps i (pos 0) inside)
                (runs e.vertex i h'' c'' fine.1 inside k''))
            (range_from e.timestamp_begin (e.timestamp_end - e.timestamp_begin)) h' c'
            (All-of_mem _ _ (λ i m.
              let (lo, hi) =
                range_from_bounds i e.timestamp_begin (e.timestamp_end - e.timestamp_begin) m in
              omega (arith, fine.0.1, fine.0.0)))
            k')
        es h c
        (All-of_mem _ es (λ e m. (
          All-mem _ es e (row_of-All _ g.outgoing_offsets g.outgoing_edges root timed) m,
          All-mem _ es e (row_of-All _ g.outgoing_offsets g.outgoing_edges root valid.targets) m,
        )))
        k in
    (c', k', rw (row_lem valid.outgoing root lt) run)

module _ (g : GraphView) (width : ℤ) (limit : Option ℕ) where
  -- The search from one start event, as the increments that it makes.
  abbrev pub does_start : ℕ → ℕ → ℤ → CycleHistogram → Result CycleHistogram
  does_start root first start h = checked_window_end start width >>= λ last.
      increment_all (adds_from g limit root last g.vertex_count first start (first ∷ root ∷ [])) h

  -- All searches from a root.
  abbrev pub does_root : ℕ → CycleHistogram → Result CycleHistogram
  does_root root = each_start g (does_start root) root

  -- Flags and path between two start events are what the last search left.
  abbrev between : CycleHistogram → List Bool × List ℕ → Search
  between h (flags, path) = record { histogram = h; visited = flags; path = path }

  abbrev AnyLeft : List Bool × List ℕ → Type 0
  AnyLeft c = Unit {0}

  temporal_start-Runs :
      (root first i : ℕ) (h : CycleHistogram) (c : List Bool × List ℕ)
      → IsValid g
      → All (IsTimed g.timestamps) g.outgoing_edges
      → root < g.vertex_count
      → first < g.vertex_count
      → let start = value_at g.timestamps i in
        (checked_window_end start width >>= λ last.
        temporal_dfs g width limit g.vertex_count root last first start
          (start_from g root first (between h c)))
        ≡ (does_start root first start h >>= λ h'.
            ok (between h' (marks g.vertex_count (first ∷ root ∷ []), first ∷ root ∷ [])))
  temporal_start-Runs root first i h c valid timed lt ltf =
      let n = g.vertex_count in
      let start = value_at g.timestamps i in
      elim (Result-cases (checked_window_end start width)) [
        | inl (last, e) ↦
            rw (e, replicate-marks n, set-marks n root [], set-marks n first (root ∷ []))
              (temporal_dfs-Runs g limit root last width valid timed n first start
                (first ∷ root ∷ []) h ltf
                (omega
                  (arith, spare_le n first (root ∷ []), spare-cons n root [] lt refl, spare-nil n)))
        | inr (x, e) ↦ rw e refl
      ]

  temporal_root-Runs :
      (root : ℕ) (h : CycleHistogram) (c : List Bool × List ℕ)
      → IsValid g
      → All (IsTimed g.timestamps) g.outgoing_edges
      → root < g.vertex_count
      → (c' : List Bool × List ℕ) × AnyLeft c'
        × (temporal_root g width limit root (between h c)
            ≡ (does_root root h >>= λ h'. ok (between h' c')))
  unfolding temporal_root
  temporal_root-Runs root h c valid timed lt =
      each_start-Keeps g
        (λ first start s. checked_window_end start width >>= λ last.
          temporal_dfs g width limit g.vertex_count root last first start
            (start_from g root first s))
        (does_start root) between AnyLeft root valid timed lt
        (λ first i h' c' ltf inside k.
          (_, tt, temporal_start-Runs root first i h' c' valid timed lt ltf))
        h c tt

  -- On a valid view with sorted timestamps the counter refuses a limit below 2 and a negative width;
  -- else it makes the increments of its searches, one for each start event in order, and fails only
  -- where the end of a window or a count overflows.
  pub count_temporal_cycles_lem :
      IsValid g
      → All (IsTimed g.timestamps) g.outgoing_edges
      → count_temporal_cycles g width limit ≡ (
          validate_max_cycle_length limit
          >> (validate_window_width width >> for_each does_root (range g.vertex_count) no_cycles))
  unfolding count_temporal_cycles
  count_temporal_cycles_lem valid timed =
      let n = g.vertex_count in
      let (c, _, run) =
        for_each-Keeps (temporal_root g width limit) does_root between AnyLeft (λ v. v < n)
          (λ root h c lt k. temporal_root-Runs root h c valid timed lt) (range n) no_cycles
          (replicate n false, []) (All-range n) tt in
      ap (λ r. validate_max_cycle_length limit >> (validate_window_width width >> r))
        (rw run (
          returned_histogram (for_each does_root (range n) no_cycles) (λ h. between h c)
            (λ t. t.histogram) (λ h. refl)))
