-- ===== src/Sequential/TemporalReadTarjan/Runs.antt =====
-- What the pruned search adds to its histogram.
use cycle_enumeration_gpu.Prelude.{
  ℕ, zero, suc, ◌-◌, ◌≤◌, ◌<◌, ◌≡◌, refl, false, ◌&&◌, ◌||◌, List, [], ◌∷◌, Option, leb, ◌==◌,
  ==_iff, length, mem, All, All-mem, All-of_mem, flat_map, arith, inl, inr, Bool-cases, Result, ok,
  ◌∈◌,
}
use cycle_enumeration_gpu.Prelude.Int.{ℤ}
use cycle_enumeration_gpu.Core.Histogram.{CycleHistogram, Entries, increment, increment_all}
use cycle_enumeration_gpu.Core.Histogram.Laws.{increment_all-nil, increment_all-one}
use cycle_enumeration_gpu.Core.GraphView.{AdjacencyEntry, GraphView}
use cycle_enumeration_gpu.Core.GraphView.Rows.{IsValid, outgoing_of, row_lem, row_of-All}
use cycle_enumeration_gpu.Core.Timestamp.{is_empty, value_at}
use cycle_enumeration_gpu.Cycles.{at_limit, cycle_length}
use cycle_enumeration_gpu.Cycles.Marks.{get-marks, set-marks, unset-marks, spare, spare-cons}
use cycle_enumeration_gpu.Cycles.Runs.{Adds, for_each-Adds, then_Runs}
use cycle_enumeration_gpu.Sequential.CycleUnion.Search.{IsTimed}
use cycle_enumeration_gpu.Sequential.Closing.{Closing}
use cycle_enumeration_gpu.Sequential.Closing.Walks.{Event, Closes, Remembers}
use cycle_enumeration_gpu.Sequential.Closing.Correct.{can_reach_root_lem}
use cycle_enumeration_gpu.Sequential.Closing.Loops.{range_from_bounds}
use cycle_enumeration_gpu.Sequential.Bruteforce.{leave}
use cycle_enumeration_gpu.Sequential.Bruteforce.Simple.{searching}
use cycle_enumeration_gpu.Sequential.Bruteforce.Temporal.Runs.{
  range_after, range_after_lem, offsets, adds_via, adds_from, each_time-Adds,
}
use cycle_enumeration_gpu.Sequential.TemporalReadTarjan.{Worker, Counters, extend_edge, extend}

flat_map_nothing :
    {A B : Type 0} (f : A → List B) (xs : List A)
    → ((x : A) → x ∈ xs → f x ≡ [])
    → flat_map f xs ≡ []
flat_map_nothing f [] none_ = refl
flat_map_nothing f (x ∷ xs) none_ =
    rw (none_ x (inl refl)) (flat_map_nothing f xs (λ y m. none_ y (inr m)))

module _ (g : GraphView) (limit : Option ℕ) (root : ℕ) (last : ℤ)
    (timed : All (IsTimed g.timestamps) g.outgoing_edges) where
  -- Where no walk leads back, the baseline's search adds nothing.
  nothing_via :
      (fuel : ℕ) (now : ℤ) (path : List ℕ) (v : ℕ) (e : AdjacencyEntry)
      → ((w : ℕ) (time : ℤ) (p : List ℕ)
          → ¬ Closes g root last time w
          → adds_from g limit root last fuel w time p ≡ [])
      → e ∈ outgoing_of g v
      → ¬ Closes g root last now v
      → adds_via g limit root last (adds_from g limit root last fuel) now path e ≡ []
  nothing_via fuel now path v e deeper m shut =
      let r = range_after g.timestamps last now e in
      let fine =
        All-mem _ (outgoing_of g v) e (row_of-All _ g.outgoing_offsets g.outgoing_edges v timed)
          m in
      let selects = (range_after_lem g.timestamps last now e fine).1 in
      let event : (i : ℕ) → r.begin ≤ i → i < r.end → Event g root last now e i = λ i lo hi.
        let (a, b, late, early) = (selects i).0 (lo, hi) in
        record { after_begin = a; before_end = b; late = late; early = early } in
      elim (Bool-cases (is_empty r)) [
        | inl none_ ↦ rw none_ refl
        | inr some_ ↦ elim (Bool-cases (e.vertex == root)) [
          | inl home ↦ absurd (
              shut (
                Closes.arrives e r.begin m (event r.begin (omega arith) (ground (arith, some_)))
                  ((==_iff e.vertex root).0 home)))
          | inr away ↦
              rw (some_, away)
                (elim (Bool-cases (mem e.vertex path || at_limit limit (length path))) [
                  | inl stop ↦ rw stop refl
                  | inr go ↦ rw go (
                      flat_map_nothing _ (offsets r) (λ i mi.
                        let (lo, hi) = range_from_bounds i r.begin (r.end - r.begin) mi in
                        deeper e.vertex (value_at g.timestamps i) (e.vertex ∷ path)
                          (λ walk. shut (Closes.goes e i m (event i lo (omega arith)) walk))))
                ])
        ]
      ]

  pub nothing_from :
      (fuel v : ℕ) (now : ℤ) (path : List ℕ)
      → ¬ Closes g root last now v
      → adds_from g limit root last fuel v now path ≡ []
  unfolding adds_from
  nothing_from zero v now path shut = refl
  nothing_from (suc fuel) v now path shut =
      flat_map_nothing _ (outgoing_of g v)
        (λ e m. nothing_via fuel now path v e (nothing_from fuel) m shut)

module _ {Work : Type 0} (counters : Counters Work) (g : GraphView) (width : ℤ)
    (limit : Option ℕ) where
  -- The state of a search that is at the end of `path`.
  abbrev pub working : List ℕ → CycleHistogram → Closing × Work → Worker Work
  working path h (closing, work) = record {
    search = searching g.vertex_count path h;
    closing_after = closing;
    work = work;
  }

  abbrev pub Remembering : ℕ → ℤ → Closing × Work → Type 0
  Remembering root last c = Remembers g root last c.0

  module _ (root : ℕ) (last : ℤ) where
    -- What the call of `extend` at a new vertex is to do.
    abbrev Explores :
        (ℕ → ℤ → Worker Work → Result (Worker Work)) → (ℕ → ℤ → List ℕ → Entries) → List ℕ → Type 0
    Explores call deeper path =
        (v : ℕ) (time : ℤ) (h : CycleHistogram) (c : Closing × Work)
        → v < g.vertex_count
        → mem v path ≡ false
        → Remembering root last c
        → Adds (working (v ∷ path)) (Remembering root last) (call v time (working (v ∷ path) h c))
            (deeper v time (v ∷ path)) h

    extend_edge-Adds :
        (call : ℕ → ℤ → Worker Work → Result (Worker Work)) (deeper : ℕ → ℤ → List ℕ → Entries)
        (now : ℤ) (path : List ℕ)
        → Explores call deeper path
        → (e : AdjacencyEntry) (h : CycleHistogram) (c : Closing × Work) → IsTimed g.timestamps e
        → e.vertex < g.vertex_count
        → Remembering root last c
        → Adds
            (working path)
            (Remembering root last)
            (extend_edge counters g width limit call root last now e (working path h c))
            (adds_via g limit root last deeper now path e)
            h
    unfolding extend_edge
    extend_edge-Adds call deeper now path calls e h c timed lt k =
        let r = range_after g.timestamps last now e in
        let n = g.vertex_count in
        let found = (range_after_lem g.timestamps last now e timed).0 in
        elim (Bool-cases (is_empty r)) [
          | inl none_ ↦ (c, k, rw (found, none_, increment_all-nil h))
          | inr some_ ↦ elim (Bool-cases (e.vertex == root && leb 2 (length path))) [
            | inl closes ↦ (
              (c.0, counters.extended (r.end - r.begin) c.1),
              k,
              rw (found, some_, closes, increment_all-one (cycle_length path) (r.end - r.begin) h)
                  (then_Runs (increment (cycle_length path) (r.end - r.begin) h)
                    (λ h'. searching n path h')
                    (λ t. ok (record {
                      search = t;
                      closing_after = c.0;
                      work = counters.extended (r.end - r.begin) c.1;
                    }))
                    (λ h'. working path h' (c.0, counters.extended (r.end - r.begin) c.1))
                    (λ h'. refl)),
            )
            | inr open_ ↦ elim (Bool-cases (mem e.vertex path || at_limit limit (length path))) [
              | inl stop ↦ (
                c,
                k,
                rw (found, some_, open_, get-marks n e.vertex path lt, stop, increment_all-nil h),
              )
              | inr go ↦
                  let new : mem e.vertex path ≡ false = ground (arith, go) in
                  let adds = λ (time : ℤ). deeper e.vertex time (e.vertex ∷ path) in
                  let noted : Closing × Work = (c.0, counters.extended (r.end - r.begin) c.1) in
                  let (c', k', loop) =
                    each_time-Adds g limit root last (working (e.vertex ∷ path))
                      (Remembering root last) (call e.vertex) adds e now h noted timed
                      (λ i h' c' inside late early k'.
                        calls e.vertex (value_at g.timestamps i) h' c' lt new k')
                      k in
                  (
                    c',
                    k',
                    rw
                        (
                          found,
                          some_,
                          open_,
                          get-marks n e.vertex path lt,
                          go,
                          set-marks n e.vertex path,
                          loop,
                        )
                        (then_Runs
                          (increment_all
                            (flat_map (λ i. adds (value_at g.timestamps i)) (offsets r)) h)
                          (λ h'. working (e.vertex ∷ path) h' c')
                          (λ (t : Worker Work). ok (record t { search = leave e.vertex t.search }))
                          (λ h'. working path h' c')
                          (λ h'. rw (unset-marks n e.vertex path new) refl)),
                  )
            ]
          ]
        ]

    pub extend-Adds :
        IsValid g
        → All (IsTimed g.timestamps) g.outgoing_edges
        → (fuel v : ℕ) (now : ℤ) (path : List ℕ) (h : CycleHistogram) (c : Closing × Work)
        → v < g.vertex_count
        → spare g.vertex_count path < fuel
        → Remembering root last c
        → Adds
            (working path)
            (Remembering root last)
            (extend counters g width limit fuel root last v now (working path h c))
            (adds_from g limit root last fuel v now path)
            h
    unfolding extend adds_from
    extend-Adds valid timed zero v now path h c lt f k = absurd (omega arith)
    extend-Adds valid timed (suc fuel) v now path h c lt f k =
        let n = g.vertex_count in
        let es = outgoing_of g v in
        let call = extend counters g width limit fuel root last in
        let deeper = adds_from g limit root last fuel in
        let calls : Explores call deeper path = λ w time h' c' ltw new k'.
          extend-Adds valid timed fuel w time (w ∷ path) h' c' ltw
            (omega (arith, spare-cons n w path ltw new)) k' in
        let (b, closing, reach, iff, kept) =
          can_reach_root_lem g root last valid timed v now c.0 lt k in
        elim (Bool-cases b) [
          | inl open_ ↦
              let (c', k', loop) =
                for_each-Adds (working path) (Remembering root last)
                  (extend_edge counters g width limit call root last now)
                  (adds_via g limit root last deeper now path) es h (closing, counters.entered c.1)
                  (All-of_mem _ es (λ e m h' c' k'.
                    extend_edge-Adds call deeper now path calls e h' c'
                      (All-mem _ es e (row_of-All _ g.outgoing_offsets g.outgoing_edges v timed) m)
                      (All-mem _ es e
                        (row_of-All _ g.outgoing_offsets g.outgoing_edges v valid.targets) m)
                      k'))
                  kept in
              (c', k', rw (reach, open_, row_lem valid.outgoing v lt) loop)
          | inr shut ↦
              let none_ : ¬ Closes g root last now v = λ walk. cc (shut, iff.1 walk) in
              let nothing = nothing_from g limit root last timed (suc fuel) v now path none_ in
              (
                (closing, counters.pruned (counters.entered c.1)),
                kept,
                rw (reach, shut, nothing, increment_all-nil h),
              )
        ]
