-- ===== src/Sequential/Bruteforce/Temporal/Runs.antt =====
-- What `count_temporal_cycles` adds to its histogram.
use cycle_enumeration_gpu.Prelude.{
  ℕ, zero, suc, ◌-◌, ◌<◌, ◌≡◌, refl, false, ◌&&◌, ◌||◌, List, [], ◌∷◌, Option, leb, ◌==◌,
  if◌then◌else◌, length, mem, get_elem?-eq-get_or, range_from, All, All-mem, All-of_mem, flat_map,
  arith, inl, inr, Bool-cases, Result, ok, ◌>>=◌, at, for_each,
}
use cycle_enumeration_gpu.Prelude.Int.{ℤ, pos, ◌<ℤ◌, ◌≤ℤ◌}
use cycle_enumeration_gpu.Core.Histogram.{CycleHistogram, Entries, increment_all}
use cycle_enumeration_gpu.Core.Histogram.Laws.{increment_all-nil, increment_all-one}
use cycle_enumeration_gpu.Core.GraphView.{AdjacencyEntry, GraphView}
use cycle_enumeration_gpu.Core.GraphView.Rows.{IsValid, outgoing_of, row_lem, row_of-All}
use cycle_enumeration_gpu.Core.Timestamp.{
  TimestampRange, is_empty, size, value_at, upper_bound, timestamps_after,
}
use cycle_enumeration_gpu.Core.Timestamp.Window.{Selects, upper_bound-Selects}
use cycle_enumeration_gpu.Cycles.{at_limit, cycle_length}
use cycle_enumeration_gpu.Cycles.Marks.{get-marks, set-marks, unset-marks, spare, spare-cons}
use cycle_enumeration_gpu.Cycles.Runs.{Adds, for_each-Adds, then_Runs}
use cycle_enumeration_gpu.Sequential.CycleUnion.Search.{IsTimed}
use cycle_enumeration_gpu.Sequential.Closing.Loops.{range_from_bounds}
use cycle_enumeration_gpu.Sequential.Bruteforce.{Search, leave}
use cycle_enumeration_gpu.Sequential.Bruteforce.Simple.{searching}
use cycle_enumeration_gpu.Sequential.Bruteforce.Temporal.{temporal_edge, temporal_dfs}

-- The offsets that `timestamps_after` finds.
unfoldable pub range_after : List ℤ → ℤ → ℤ → AdjacencyEntry → TimestampRange
unfolding upper_bound
range_after ts last now e =
    let b = upper_bound ts e.timestamp_begin e.timestamp_end now in
    record { begin = b; end = upper_bound ts b e.timestamp_end last }

pub range_after_lem :
    (ts : List ℤ) (last now : ℤ) (e : AdjacencyEntry)
    → IsTimed ts e
    → (timestamps_after ts e.timestamp_begin e.timestamp_end now last
        ≡ ok (range_after ts last now e))
      × Selects ts e.timestamp_begin e.timestamp_end
          (λ t. now <ℤ t)
          last
          (range_after ts last now e)
unfolding range_after timestamps_after
range_after_lem ts last now e (h, l, s) =
    (ground arith, upper_bound-Selects ts e.timestamp_begin e.timestamp_end h s now last)

-- The offsets of a range, in order.
abbrev pub offsets : TimestampRange → List ℕ
offsets r = range_from r.begin (r.end - r.begin)

module _ (g : GraphView) (limit : Option ℕ) (root : ℕ) (last : ℤ) where
  abbrev pub adds_via : (ℕ → ℤ → List ℕ → Entries) → ℤ → List ℕ → AdjacencyEntry → Entries
  adds_via deeper now path e =
      let r = range_after g.timestamps last now e in
      if is_empty r
      then []
      else if e.vertex == root && leb 2 (length path)
      then (cycle_length path, size r) ∷ []
      else if mem e.vertex path || at_limit limit (length path)
      then []
      else flat_map (λ i. deeper e.vertex (value_at g.timestamps i) (e.vertex ∷ path)) (offsets r)

  -- What a search adds that is at the vertex `v` at the time `now`, with `path` behind it.
  unfoldable pub adds_from : ℕ → ℕ → ℤ → List ℕ → Entries
  adds_from zero v now path = []
  adds_from (suc fuel) v now path =
      let deeper = adds_from fuel in flat_map (adds_via deeper now path) (outgoing_of g v)

  -- One round of the loop over the timestamps of an edge, for any state of a search.
  pub each_time-Adds :
      {S C : Type 0} (state : CycleHistogram → C → S) (Keeps : C → Type 0) (call : ℤ → S → Result S)
      (adds : ℤ → Entries) (e : AdjacencyEntry) (now : ℤ) (h : CycleHistogram) (c : C)
      → IsTimed g.timestamps e
      → ((i : ℕ) (h' : CycleHistogram) (c' : C)
          → i < length g.timestamps
          → now <ℤ value_at g.timestamps i
          → value_at g.timestamps i ≤ℤ last
          → Keeps c'
          → Adds state Keeps
              (call (value_at g.timestamps i) (state h' c'))
              (adds (value_at g.timestamps i))
              h')
      → Keeps c
      → let is = offsets (range_after g.timestamps last now e) in
        Adds state Keeps
          (for_each (λ offset t. at g.timestamps offset >>= λ time. call time t) is (state h c))
          (flat_map (λ i. adds (value_at g.timestamps i)) is)
          h
  each_time-Adds state Keeps call adds e now h c timed calls k =
      let r = range_after g.timestamps last now e in
      let selects = (range_after_lem g.timestamps last now e timed).1 in
      for_each-Adds state Keeps (λ offset t. at g.timestamps offset >>= λ time. call time t)
        (λ i. adds (value_at g.timestamps i)) (offsets r) h c
        (All-of_mem _ (offsets r) (λ i m h' c' k'.
          let (lo, hi) = range_from_bounds i r.begin (r.end - r.begin) m in
          let (b, d, late, early) = (selects i).0 (lo, omega arith) in
          let inside : i < length g.timestamps = omega (arith, d, timed.1) in
          rw (get_elem?-eq-get_or g.timestamps i (pos 0) inside)
            (calls i h' c' inside late early k')))
        k

  abbrev Always : Unit {0} → Type 0
  Always c = Unit {0}

  -- What the call of `dfs` at a new vertex is to do.
  abbrev Explores : (ℕ → ℤ → Search → Result Search) → (ℕ → ℤ → List ℕ → Entries) → List ℕ → Type 0
  Explores call deeper path =
      (v : ℕ) (time : ℤ) (h : CycleHistogram)
      → v < g.vertex_count
      → mem v path ≡ false
      → call v time (searching g.vertex_count (v ∷ path) h) ≡ (
          increment_all (deeper v time (v ∷ path)) h >>= λ h'.
          ok (searching g.vertex_count (v ∷ path) h'))

  module _ (width : ℤ) where
    temporal_edge-Runs :
        (call : ℕ → ℤ → Search → Result Search) (deeper : ℕ → ℤ → List ℕ → Entries) (now : ℤ)
        (path : List ℕ)
        → Explores call deeper path
        → (e : AdjacencyEntry) (h : CycleHistogram) → IsTimed g.timestamps e
        → e.vertex < g.vertex_count
        → temporal_edge g width limit call root last now e (searching g.vertex_count path h) ≡ (
            increment_all (adds_via deeper now path e) h >>= λ h'.
            ok (searching g.vertex_count path h'))
    unfolding temporal_edge
    temporal_edge-Runs call deeper now path calls e h timed lt =
        let r = range_after g.timestamps last now e in
        let n = g.vertex_count in
        let found = (range_after_lem g.timestamps last now e timed).0 in
        rw found (elim (Bool-cases (is_empty r)) [
          | inl none_ ↦ rw (none_, increment_all-nil h)
          | inr some_ ↦ rw some_ (elim (Bool-cases (e.vertex == root && leb 2 (length path))) [
            | inl closes ↦ rw (closes, increment_all-one (cycle_length path) (r.end - r.begin) h)
            | inr open_ ↦
                rw (open_, get-marks n e.vertex path lt)
                  (elim (Bool-cases (mem e.vertex path || at_limit limit (length path))) [
                    | inl stop ↦ rw (stop, increment_all-nil h)
                    | inr go ↦
                        let new : mem e.vertex path ≡ false = ground (arith, go) in
                        let adds = λ (time : ℤ). deeper e.vertex time (e.vertex ∷ path) in
                        let (_, _, loop) =
                          each_time-Adds (λ h' (c : Unit {0}). searching n (e.vertex ∷ path) h')
                            Always (call e.vertex) adds e now h tt timed
                            (λ i h' c' inside late early k.
                              (tt, tt, calls e.vertex (value_at g.timestamps i) h' lt new))
                            tt in
                        rw (go, set-marks n e.vertex path, loop)
                          (then_Runs
                            (increment_all
                              (flat_map (λ i. adds (value_at g.timestamps i)) (offsets r)) h)
                            (λ h'. searching n (e.vertex ∷ path) h') (λ t. ok (leave e.vertex t))
                            (λ h'. searching n path h')
                            (λ h'. rw (unset-marks n e.vertex path new) refl))
                  ])
          ])
        ])

    pub temporal_dfs-Runs :
        IsValid g
        → All (IsTimed g.timestamps) g.outgoing_edges
        → (fuel v : ℕ) (now : ℤ) (path : List ℕ) (h : CycleHistogram) → v < g.vertex_count
        → spare g.vertex_count path < fuel
        → temporal_dfs g width limit fuel root last v now (searching g.vertex_count path h) ≡ (
            increment_all (adds_from fuel v now path) h >>= λ h'.
            ok (searching g.vertex_count path h'))
    unfolding temporal_dfs adds_from
    temporal_dfs-Runs valid timed zero v now path h lt f = absurd (omega arith)
    temporal_dfs-Runs valid timed (suc fuel) v now path h lt f =
        let n = g.vertex_count in
        let call = temporal_dfs g width limit fuel root last in
        let calls : Explores call (adds_from fuel) path = λ w time h' ltw new.
          temporal_dfs-Runs valid timed fuel w time (w ∷ path) h' ltw
            (omega (arith, spare-cons n w path ltw new)) in
        let (_, _, loop) =
          for_each-Adds (λ h' (c : Unit {0}). searching n path h') Always
            (temporal_edge g width limit call root last now) (adds_via (adds_from fuel) now path)
            (outgoing_of g v) h tt
            (All-of_mem _ (outgoing_of g v) (λ e m h' c' k. (
              tt,
              tt,
              temporal_edge-Runs call (adds_from fuel) now path calls e h'
                  (All-mem _ (outgoing_of g v) e
                    (row_of-All _ g.outgoing_offsets g.outgoing_edges v timed) m)
                  (All-mem _ (outgoing_of g v) e
                    (row_of-All _ g.outgoing_offsets g.outgoing_edges v valid.targets) m),
            )))
            tt in
        rw (row_lem valid.outgoing v lt) loop
