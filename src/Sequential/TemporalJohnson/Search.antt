-- ===== src/Sequential/TemporalJohnson/Search.antt =====
-- The temporal Johnson search from a vertex, and from a start event.
use cycle_enumeration_gpu.Prelude.{
  All-mem, All-of_mem, zero, ℕ, suc, ◌+◌, ◌≤◌, ◌<◌, ◌≡◌, refl, ap, ◌∙◌, ◌^◌, Bool, false, ◌&&◌,
  List, [], ◌∷◌, Option, leb, ◌==◌, length, All, flat_map, arith, inl, inr, Bool-cases, Result,
  for_each,
}
use cycle_enumeration_gpu.Prelude.Int.{ℤ, ◌<ℤ◌}
use cycle_enumeration_gpu.Core.Histogram.{CycleHistogram, Entries, count}
use cycle_enumeration_gpu.Core.Histogram.Laws
use cycle_enumeration_gpu.Core.Histogram.Laws.{
  weight, weight-append, count-increment, increment-IsValid,
}
use cycle_enumeration_gpu.Core.GraphView.{AdjacencyEntry, GraphView}
use cycle_enumeration_gpu.Core.GraphView.Rows.{row_of-All, row_lem, outgoing_of, IsValid}
use cycle_enumeration_gpu.Sequential.CycleUnion.Search.{IsTimed}
use cycle_enumeration_gpu.Sequential.Closing.{Closing}
use cycle_enumeration_gpu.Sequential.Closing.Walks.{Closes, Closes-sooner, Remembers}
use cycle_enumeration_gpu.Sequential.Bruteforce.Temporal.Runs.{adds_via, adds_from}
use cycle_enumeration_gpu.Sequential.TemporalReadTarjan.Runs.{nothing_from}
use cycle_enumeration_gpu.Sequential.TemporalJohnson.{
  note_prune, enter_state, johnson_dfs, TimestampCount, TimestampBundle, TemporalJohnsonStats,
  JohnsonWorker, johnson_edge,
}
use cycle_enumeration_gpu.Sequential.TemporalJohnson.Bundles.{
  Ordered, Fits, map-Fits, for_each-Fits, value,
}
use cycle_enumeration_gpu.Sequential.TemporalJohnson.Runs.{
  value_zero, stay, value_plus, value_same, value_if, johnson_at, Back, Explores, via,
}
use cycle_enumeration_gpu.Sequential.TemporalJohnson.Edges.{close_edge-Fits, open_edge-Fits}
use cycle_enumeration_gpu.Cycles.Marks.{spare, spare-cons}
use cycle_enumeration_gpu.Sequential.Closing.Correct.{can_reach_root_lem}

module _ (g : GraphView) (width : ℤ) (limit : Option ℕ) (root : ℕ) (last : ℤ)
    (small : suc g.vertex_count < 2 ^ 32) (valid : IsValid g)
    (timed : All (IsTimed g.timestamps) g.outgoing_edges) where
  -- What the baseline's search adds over some edges.
  abbrev over : (ℕ → ℤ → List ℕ → Entries) → List ℕ → List AdjacencyEntry → ℕ → ℤ → ℕ
  over deeper path es j t = weight j (flat_map (adds_via g limit root last deeper t path) es)

  value-over :
      (deeper : ℕ → ℤ → List ℕ → Entries) (path : List ℕ) (e : AdjacencyEntry)
      (es : List AdjacencyEntry) (j : ℕ) (arrivals : TimestampBundle)
      → value (over deeper path (e ∷ es) j) arrivals
        ≡ value (via g width limit root last small deeper path e j) arrivals
          + value (over deeper path es j) arrivals
  value-over deeper path e es j arrivals =
      value_same (over deeper path (e ∷ es) j)
        (λ t. via g width limit root last small deeper path e j t + over deeper path es j t)
        arrivals
        (λ t.
          weight-append j (adds_via g limit root last deeper t path e)
            (flat_map (adds_via g limit root last deeper t path) es))
      ∙ value_plus (via g width limit root last small deeper path e j) (over deeper path es j)
          arrivals

  -- Amid the loop over the edges: what was added, and what the other edges will add.
  record Amid (deeper : ℕ → ℤ → List ℕ → Entries) (path : List ℕ) (arrivals : TimestampBundle)
      (total : ℕ → ℕ) (es : List AdjacencyEntry) (r : Bool × JohnsonWorker) : Type 0 where
    histogram : CycleHistogram
    closing : Closing
    work : TemporalJohnsonStats
    found : Bool
    state : r ≡ (found, johnson_at g path histogram closing work)
    kept : Laws.IsValid histogram
    remembers : Remembers g root last closing
    counts : (j : ℕ) → count histogram j + value (over deeper path es j) arrivals ≡ total j
    fine : All (λ e. IsTimed g.timestamps e × (e.vertex < g.vertex_count)) es

  edge-Fits :
      (call : ℕ → TimestampBundle → JohnsonWorker → Result (Bool × JohnsonWorker))
      (deeper : ℕ → ℤ → List ℕ → Entries) (path : List ℕ) (arrivals : TimestampBundle)
      → Explores g width limit root last small call deeper path
      → length path ≤ suc g.vertex_count
      → (e : AdjacencyEntry) (h : CycleHistogram) (closing : Closing) (work : TemporalJohnsonStats)
        (found : Bool)
      → IsTimed g.timestamps e
      → e.vertex < g.vertex_count
      → Laws.IsValid h
      → Remembers g root last closing
      → Fits
          (Back g root last path h
            (λ j. value (via g width limit root last small deeper path e j) arrivals))
          (johnson_edge g width limit call root last arrivals e
            (found, johnson_at g path h closing work))
  edge-Fits call deeper path arrivals calls short e h closing work found fine lt kept k =
      elim (Bool-cases (e.vertex == root && leb 2 (length path))) [
        | inl closes ↦
            close_edge-Fits g width limit root last small call deeper path arrivals e h closing work
              found fine short closes kept k
        | inr open_ ↦
            open_edge-Fits g width limit root last small call deeper path arrivals calls e h closing
              work found fine lt open_ kept k
      ]

  loop-Fits :
      (call : ℕ → TimestampBundle → JohnsonWorker → Result (Bool × JohnsonWorker))
      (deeper : ℕ → ℤ → List ℕ → Entries) (path : List ℕ) (arrivals : TimestampBundle)
      → Explores g width limit root last small call deeper path
      → length path ≤ suc g.vertex_count
      → (es : List AdjacencyEntry) (h : CycleHistogram) (closing : Closing)
        (work : TemporalJohnsonStats)
      → All (λ e. IsTimed g.timestamps e × (e.vertex < g.vertex_count)) es
      → Laws.IsValid h
      → Remembers g root last closing
      → Fits (Back g root last path h (λ j. value (over deeper path es j) arrivals)) (
          for_each
            (johnson_edge g width limit call root last arrivals)
            es
            (false, johnson_at g path h closing work))
  loop-Fits call deeper path arrivals calls short es h closing work fine kept k =
      let total = λ (j : ℕ). count h j + value (over deeper path es j) arrivals in
      map-Fits (Amid deeper path arrivals total []) _ _
        (λ r f. record {
          histogram = f.histogram;
          closing = f.closing;
          work = f.work;
          state = ap (λ (p : Bool × JohnsonWorker). p.1) f.state;
          kept = f.kept;
          remembers = f.remembers;
          counts = λ j.
              omega
                (arith, f.counts j, value_if g width limit root last small false (λ t. 0) arrivals);
        })
        (for_each-Fits (johnson_edge g width limit call root last arrivals)
          (Amid deeper path arrivals total)
          (λ e es' r f. rw f.state (
            map-Fits _ (Amid deeper path arrivals total es') _
              (λ r' back. record {
                histogram = back.histogram;
                closing = back.closing;
                work = back.work;
                found = r'.0;
                state = ap (λ (w : JohnsonWorker). (r'.0, w)) back.state;
                kept = back.kept;
                remembers = back.remembers;
                counts = λ j.
                    omega
                      (arith, f.counts j, back.counts j, value-over deeper path e es' j arrivals);
                fine = f.fine.1;
              })
              (edge-Fits call deeper path arrivals calls short e f.histogram f.closing f.work
                f.found f.fine.0.0 f.fine.0.1 f.kept f.remembers)))
          es (false, johnson_at g path h closing work)
          (record {
            histogram = h;
            closing = closing;
            work = work;
            found = false;
            state = refl;
            kept = kept;
            remembers = k;
            counts = λ j. refl;
            fine = fine;
          }))

  -- Where the earliest arrival cannot return, no arrival can.
  nothing_arrives :
      (fuel v : ℕ) (path : List ℕ) (j : ℕ) (first : TimestampCount) (arrivals : TimestampBundle)
      → ¬ Closes g root last first.timestamp v
      → All (λ (a : TimestampCount). first.timestamp <ℤ a.timestamp) arrivals
      → All
          (λ (a : TimestampCount).
            weight j (adds_from g limit root last fuel v a.timestamp path) ≡ 0)
          arrivals
  nothing_arrives fuel v path j first [] shut later = tt
  nothing_arrives fuel v path j first (a ∷ arrivals) shut later =
      let shut' : ¬ Closes g root last a.timestamp v = λ walk.
        shut
          (Closes-sooner g root last first.timestamp a.timestamp v (omega (arith, later.0)) walk) in
      (
        ap (weight j) (nothing_from g limit root last timed fuel v a.timestamp path shut'),
        nothing_arrives fuel v path j first arrivals shut later.1,
      )

  pub dfs-Fits :
      (fuel v : ℕ) (arrivals : TimestampBundle) (path : List ℕ) (h : CycleHistogram)
      (closing : Closing) (work : TemporalJohnsonStats)
      → v < g.vertex_count
      → spare g.vertex_count path < fuel
      → spare g.vertex_count path + length path ≤ suc g.vertex_count
      → Ordered arrivals
      → Laws.IsValid h
      → Remembers g root last closing
      → Fits
          (Back g root last path h
            (λ j. value (λ t. weight j (adds_from g limit root last fuel v t path)) arrivals))
          (johnson_dfs g width limit fuel root last v arrivals (johnson_at g path h closing work))
  unfolding johnson_dfs adds_from
  dfs-Fits zero v arrivals path h closing work lt f short o kept k = absurd (omega arith)
  dfs-Fits (suc fuel) v [] path h closing work lt f short o kept k = inr (
    (false, enter_state [] (johnson_at g path h closing work)),
    refl,
    stay g width limit root last small path h closing
        (enter_state [] (johnson_at g path h closing work)).work false _ kept k (λ j. refl),
  )
  dfs-Fits (suc fuel) v (first ∷ rest) path h closing work lt f short o kept k =
      let n = g.vertex_count in
      let arrivals = first ∷ rest in
      let call = johnson_dfs g width limit fuel root last in
      let deeper = adds_from g limit root last fuel in
      let entered = enter_state arrivals (johnson_at g path h closing work) in
      let calls : Explores g width limit root last small call deeper path =
        λ w arrivals' h' closing' work' ltw new o' kept' k'.
          let step = spare-cons n w path ltw new in
          dfs-Fits fuel w arrivals' (w ∷ path) h' closing' work' ltw (omega (arith, step))
            (omega (arith, step)) o' kept' k' in
      let (b, closing', reach, iff, k') =
        can_reach_root_lem g root last valid timed v first.timestamp closing lt k in
      elim (Bool-cases b) [
        | inl open_ ↦
            rw (reach, open_, row_lem valid.outgoing v lt)
              (loop-Fits call deeper path arrivals calls (omega (arith, short)) (outgoing_of g v) h
                closing' entered.work
                (All-of_mem _ (outgoing_of g v) (λ e m. (
                  All-mem _ (outgoing_of g v) e
                      (row_of-All _ g.outgoing_offsets g.outgoing_edges v timed) m,
                  All-mem _ (outgoing_of g v) e
                      (row_of-All _ g.outgoing_offsets g.outgoing_edges v valid.targets) m,
                )))
                kept k')
        | inr shut ↦
            let none_ : ¬ Closes g root last first.timestamp v = λ walk. cc (shut, iff.1 walk) in
            let pruned = note_prune (record entered { closing_after = closing' }) in
            rw (reach, shut)
              (inr (
                (false, pruned),
                refl,
                stay g width limit root last small path h closing' pruned.work false _ kept k' (λ j.
                    value_zero _ arrivals (
                      ap (weight j) (
                          nothing_from g limit root last timed (suc fuel) v first.timestamp path
                            none_),
                      nothing_arrives (suc fuel) v path j first rest none_ o.0,
                    )),
              ))
      ]
