-- ===== src/Sequential/TemporalJohnson/Edges.antt =====
-- One edge of the temporal Johnson search: it closes cycles, or is extended into a search.
use cycle_enumeration_gpu.Prelude.{
  ℕ, suc, ◌+◌, ◌≤◌, ◌<◌, ◌≡◌, refl, sym, ap, ◌∙◌, ◌^◌, Bool, false, true, ◌&&◌, ◌||◌, List, [], ◌∷◌,
  Option, leb, ◌==◌, if◌then◌else◌, length, mem, arith, inl, inr, Bool-cases, Result,
}
use native.Mathlib.Nat.{mod-eq_of_lt}
use cycle_enumeration_gpu.Prelude.Int.{ℤ}
use cycle_enumeration_gpu.Core.Histogram.{CycleHistogram, Entries, count, increment}
use cycle_enumeration_gpu.Core.Histogram.Laws
use cycle_enumeration_gpu.Core.Histogram.Laws.{
  weight, weight-append, count-increment, increment-IsValid,
}
use cycle_enumeration_gpu.Core.GraphView.{AdjacencyEntry, GraphView}
use cycle_enumeration_gpu.Core.Timestamp.{size}
use cycle_enumeration_gpu.Cycles.{at_limit, cycle_length}
use cycle_enumeration_gpu.Cycles.Marks.{get-marks, set-marks, unset-marks}
use cycle_enumeration_gpu.Sequential.CycleUnion.Search.{IsTimed}
use cycle_enumeration_gpu.Sequential.Closing.{Closing}
use cycle_enumeration_gpu.Sequential.Closing.Walks.{Remembers}
use cycle_enumeration_gpu.Sequential.Bruteforce.Temporal.Runs.{range_after}
use cycle_enumeration_gpu.Sequential.TemporalJohnson.{
  TimestampBundle, TemporalJohnsonStats, JohnsonWorker, johnson_edge, closing_count, extend_bundle,
}
use cycle_enumeration_gpu.Sequential.TemporalJohnson.Bundles.{Fits, bind-Fits, value}
use cycle_enumeration_gpu.Sequential.TemporalJohnson.Arrivals.{
  Worth, worth_at, after, extend_bundle-Fits, closing_count-Fits,
}
use cycle_enumeration_gpu.Sequential.TemporalJohnson.Runs.{
  Incremented, increment-Fits, value_same, value_if, johnson_at, Back, Explores, via, stay,
  via_closing, via_skipped, via_extended,
}

module _ (g : GraphView) (width : ℤ) (limit : Option ℕ) (root : ℕ) (last : ℤ)
    (small : suc g.vertex_count < 2 ^ 32) where
  pub close_edge-Fits :
      (call : ℕ → TimestampBundle → JohnsonWorker → Result (Bool × JohnsonWorker))
      (deeper : ℕ → ℤ → List ℕ → Entries) (path : List ℕ) (arrivals : TimestampBundle)
      (e : AdjacencyEntry) (h : CycleHistogram) (closing : Closing) (work : TemporalJohnsonStats)
      (found : Bool)
      → IsTimed g.timestamps e
      → length path ≤ suc g.vertex_count
      → (e.vertex == root && leb 2 (length path)) ≡ true
      → Laws.IsValid h
      → Remembers g root last closing
      → Fits
          (Back g root last path h
            (λ j. value (via g width limit root last small deeper path e j) arrivals))
          (johnson_edge g width limit call root last arrivals e
            (found, johnson_at g path h closing work))
  unfolding johnson_edge
  close_edge-Fits call deeper path arrivals e h closing work found fine short closes valid k =
      let events = λ (t : ℤ). size (range_after g.timestamps last t e) in
      let len : cycle_length path ≡ length path = mod-eq_of_lt (omega (arith, short, small)) in
      let long : 2 ≤ cycle_length path = ground (arith, closes, len) in
      let worth : (j : ℕ)
          → value (via g width limit root last small deeper path e j) arrivals
            ≡ (if j == cycle_length path then value events arrivals else 0) =
        λ j.
          value_same (via g width limit root last small deeper path e j)
            (λ t. if j == cycle_length path then events t else 0) arrivals
            (via_closing g width limit root last small deeper path e closes j)
          ∙ value_if g width limit root last small (j == cycle_length path) events arrivals in
      rw closes (
        bind-Fits (λ n. n ≡ value events arrivals) _ (closing_count g last arrivals e) _
          (closing_count-Fits g last e fine arrivals)
          (λ n total. elim (Bool-cases (n == 0)) [
            | inl none_ ↦ rw none_ (
                inr (
                  (found, johnson_at g path h closing work),
                  refl,
                  stay g width limit root last small path h closing work found _ valid k
                      (λ j. ground (arith, worth j, total, none_)),
                ))
            | inr some_ ↦ rw some_ (
                bind-Fits (Incremented (cycle_length path) n h) _
                  (increment (cycle_length path) n h) _
                  (increment-Fits (cycle_length path) n h valid long)
                  (λ h' done. inr (
                    (true, johnson_at g path h' closing work),
                    refl,
                    record {
                      histogram = h';
                      closing = closing;
                      work = work;
                      state = refl;
                      kept = done.kept;
                      remembers = k;
                      counts = λ j.
                          done.counts j
                          ∙ ap (λ m. count h j + m)
                              (ap (λ m. if j == cycle_length path then m else 0) total
                                ∙ sym (worth j));
                    },
                  )))
          ]))

  pub open_edge-Fits :
      (call : ℕ → TimestampBundle → JohnsonWorker → Result (Bool × JohnsonWorker))
      (deeper : ℕ → ℤ → List ℕ → Entries) (path : List ℕ) (arrivals : TimestampBundle)
      → Explores g width limit root last small call deeper path
      → (e : AdjacencyEntry) (h : CycleHistogram) (closing : Closing) (work : TemporalJohnsonStats)
        (found : Bool)
      → IsTimed g.timestamps e
      → e.vertex < g.vertex_count
      → (e.vertex == root && leb 2 (length path)) ≡ false
      → Laws.IsValid h
      → Remembers g root last closing
      → Fits
          (Back g root last path h
            (λ j. value (via g width limit root last small deeper path e j) arrivals))
          (johnson_edge g width limit call root last arrivals e
            (found, johnson_at g path h closing work))
  unfolding johnson_edge
  open_edge-Fits call deeper path arrivals calls e h closing work found fine lt open_ valid k =
      let n = g.vertex_count in
      elim (Bool-cases (mem e.vertex path || at_limit limit (length path))) [
        | inl stop ↦
            rw (open_, get-marks n e.vertex path lt, stop)
              (inr (
                (found, johnson_at g path h closing work),
                refl,
                stay g width limit root last small path h closing work found _ valid k (λ j.
                    value_same (via g width limit root last small deeper path e j) (λ t. 0) arrivals
                      (via_skipped g width limit root last small deeper path e open_ stop j)
                    ∙ value_if g width limit root last small false (λ t. 0) arrivals),
              ))
        | inr go ↦
            let new : mem e.vertex path ≡ false = ground (arith, go) in
            let worth = λ (j : ℕ) (t : ℤ). weight j (deeper e.vertex t (e.vertex ∷ path)) in
            let total = λ (w : ℤ → ℕ).
              value (λ now. worth_at g.timestamps w (after g last e fine now)) arrivals in
            let same : (j : ℕ)
                → value (via g width limit root last small deeper path e j) arrivals
                  ≡ total (worth j) =
              λ j.
                value_same (via g width limit root last small deeper path e j)
                  (λ now. worth_at g.timestamps (worth j) (after g last e fine now)) arrivals
                  (via_extended g width limit root last small deeper path e open_ go j) in
            rw (open_, get-marks n e.vertex path lt, go)
              (bind-Fits (Worth total) _ (extend_bundle g last arrivals e) _
                (extend_bundle-Fits g last e fine arrivals)
                (elim [
                  | [] ↦ λ b. inr (
                    (found, johnson_at g path h closing work),
                    refl,
                    stay g width limit root last small path h closing work found _ valid k
                        (λ j. same j ∙ sym (b.sums (worth j))),
                  )
                  | first ∷ rest ↦ λ b. rw (set-marks n e.vertex path) (
                      bind-Fits
                        (Back g root last (e.vertex ∷ path) h (λ j. value (worth j) (first ∷ rest)))
                        _
                        (call e.vertex (first ∷ rest)
                          (johnson_at g (e.vertex ∷ path) h closing work))
                        _ (calls e.vertex (first ∷ rest) h closing work lt new b.ordered valid k)
                        (λ r back. inr (
                          (r.0 || found, johnson_at g path back.histogram back.closing back.work),
                          rw (back.state, unset-marks n e.vertex path new) refl,
                          record {
                            histogram = back.histogram;
                            closing = back.closing;
                            work = back.work;
                            state = refl;
                            kept = back.kept;
                            remembers = back.remembers;
                            counts = λ j. omega (arith, back.counts j, same j, b.sums (worth j));
                          },
                        )))
                ]))
      ]
