-- ===== src/Sequential/TemporalJohnson/Agree.antt =====
-- The temporal Johnson search against the baseline.
use cycle_enumeration_gpu.Prelude.{
  ℕ, suc, ◌+◌, ◌-◌, ◌*◌, ◌<◌, ◌≡◌, refl, ap, ◌∙◌, ◌^◌, ◌⊎◌, List, [], ◌∷◌, Option, none, replicate,
  range, range_from, All, All-range, All-mem, All-of_mem, flat_map, arith, inl, inr, ok, err,
  for_each, overflow_error,
}
use cycle_enumeration_gpu.Prelude.Int.{ℤ, pos, ◌+ℤ◌, ◌≤ℤ◌}
use cycle_enumeration_gpu.Core.Histogram.{CycleHistogram, no_cycles, increment_all}
use cycle_enumeration_gpu.Core.Histogram.Laws
use cycle_enumeration_gpu.Core.Histogram.Laws.{
  weight, weight-append, count-increment_all, increment_all-IsValid, count-no_cycles, eq_of_counts,
}
use cycle_enumeration_gpu.Core.GraphView.{AdjacencyEntry, GraphView}
use cycle_enumeration_gpu.Core.GraphView.Rows.{IsValid, outgoing_of, row_lem, row_of-All}
use cycle_enumeration_gpu.Core.Timestamp.{max_timestamp, checked_window_end}
use cycle_enumeration_gpu.Core.Timestamp.Window.{checked_window_end_returns}
use cycle_enumeration_gpu.Cycles.Marks.{
  marks, set-marks, replicate-marks, spare-cons, spare-nil, spare_le,
}
use cycle_enumeration_gpu.Sequential.Bruteforce.TimeWindow.{validate_window_width}
use cycle_enumeration_gpu.Sequential.Bruteforce.Temporal.{count_temporal_cycles}
use cycle_enumeration_gpu.Sequential.Bruteforce.Temporal.Runs.{adds_from}
use cycle_enumeration_gpu.Sequential.Bruteforce.Temporal.Adds.{
  start_adds, edge_adds, root_adds, baseline_adds,
}
use cycle_enumeration_gpu.Sequential.CycleUnion.Search.{IsTimed}
use cycle_enumeration_gpu.Sequential.CycleUnion.Correct.{AllTimed}
use cycle_enumeration_gpu.Sequential.TemporalReadTarjan.Agree.{
  Left, between, unsearched, open-Remembers, zero_window,
}
use cycle_enumeration_gpu.Sequential.TemporalJohnson.{
  TimestampCount, TemporalJohnsonStats, JohnsonWorker, no_stats, start_johnson, start_counts,
  start_edge, johnson_root, new_johnson, count_johnson_with_stats, count_temporal_cycles_johnson,
}
use cycle_enumeration_gpu.Sequential.TemporalJohnson.Bundles.{Fits, bind-Fits, map-Fits}
use cycle_enumeration_gpu.Sequential.TemporalJohnson.Arrivals.{Worth, worth_at, start_counts-Fits}
use cycle_enumeration_gpu.Sequential.TemporalJohnson.Runs.{Back, weight-flat_map_at}
use cycle_enumeration_gpu.Sequential.TemporalJohnson.Search.{dfs-Fits}
use cycle_enumeration_gpu.Sequential.TemporalJohnson.Totals.{
  weight-flat_map_sum, value_sum, Grown, grow-Fits, window_end-Fits,
}

module _ (g : GraphView) (width : ℤ) (limit : Option ℕ) (small : suc g.vertex_count < 2 ^ 32)
    (valid : IsValid g) (timed : All (IsTimed g.timestamps) g.outgoing_edges)
    (positive : pos 0 ≤ℤ width) where
  -- What the baseline's search from a start event at a time adds.
  abbrev started : ℕ → ℕ → ℕ → ℤ → ℕ
  started root first j t =
      weight j (adds_from g limit root (t +ℤ width) g.vertex_count first t (first ∷ root ∷ []))

  start_johnson-Fits :
      (root first : ℕ) (start : TimestampCount) (h : CycleHistogram) (c : Left TemporalJohnsonStats)
      → root < g.vertex_count
      → first < g.vertex_count
      → Laws.IsValid h
      → Fits
          (Grown h (λ j. start.count * started root first j start.timestamp))
          (start_johnson g width limit root first start (between h c))
  unfolding start_johnson
  start_johnson-Fits root first start h c lt ltf kept =
      let n = g.vertex_count in
      let path = first ∷ root ∷ [] in
      let time = start.timestamp in
      let room = spare-cons n root [] lt refl in
      bind-Fits (λ last. last ≡ time +ℤ width) _ (checked_window_end time width) _
        (window_end-Fits time width positive)
        (λ last same.
          rw (replicate-marks n, set-marks n root [], set-marks n first (root ∷ []), same)
            (bind-Fits
              (Back g root (time +ℤ width) path h
                (λ j. start.count * started root first j time + 0))
              _ _ _
              (dfs-Fits g width limit root (time +ℤ width) small valid timed n first (start ∷ [])
                path h (replicate n none) c.work ltf
                (omega (arith, spare_le n first (root ∷ []), room, spare-nil n))
                (omega (arith, spare_le n first (root ∷ []), room, spare-nil n)) (tt, tt) kept
                (open-Remembers g root (time +ℤ width)))
              (λ r back. inr (
                r.1,
                refl,
                record {
                  histogram = back.histogram;
                  left = record {
                    flags = marks n path;
                    path = path;
                    closing = back.closing;
                    work = back.work;
                  };
                  state = back.state;
                  kept = back.kept;
                  counts = λ j. omega (arith, back.counts j);
                },
              ))))

  start_edge-Fits :
      (root : ℕ) (e : AdjacencyEntry) (h : CycleHistogram) (c : Left TemporalJohnsonStats)
      → root < g.vertex_count
      → IsTimed g.timestamps e
      → e.vertex < g.vertex_count
      → Laws.IsValid h
      → Fits
          (Grown h (λ j. weight j (edge_adds g width limit root e)))
          (start_edge g width limit root e (between h c))
  unfolding start_edge edge_adds start_adds
  start_edge-Fits root e h c lt fine ltf kept =
      let is = range_from e.timestamp_begin (e.timestamp_end - e.timestamp_begin) in
      let adds = λ (t : ℤ).
        adds_from g limit root (t +ℤ width) g.vertex_count e.vertex t (e.vertex ∷ root ∷ []) in
      bind-Fits (Worth (λ worth. worth_at g.timestamps worth is)) _ (start_counts g e) _
        (start_counts-Fits g e fine)
        (λ b worthy.
          map-Fits _ _ _
            (λ s f. record {
              histogram = f.histogram;
              left = f.left;
              state = f.state;
              kept = f.kept;
              counts = λ j. omega (
                arith,
                f.counts j,
                worthy.sums (started root e.vertex j),
                value_sum (started root e.vertex j) b,
                weight-flat_map_at j g.timestamps adds is,
              );
            })
            (grow-Fits (start_johnson g width limit root e.vertex) (λ a. Unit {0})
              (λ a j. a.count * started root e.vertex j a.timestamp)
              (λ a h' c' u kept'. start_johnson-Fits root e.vertex a h' c' lt ltf kept') b h c
              (All-of_mem _ b (λ a m. tt)) kept))

  johnson_root-Fits :
      (root : ℕ) (h : CycleHistogram) (c : Left TemporalJohnsonStats)
      → root < g.vertex_count
      → Laws.IsValid h
      → Fits
          (Grown h (λ j. weight j (root_adds g width limit root)))
          (johnson_root g width limit root (between h c))
  unfolding johnson_root root_adds
  johnson_root-Fits root h c lt kept =
      let es = outgoing_of g root in
      rw (row_lem valid.outgoing root lt) (
        map-Fits _ _ _
          (λ s f. record {
            histogram = f.histogram;
            left = f.left;
            state = f.state;
            kept = f.kept;
            counts = λ j.
                omega (arith, f.counts j, weight-flat_map_sum j (edge_adds g width limit root) es);
          })
          (grow-Fits (start_edge g width limit root)
            (λ e. IsTimed g.timestamps e × (e.vertex < g.vertex_count))
            (λ e j. weight j (edge_adds g width limit root e))
            (λ e h' c' fine kept'. start_edge-Fits root e h' c' lt fine.0 fine.1 kept') es h c
            (All-of_mem _ es (λ e m. (
              All-mem _ es e (row_of-All _ g.outgoing_offsets g.outgoing_edges root timed) m,
              All-mem _ es e (row_of-All _ g.outgoing_offsets g.outgoing_edges root valid.targets)
                  m,
            )))
            kept))

  pub johnson_roots-Fits :
      (roots : List ℕ) (c : Left TemporalJohnsonStats) (h : CycleHistogram)
      → All (λ v. v < g.vertex_count) roots
      → increment_all (flat_map (root_adds g width limit) roots) no_cycles ≡ ok h
      → Fits
          (λ (s : JohnsonWorker). s.search.histogram ≡ h)
          (for_each (johnson_root g width limit) roots (between no_cycles c))
  johnson_roots-Fits roots c h low all =
      let adds = flat_map (root_adds g width limit) roots in
      map-Fits _ _ _
        (λ s f.
          ap (λ (w : JohnsonWorker). w.search.histogram) f.state
          ∙ eq_of_counts f.histogram h f.kept (increment_all-IsValid adds no_cycles h tt all) (λ j.
            omega (
              arith,
              f.counts j,
              count-increment_all adds no_cycles h j all,
              weight-flat_map_sum j (root_adds g width limit) roots,
            )))
        (grow-Fits (johnson_root g width limit) (λ v. v < g.vertex_count)
          (λ root j. weight j (root_adds g width limit root))
          (λ root h' c' lt kept. johnson_root-Fits root h' c' lt kept) roots no_cycles c low tt)

accepts_width : (width : ℤ) → validate_window_width width ≡ ok tt → pos 0 ≤ℤ width
accepts_width width e = ground (arith, e)

-- Where the baseline returns a histogram on a valid view of fewer than 2^32 - 1 vertices with sorted
-- timestamps, for a width of 64 bits, the temporal Johnson search returns the same histogram, or
-- fails with an overflow error.
pub count_temporal_cycles_johnson_agrees :
    (g : GraphView) (width : ℤ) (limit : Option ℕ) (h : CycleHistogram)
    → IsValid g
    → AllTimed g
    → width ≤ℤ max_timestamp
    → suc g.vertex_count < 4294967296
    → count_temporal_cycles g width limit ≡ ok h
    → (count_temporal_cycles_johnson g width limit ≡ ok h)
      ⊎ (count_temporal_cycles_johnson g width limit ≡ err overflow_error)
unfolding count_temporal_cycles_johnson count_johnson_with_stats new_johnson
count_temporal_cycles_johnson_agrees g width limit h valid timed fits small e =
    let (accepted, wide, _, total) = baseline_adds g width limit valid timed.0 h e in
    let positive = accepts_width width wide in
    let checked = checked_window_end_returns (pos 0) width (zero_window width positive fits) in
    rw (accepted, checked)
      (elim (johnson_roots-Fits g width limit small valid timed.0 positive (range g.vertex_count)
        (unsearched g no_stats) h (All-range g.vertex_count) total) [
          | inl over ↦ inr (rw over refl)
          | inr (s, run, same) ↦ inl (rw run (ap ok same))
        ])
