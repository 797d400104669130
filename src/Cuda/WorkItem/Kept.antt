-- ===== src/Cuda/WorkItem/Kept.antt =====
-- Which start events the prefilter keeps.
use cycle_enumeration_gpu.Prelude.{
  ℕ, suc, ◌+◌, ◌<◌, ◌≡◌, refl, sym, subst, true, false, List, [], ◌∷◌, ◌++◌, ◌==◌, length,
  length-append, inl, inr, Bool-cases, arith, ◌∈◌, ◌↔◌, mem-append_left, mem-append_right,
  append_cases, All, All-of_mem, All-mem, ok, for_each,
}
use mathlib.Core.Logic.{◌⊎◌}
use cycle_enumeration_gpu.Prelude.Int.{ℤ, pos, ltb_ℤ, ◌≤ℤ◌}
use cycle_enumeration_gpu.Core.GraphView.{GraphView}
use cycle_enumeration_gpu.Core.GraphView.Rows.{IsValid, outgoing_of, row_of-All}
use cycle_enumeration_gpu.Core.Timestamp.Window.{FitsWindow}
use cycle_enumeration_gpu.Sequential.CycleUnion.Correct.{
  AllTimed, IsCandidate, compute_temporal_cycle_union_lem,
}
use cycle_enumeration_gpu.Sequential.CycleUnion.Mirrored.{
  IsMirrored, IsBetween, IsCandidate-IsBetween,
}
use cycle_enumeration_gpu.Cuda.WorkItem.{
  CudaStartEvent, StartEventSet, request, filter_event, build_temporal_start_events,
}
use cycle_enumeration_gpu.Cuda.WorkItem.Events.{
  IsStart, all_events, build_start_events_lem, all_events-IsStart,
}

module _ (g : GraphView) (width : ℤ) where
  -- Some vertex is reached from both ends of an event.
  abbrev pub HasCandidate : CudaStartEvent → Type 0
  HasCandidate ev = (w : ℕ) × (w < g.vertex_count) × IsCandidate g (request g width ev) w

  -- What the prefilter can be asked about an event.
  abbrev IsAskable : CudaStartEvent → Type 0
  IsAskable ev =
      (ev.root < g.vertex_count)
      × (ev.first_vertex < g.vertex_count)
      × FitsWindow ev.start_timestamp width

  -- What the loop over the events has done.
  record Filtered (evs : List CudaStartEvent) (s t : StartEventSet) : Type 0 where
    generated : t.generated ≡ s.generated
    counted :
        length t.events + t.dropped_by_cycle_union
        ≡ length s.events + s.dropped_by_cycle_union + length evs
    kept :
        (ev : CudaStartEvent) → (ev ∈ t.events) ↔ ((ev ∈ s.events) ⊎ ((ev ∈ evs) × HasCandidate ev))

  module _ (valid : IsValid g) (timed : AllTimed g) where
    filter_all :
        (evs : List CudaStartEvent) (s : StartEventSet)
        → All IsAskable evs
        → (t : StartEventSet) × (for_each (filter_event g width) evs s ≡ ok t) × Filtered evs s t
    unfolding filter_event
    filter_all [] s a = (
      s,
      refl,
      record {
        generated = refl;
        counted = omega arith;
        kept = λ ev. ((λ m. inl m), λ m. elim m [ inl old ↦ old | inr none ↦ absurd none.0 ]);
      },
    )
    filter_all (ev ∷ evs) s a =
        let (u, run, _, some_) =
          compute_temporal_cycle_union_lem g (request g width ev) valid timed a.0.2 a.0.0 a.0.1 in
        elim (Bool-cases (u.included_count == 0)) [
          | inl empty ↦
              let refused : HasCandidate ev → ⊥ = λ c. absurd (ground (arith, empty, some_.1 c)) in
              let (t, rest, f) =
                filter_all evs (record s { dropped_by_cycle_union = suc s.dropped_by_cycle_union })
                  a.1 in
              (
                t,
                rw (run, empty) rest,
                record {
                  generated = f.generated;
                  counted = omega (arith, f.counted);
                  kept = λ x. (
                    (λ m. elim ((f.kept x).0 m) [ inl old ↦ inl old | inr b ↦ inr (inr b.0, b.1) ]),
                    λ m. (f.kept x).1 (elim m [
                      | inl old ↦ inl old
                      | inr b ↦ elim b.0 [
                        | inl e ↦ absurd (refused (subst HasCandidate e b.1))
                        | inr later ↦ inr (later, b.1)
                      ]
                    ]),
                  );
                },
              )
          | inr full ↦
              let wanted : HasCandidate ev = some_.0 (ground (arith, full)) in
              let (t, rest, f) = filter_all evs (record s { events = s.events ++ ev ∷ [] }) a.1 in
              (
                t,
                rw (run, full) rest,
                record {
                  generated = f.generated;
                  counted = omega (arith, f.counted, length-append s.events (ev ∷ []));
                  kept = λ x. (
                    (λ m. elim ((f.kept x).0 m) [
                      | inl before ↦ elim (append_cases x s.events (ev ∷ []) before) [
                        | inl old ↦ inl old
                        | inr last ↦ elim last [
                          | inl e ↦ inr (inl e, subst HasCandidate (sym e) wanted)
                          | inr none ↦ absurd none
                        ]
                      ]
                      | inr b ↦ inr (inr b.0, b.1)
                    ]),
                    λ m. (f.kept x).1 (elim m [
                      | inl old ↦ inl (mem-append_left x s.events (ev ∷ []) old)
                      | inr b ↦ elim b.0 [
                        | inl e ↦ inl (mem-append_right x s.events (ev ∷ []) (inl e))
                        | inr later ↦ inr (later, b.1)
                      ]
                    ]),
                  );
                },
              )
        ]

-- On a valid view with sorted timestamps, for a width that is not negative and with which the windows
-- of all start events fit, the prefiltered set is built. It holds exactly the start events of the
-- view for which some vertex can be reached from the first vertex over outgoing rows and from the
-- root over incoming rows, along edges with an event in the window, and the events kept and the
-- events dropped are together as many as were generated.
pub build_temporal_start_events_lem :
    (g : GraphView) (width : ℤ)
    → IsValid g
    → AllTimed g
    → pos 0 ≤ℤ width
    → ((ev : CudaStartEvent) → IsStart g ev → FitsWindow ev.start_timestamp width)
    → (t : StartEventSet) × (build_temporal_start_events g width true ≡ ok t)
      × ((ev : CudaStartEvent) → (ev ∈ t.events) ↔ (IsStart g ev × HasCandidate g width ev))
      × (length t.events + t.dropped_by_cycle_union ≡ t.generated)
unfolding build_temporal_start_events
build_temporal_start_events_lem g width valid timed positive fits =
    let evs = all_events g in
    let askable : All (IsAskable g width) evs = All-of_mem _ evs (λ ev m.
      let start = (all_events-IsStart g ev).0 m in
      let target =
        All-mem _ (outgoing_of g ev.root) start.edge
          (row_of-All _ g.outgoing_offsets g.outgoing_edges ev.root valid.targets) start.leaves in
      (start.root_in, subst (λ v. v < g.vertex_count) (sym start.leads) target, fits ev start)) in
    let (t, run, f) =
      filter_all g width valid timed evs
        (record { events = []; generated = length evs; dropped_by_cycle_union = 0 }) askable in
    let accepted : ltb_ℤ width (pos 0) ≡ false = ground (arith, positive) in
    (
      t,
      rw (accepted, build_start_events_lem g valid timed.0) run,
      (λ ev. (
        (λ m. elim ((f.kept ev).0 m) [
          | inl none ↦ absurd none
          | inr b ↦ ((all_events-IsStart g ev).0 b.0, b.1)
        ]),
        λ b. (f.kept ev).1 (inr ((all_events-IsStart g ev).1 b.0, b.1)),
      )),
      omega (arith, f.counted, f.generated),
    )

-- Some vertex lies on a walk over outgoing edges from the first vertex of an event to its root.
abbrev pub HasBetween : GraphView → ℤ → CudaStartEvent → Type 0
HasBetween g width ev = (w : ℕ) × (w < g.vertex_count) × IsBetween g (request g width ev) w

-- On a valid view with sorted timestamps whose incoming rows hold exactly the edges of its outgoing
-- rows, for a width that is not negative and with which the windows of all start events fit, the
-- prefiltered set is built. It holds exactly the start events of the view for which some vertex can
-- be reached from the first vertex and reaches the root over outgoing edges with an event in the
-- window, and the events kept and the events dropped are together as many as were generated.
pub build_temporal_start_events-HasBetween :
    (g : GraphView) (width : ℤ)
    → IsValid g
    → AllTimed g
    → IsMirrored g
    → pos 0 ≤ℤ width
    → ((ev : CudaStartEvent) → IsStart g ev → FitsWindow ev.start_timestamp width)
    → (t : StartEventSet) × (build_temporal_start_events g width true ≡ ok t)
      × ((ev : CudaStartEvent) → (ev ∈ t.events) ↔ (IsStart g ev × HasBetween g width ev))
      × (length t.events + t.dropped_by_cycle_union ≡ t.generated)
build_temporal_start_events-HasBetween g width valid timed mirrored positive fits =
    let (t, run, kept, counted) =
      build_temporal_start_events_lem g width valid timed positive fits in
    let same =
      λ (ev : CudaStartEvent) (w : ℕ). IsCandidate-IsBetween g (request g width ev) w mirrored in
    (
      t,
      run,
      (λ ev. (
        (λ m. let (start, (w, h, c)) = (kept ev).0 m in (start, (w, h, (same ev w).0 c))),
        λ (start, (w, h, b)). (kept ev).1 (start, (w, h, (same ev w).1 b)),
      )),
      counted,
    )
