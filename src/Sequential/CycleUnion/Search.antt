-- ===== src/Sequential/CycleUnion/Search.antt =====
-- The two searches of the prefilter find what can be reached over edges with an event in the window.
use cycle_enumeration_gpu.Prelude.{
  ℕ, zero, suc, ◌+◌, ◌≤◌, ◌<◌, ◌≡◌, refl, sym, ap, ◌∙◌, subst, Bool, true, false, not, List, [],
  ◌∷◌, if◌then◌else◌, length, mem, inl, inr, Bool-cases, arith, ◌∈◌, ◌↔◌, All, All-mem, Result, ok,
  err, for_each,
}
use cycle_enumeration_gpu.Prelude.Int.{ℤ, ◌≤ℤ◌, ◌<ℤ◌}
use cycle_enumeration_gpu.Core.GraphView.{AdjacencyEntry, GraphView}
use cycle_enumeration_gpu.Core.Timestamp.{is_empty, value_at}
use cycle_enumeration_gpu.Core.Timestamp.Window.{Sorted, timestamps_after_lem}
use cycle_enumeration_gpu.Cycles.Marks.{
  marks, get-marks, set-marks, replicate-marks, spare, spare-cons, spare-nil,
}
use cycle_enumeration_gpu.Sequential.CycleUnion.{
  Reachable, edge_has_event_after_start, visit_edge, reach_loop, reach_from,
}
use cycle_enumeration_gpu.Sequential.CycleUnion.Queue.{
  Front, meet, meet_all, meet_all-Met, meet_all-spare, Reaches, bfs, bfs-Reaches,
}

-- The timestamps of an edge are in range and sorted.
abbrev pub IsTimed : List ℤ → AdjacencyEntry → Type 0
IsTimed ts e =
    (e.timestamp_begin ≤ e.timestamp_end)
    × (e.timestamp_end ≤ length ts)
    × Sorted ts e.timestamp_begin e.timestamp_end

-- An edge happens after the start and not after the end of the window.
abbrev pub HasEvent : List ℤ → ℤ → ℤ → AdjacencyEntry → Type 0
HasEvent ts start window_end e =
    (i : ℕ) × (e.timestamp_begin ≤ i)
    × (i < e.timestamp_end)
    × (start <ℤ value_at ts i)
    × (value_at ts i ≤ℤ window_end)

abbrev or_false : Result Bool → Bool
or_false (ok b) = b
or_false (err e) = false

module _ (g : GraphView) (start window_end : ℤ) where
  event_test_lem :
      (e : AdjacencyEntry)
      → IsTimed g.timestamps e
      → (b : Bool) × (edge_has_event_after_start g start window_end e ≡ ok b)
        × ((b ≡ true) ↔ HasEvent g.timestamps start window_end e)
  unfolding edge_has_event_after_start
  event_test_lem e (h, l, s) =
      let (r, run, selects) =
        timestamps_after_lem g.timestamps e.timestamp_begin e.timestamp_end start window_end h l
          s in
      (
        not (is_empty r),
        rw run refl,
        (
          (λ e'.
              let inside : r.begin < r.end = ground (arith, e') in
              let (lo, hi, late, early) = (selects r.begin).0 (omega arith, inside) in
              (r.begin, lo, hi, late, early)),
          (λ (i, lo, hi, late, early).
              let inside = (selects i).1 (lo, hi, late, early) in
              ground (arith, inside.0, inside.1)),
        ),
      )

  -- The test, as a value.
  pub live : AdjacencyEntry → Bool
  unfolding edge_has_event_after_start
  live e = or_false (edge_has_event_after_start g start window_end e)

  -- Where the edges with an event lead.
  unfoldable pub live_targets : List AdjacencyEntry → List ℕ
  unfolding live
  live_targets [] = []
  live_targets (e ∷ es) = if live e then e.vertex ∷ live_targets es else live_targets es

  abbrev pub front_state : Front → Reachable
  front_state f = record { reachable = marks g.vertex_count f.0; queue = f.1 }

  pub live_lem :
      (e : AdjacencyEntry)
      → IsTimed g.timestamps e
      → (edge_has_event_after_start g start window_end e ≡ ok (live e))
        × ((live e ≡ true) ↔ HasEvent g.timestamps start window_end e)
  unfolding live
  live_lem e timed =
      let (b, run, iff) = event_test_lem e timed in
      let value : live e ≡ b = ap or_false run in
      (
        run ∙ ap ok (sym value),
        subst (λ x. (x ≡ true) ↔ HasEvent g.timestamps start window_end e) (sym value) iff,
      )

  visit_edge_lem :
      (e : AdjacencyEntry) (f : Front)
      → IsTimed g.timestamps e
      → e.vertex < g.vertex_count
      → visit_edge g start window_end e (front_state f)
        ≡ ok (front_state (if live e then meet e.vertex f else f))
  unfolding visit_edge
  visit_edge_lem e f timed lt = rw ((live_lem e timed).0) (elim (Bool-cases (live e)) [
    | inl lives ↦
        rw (lives, get-marks g.vertex_count e.vertex f.0 lt)
          (elim (Bool-cases (mem e.vertex f.0)) [
            | inl old ↦ rw old refl
            | inr new ↦ rw (new, set-marks g.vertex_count e.vertex f.0) refl
          ])
    | inr dead ↦ rw dead refl
  ])

  unfoldable pub IsFine : AdjacencyEntry → Type 0
  IsFine e = IsTimed g.timestamps e × (e.vertex < g.vertex_count)

  visit_all :
      (es : List AdjacencyEntry) (f : Front)
      → All IsFine es
      → for_each (visit_edge g start window_end) es (front_state f)
        ≡ ok (front_state (meet_all (live_targets es) f))
  unfolding live_targets IsFine
  visit_all [] f a = refl
  visit_all (e ∷ es) f a = rw (visit_edge_lem e f a.0.0 a.0.1) (elim (Bool-cases (live e)) [
    | inl lives ↦ rw lives (visit_all es (meet e.vertex f) a.1)
    | inr dead ↦ rw dead (visit_all es f a.1)
  ])

  live_targets-lt :
      (es : List AdjacencyEntry) → All IsFine es → All (λ v. v < g.vertex_count) (live_targets es)
  unfolding live_targets IsFine
  live_targets-lt [] a = tt
  live_targets-lt (e ∷ es) a = elim (Bool-cases (live e)) [
    | inl lives ↦ rw lives (a.0.1, live_targets-lt es a.1)
    | inr dead ↦ rw dead (live_targets-lt es a.1)
  ]

  module _ (row_at : ℕ → Result (List AdjacencyEntry)) (row : ℕ → List AdjacencyEntry)
      (rows : (v : ℕ) → v < g.vertex_count → row_at v ≡ ok (row v))
      (fine : (v : ℕ) → All IsFine (row v)) where
    -- Where the live edges of a vertex lead.
    abbrev ahead : ℕ → List ℕ
    ahead v = live_targets (row v)

    reach_loop-bfs :
        (v : ℕ) (fuel : ℕ) (f : Front)
        → length f.1 + spare g.vertex_count f.0 ≤ fuel
        → ((w : ℕ) → w ∈ f.0 → w < g.vertex_count)
        → ((w : ℕ) → w ∈ f.1 → w < g.vertex_count)
        → reach_loop g start window_end row_at fuel (front_state f)
          ≡ ok (marks g.vertex_count (bfs ahead v fuel f))
    unfolding reach_loop
    reach_loop-bfs v zero (seen, []) enough lt ltq = refl
    reach_loop-bfs v zero (seen, c ∷ rest) enough lt ltq = absurd (omega arith)
    reach_loop-bfs v (suc fuel) (seen, []) enough lt ltq = refl
    reach_loop-bfs v (suc fuel) (seen, c ∷ rest) enough lt ltq =
        let met = meet_all-Met (ahead c) (seen, rest) in
        let bounded = live_targets-lt (row c) (fine c) in
        let below : (w : ℕ) → w ∈ (meet_all (ahead c) (seen, rest)).0 → w < g.vertex_count = λ w m.
          elim (met.only w m) [
            | inl old ↦ lt w old
            | inr new ↦ All-mem _ (ahead c) w bounded new
          ] in
        rw (rows c (ltq c (inl refl)), visit_all (row c) (seen, rest) (fine c))
          (reach_loop-bfs v fuel (meet_all (ahead c) (seen, rest))
            (omega (arith, meet_all-spare g.vertex_count (ahead c) (seen, rest) bounded)) below
            (λ w m. elim (met.queued w m) [ inl old ↦ ltq w (inr old) | inr new ↦ below w new ]))

    -- A search returns the flags of exactly the vertices that can be reached.
    pub reach_from_returns :
        (v : ℕ)
        → v < g.vertex_count
        → (seen : List ℕ) × (reach_from g start window_end row_at v
            ≡ ok (marks g.vertex_count seen))
          × ((w : ℕ) → (w ∈ seen) ↔ Reaches ahead v w)
    unfolding reach_from
    reach_from_returns v lt =
        let n = g.vertex_count in
        (
          bfs ahead v n (v ∷ [], v ∷ []),
          rw (replicate-marks n, set-marks n v [])
              (reach_loop-bfs v n (v ∷ [], v ∷ [])
                (omega (arith, spare-cons n v [] lt refl, spare-nil n))
                (λ w m. elim m [ inl e ↦ omega (arith, e) | inr r ↦ absurd r ])
                (λ w m. elim m [ inl e ↦ omega (arith, e) | inr r ↦ absurd r ])),
          bfs-Reaches ahead v n (λ c. live_targets-lt (row c) (fine c)) lt,
        )
