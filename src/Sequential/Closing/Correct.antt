-- ===== src/Sequential/Closing/Correct.antt =====
-- `can_reach_root` finds a way back exactly if there is one.
use cycle_enumeration_gpu.Prelude.{
  ℕ, zero, suc, ◌-◌, ◌<◌, ◌≡◌, refl, ap, ◌∙◌, Bool, true, false, none, some, ◌==◌, ==_iff, length,
  get_elem?, get_or, get_elem?-eq-get_or, range_from, mem-range_from, inl, inr, ◌⊎◌, Bool-cases,
  arith, ◌↔◌, All, All-mem, All-of_mem, Result, ok, ◌>>=◌, at,
}
use cycle_enumeration_gpu.Prelude.Int.{ℤ, pos, ◌<ℤ◌}
use cycle_enumeration_gpu.Core.GraphView.{AdjacencyEntry, GraphView}
use cycle_enumeration_gpu.Core.GraphView.Rows.{IsValid, outgoing_of, row_lem, row_of-All}
use cycle_enumeration_gpu.Core.Timestamp.{is_empty, value_at}
use cycle_enumeration_gpu.Core.Timestamp.Window.{timestamps_after_lem}
use cycle_enumeration_gpu.Sequential.CycleUnion.Search.{IsTimed}
use cycle_enumeration_gpu.Sequential.Closing.{
  Closing, is_closed, close, can_reach_edge, can_reach_root,
}
use cycle_enumeration_gpu.Sequential.Closing.Loops.{
  Answers, Somewhere, until_true-Answers, later, later-falls, later-le, range_from_bounds,
}
use cycle_enumeration_gpu.Sequential.Closing.Walks.{
  Event, Closes, Remembers, is_closed-Closes, close-Remembers,
}

module _ (g : GraphView) (root : ℕ) (last : ℤ) where
  -- What the call of `can_reach_root` at a later time is to do.
  abbrev Finds : (ℕ → ℤ → Closing → Result (Bool × Closing)) → ℤ → Type 0
  Finds call now =
      (v : ℕ) (i : ℕ) (c : Closing)
      → v < g.vertex_count
      → i < length g.timestamps
      → now <ℤ value_at g.timestamps i
      → Remembers g root last c
      → Answers (Closes g root last (value_at g.timestamps i) v) (Remembers g root last)
          (call v (value_at g.timestamps i) c)

  -- A walk back begins with this edge.
  abbrev Through : ℤ → AdjacencyEntry → Type 0
  Through now e =
      (i : ℕ) × Event g root last now e i
      × ((e.vertex ≡ root) ⊎ Closes g root last (value_at g.timestamps i) e.vertex)

  can_reach_edge-Answers :
      (call : ℕ → ℤ → Closing → Result (Bool × Closing)) (now : ℤ) (e : AdjacencyEntry)
      (c : Closing)
      → Finds call now
      → IsTimed g.timestamps e
      → e.vertex < g.vertex_count
      → Remembers g root last c
      → Answers (Through now e) (Remembers g root last) (can_reach_edge g root last call now e c)
  unfolding can_reach_edge
  can_reach_edge-Answers call now e c finds (h, l, s) lt k =
      let (r, run, selects) =
        timestamps_after_lem g.timestamps e.timestamp_begin e.timestamp_end now last h l s in
      elim (Bool-cases (is_empty r)) [
        | inl none_ ↦ record {
          answer = false;
          state = c;
          run = rw (run, none_) refl;
          yes_ = λ a. absurd (cc a);
          no_ = λ a (i, x, rest).
              let inside = (selects i).1 (x.after_begin, x.before_end, x.late, x.early) in
              ground (arith, none_, inside);
          kept = k;
        }
        | inr some_ ↦
            let inside = (selects r.begin).0 (ground (arith, some_)) in
            let first : Event g root last now e r.begin = record {
              after_begin = inside.0;
              before_end = inside.1;
              late = inside.2;
              early = inside.3;
            } in
            elim (Bool-cases (e.vertex == root)) [
              | inl home ↦ record {
                answer = true;
                state = c;
                run = rw (run, some_, home) refl;
                yes_ = λ a. (r.begin, first, inl ((==_iff e.vertex root).0 home));
                no_ = λ a. absurd (cc a);
                kept = k;
              }
              | inr away ↦
                  let loop =
                    until_true-Answers
                      (λ offset c. at g.timestamps offset >>= λ time. call e.vertex time c)
                      (λ i. Closes g root last (value_at g.timestamps i) e.vertex)
                      (Remembers g root last) (range_from r.begin (r.end - r.begin)) c
                      (All-of_mem _ (range_from r.begin (r.end - r.begin)) (λ i m c' k'.
                        let (a, b) = range_from_bounds i r.begin (r.end - r.begin) m in
                        let (lo, hi, late, early) = (selects i).0 (a, omega arith) in
                        let inside_ : i < length g.timestamps = omega arith in
                        rw (get_elem?-eq-get_or g.timestamps i (pos 0) inside_)
                          (finds e.vertex i c' lt inside_ late k')))
                      k in
                  record {
                    answer = loop.answer;
                    state = loop.state;
                    run = rw (run, some_, away) loop.run;
                    yes_ = λ a.
                        let (i, m, walk) = loop.yes_ a in
                        let (lo, hi) = range_from_bounds i r.begin (r.end - r.begin) m in
                        let (b, d, late, early) = (selects i).0 (lo, omega arith) in
                        (
                          i,
                          record { after_begin = b; before_end = d; late = late; early = early },
                          inr walk,
                        );
                    no_ = λ a (i, x, way). elim way [
                      | inl home ↦ ground (arith, away, home)
                      | inr walk ↦
                          let (lo, hi) =
                            (selects i).1 (x.after_begin, x.before_end, x.late, x.early) in
                          loop.no_ a
                            (i, mem-range_from i r.begin (r.end - r.begin) lo (omega arith), walk)
                    ];
                    kept = loop.kept;
                  }
            ]
      ]

  Closes-Through :
      (now : ℤ) (v : ℕ) → Closes g root last now v → Somewhere (Through now) (outgoing_of g v)
  Closes-Through now v (Closes.arrives e i m x home) = (e, m, (i, x, inl home))
  Closes-Through now v (Closes.goes e i m x walk) = (e, m, (i, x, inr walk))

  Through-Closes :
      (now : ℤ) (v : ℕ) → Somewhere (Through now) (outgoing_of g v) → Closes g root last now v
  Through-Closes now v (e, m, (i, x, inl home)) = Closes.arrives e i m x home
  Through-Closes now v (e, m, (i, x, inr walk)) = Closes.goes e i m x walk

  module _ (valid : IsValid g) (timed : All (IsTimed g.timestamps) g.outgoing_edges) where
    pub can_reach_root-Answers :
        (fuel v : ℕ) (now : ℤ) (c : Closing)
        → later g.timestamps now < fuel
        → v < g.vertex_count
        → Remembers g root last c
        → Answers
            (Closes g root last now v)
            (Remembers g root last)
            (can_reach_root g root last fuel v now c)
    unfolding can_reach_root
    can_reach_root-Answers zero v now c enough lt k = absurd (omega arith)
    can_reach_root-Answers (suc fuel) v now c enough lt k =
        let o = get_or c v none in
        let get : get_elem? c v ≡ some o = get_elem?-eq-get_or c v none (omega (arith, k.size)) in
        let finds : Finds (can_reach_root g root last fuel) now = λ w i c' ltw inside late k'.
          can_reach_root-Answers fuel w (value_at g.timestamps i) c'
            (omega (arith, later-falls g.timestamps i now inside late)) ltw k' in
        elim (Bool-cases (is_closed o now)) [
          | inl shut ↦ record {
            answer = false;
            state = c;
            run = rw (get, shut) refl;
            yes_ = λ a. absurd (cc a);
            no_ = λ a.
                is_closed-Closes g root last o v now (λ t e. k.closed v t (get ∙ ap some e)) shut;
            kept = k;
          }
          | inr open_ ↦
              let loop =
                until_true-Answers
                  (can_reach_edge g root last (can_reach_root g root last fuel) now) (Through now)
                  (Remembers g root last) (outgoing_of g v) c
                  (All-of_mem _ (outgoing_of g v) (λ e m c' k'.
                    can_reach_edge-Answers (can_reach_root g root last fuel) now e c' finds
                      (All-mem _ (outgoing_of g v) e
                        (row_of-All _ g.outgoing_offsets g.outgoing_edges v timed) m)
                      (All-mem _ (outgoing_of g v) e
                        (row_of-All _ g.outgoing_offsets g.outgoing_edges v valid.targets) m)
                      k'))
                  k in
              elim (Bool-cases loop.answer) [
                | inl found ↦ record {
                  answer = true;
                  state = loop.state;
                  run = rw (get, open_, row_lem valid.outgoing v lt, loop.run, found) refl;
                  yes_ = λ a. Through-Closes now v (loop.yes_ found);
                  no_ = λ a. absurd (cc a);
                  kept = loop.kept;
                }
                | inr missed ↦
                    let none_ : ¬ Closes g root last now v =
                      λ walk. loop.no_ missed (Closes-Through now v walk) in
                    record {
                      answer = false;
                      state = close v o now loop.state;
                      run = rw (get, open_, row_lem valid.outgoing v lt, loop.run, missed) refl;
                      yes_ = λ a. absurd (cc a);
                      no_ = λ a. none_;
                      kept = close-Remembers g root last loop.state v o now loop.kept none_;
                    }
              ]
        ]

    -- With one unit of fuel more than there are timestamps, on a valid view with sorted timestamps
    -- and from a memory that closes a vertex only where no walk leads back, `can_reach_root` returns;
    -- its answer is `true` exactly if a walk of edges one after the other, after the given time and
    -- within the window, leads back to the root; and the memory that it leaves is again such a memory.
    pub can_reach_root_lem :
        (v : ℕ) (now : ℤ) (c : Closing)
        → v < g.vertex_count
        → Remembers g root last c
        → (b : Bool) × (c' : Closing) × (can_reach_root g root last
              (suc (length g.timestamps))
              v
              now
              c
            ≡ ok (b, c'))
          × ((b ≡ true) ↔ Closes g root last now v)
          × Remembers g root last c'
    can_reach_root_lem v now c lt k =
        let run =
          can_reach_root-Answers (suc (length g.timestamps)) v now c
            (omega (arith, later-le g.timestamps now)) lt k in
        (
          run.answer,
          run.state,
          run.run,
          (
            run.yes_,
            λ walk. elim (Bool-cases run.answer) [
              | inl yes_ ↦ yes_
              | inr no_ ↦ absurd (run.no_ no_ walk)
            ],
          ),
          run.kept,
        )
