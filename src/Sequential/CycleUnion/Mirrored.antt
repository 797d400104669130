-- ===== src/Sequential/CycleUnion/Mirrored.antt =====
-- What the prefilter includes, on a view whose incoming rows hold the edges of its outgoing rows.
use cycle_enumeration_gpu.Prelude.{ℕ, ◌≤◌, ◌<◌, ◌≡◌, sym, subst, true, List, ◌∈◌, ◌↔◌, ok}
use cycle_enumeration_gpu.Prelude.Int.{ℤ, ◌+ℤ◌}
use cycle_enumeration_gpu.Core.GraphView.{AdjacencyEntry, GraphView}
use cycle_enumeration_gpu.Core.GraphView.Rows.{IsValid, outgoing_of, incoming_of}
use cycle_enumeration_gpu.Core.Timestamp.Window.{FitsWindow}
use cycle_enumeration_gpu.Sequential.CycleUnion.{
  CycleUnionRequest, CycleUnion, contains, compute_temporal_cycle_union,
}
use cycle_enumeration_gpu.Sequential.CycleUnion.Leads.{Leads}
use cycle_enumeration_gpu.Sequential.CycleUnion.Search.{HasEvent}
use cycle_enumeration_gpu.Sequential.CycleUnion.Correct.{
  AllTimed, IsCandidate, compute_temporal_cycle_union_lem,
}

-- The entry `e` of the row of `v` stands in the row of its vertex, in `rows`, as an entry for `v`.
pub record Turned (rows : ℕ → List AdjacencyEntry) (v : ℕ) (e : AdjacencyEntry) : Type 0 where
  pub turned : AdjacencyEntry
  pub stands : turned ∈ rows e.vertex
  pub leads : turned.vertex ≡ v
  pub begins : turned.timestamp_begin ≡ e.timestamp_begin
  pub ends : turned.timestamp_end ≡ e.timestamp_end

-- The incoming rows of a view hold exactly the edges of its outgoing rows.
pub record IsMirrored (g : GraphView) : Type 0 where
  pub incoming : (v : ℕ) (e : AdjacencyEntry) → e ∈ outgoing_of g v → Turned (incoming_of g) v e
  pub outgoing : (v : ℕ) (e : AdjacencyEntry) → e ∈ incoming_of g v → Turned (outgoing_of g) v e

module _ (ts : List ℤ) (first last : ℤ) where
  event_turned :
      (rows : ℕ → List AdjacencyEntry) (v : ℕ) (e : AdjacencyEntry) (t : Turned rows v e)
      → HasEvent ts first last e
      → HasEvent ts first last t.turned
  event_turned rows v e t (i, lo, hi, after, within) =
      (i, subst (λ k. k ≤ i) (sym t.begins) lo, subst (λ k. i < k) (sym t.ends) hi, after, within)

  join_walks :
      (rows : ℕ → List AdjacencyEntry) (u v w : ℕ)
      → Leads ts first last rows u v
      → Leads ts first last rows v w
      → Leads ts first last rows u w
  join_walks rows u v w a Leads.here = a
  join_walks rows u v w a (Leads.step {u = x} e b from event) =
      Leads.step e (join_walks rows u v x a b) from event

  -- A walk over edges, backwards over the same edges turned.
  turn_walk :
      (rows back : ℕ → List AdjacencyEntry)
      → ((v : ℕ) (e : AdjacencyEntry) → e ∈ rows v → Turned back v e)
      → (v w : ℕ) → Leads ts first last rows v w
      → Leads ts first last back w v
  turn_walk rows back turn v w Leads.here = Leads.here
  turn_walk rows back turn v w (Leads.step {u = x} e before from event) =
      let t = turn x e from in
      join_walks back e.vertex x v
        (subst (Leads ts first last back e.vertex) t.leads
          (Leads.step t.turned Leads.here t.stands (event_turned back x e t event)))
        (turn_walk rows back turn v x before)

-- A vertex is on a walk from the first vertex of a request to its root, over outgoing edges.
abbrev pub IsBetween : GraphView → CycleUnionRequest → ℕ → Type 0
IsBetween g r w =
    Leads g.timestamps r.start_timestamp (r.start_timestamp +ℤ r.window_width) (outgoing_of g)
      r.first_vertex w
    × Leads g.timestamps r.start_timestamp (r.start_timestamp +ℤ r.window_width) (outgoing_of g) w
        r.root

pub IsCandidate-IsBetween :
    (g : GraphView) (r : CycleUnionRequest) (w : ℕ)
    → IsMirrored g
    → IsCandidate g r w ↔ IsBetween g r w
IsCandidate-IsBetween g r w m =
    let last = r.start_timestamp +ℤ r.window_width in
    (
      λ c. (
        c.0,
        turn_walk g.timestamps r.start_timestamp last (incoming_of g) (outgoing_of g) m.outgoing
            r.root w c.1,
      ),
      λ c. (
        c.0,
        turn_walk g.timestamps r.start_timestamp last (outgoing_of g) (incoming_of g) m.incoming w
            r.root c.1,
      ),
    )

-- On a valid view with sorted timestamps whose incoming rows hold exactly the edges of its outgoing
-- rows, for a window that fits and two of its vertices, the prefilter returns. A vertex is included
-- exactly if it can be reached from the first vertex, and the root from it, over outgoing edges with
-- an event after the start and not after the end of the window; and the count is positive exactly if
-- there is such a vertex.
pub compute_temporal_cycle_union-IsBetween :
    (g : GraphView) (r : CycleUnionRequest)
    → IsValid g
    → AllTimed g
    → IsMirrored g
    → FitsWindow r.start_timestamp r.window_width
    → r.root < g.vertex_count
    → r.first_vertex < g.vertex_count
    → (u : CycleUnion) × (compute_temporal_cycle_union g r ≡ ok u)
      × ((w : ℕ) → w < g.vertex_count → (contains u w ≡ ok true) ↔ IsBetween g r w)
      × ((1 ≤ u.included_count) ↔ ((w : ℕ) × (w < g.vertex_count) × IsBetween g r w))
compute_temporal_cycle_union-IsBetween g r valid timed mirrored fits lt ltf =
    let (u, run, exactly, some_) = compute_temporal_cycle_union_lem g r valid timed fits lt ltf in
    let same = λ (w : ℕ). IsCandidate-IsBetween g r w mirrored in
    (
      u,
      run,
      (λ w h. ((λ e. (same w).0 ((exactly w h).0 e)), λ b. (exactly w h).1 ((same w).1 b))),
      (
        (λ one. let (w, h, c) = some_.0 one in (w, h, (same w).0 c)),
        λ (w, h, b). some_.1 (w, h, (same w).1 b),
      ),
    )
