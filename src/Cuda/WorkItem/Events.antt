-- ===== src/Cuda/WorkItem/Events.antt =====
-- The start events of a view: one for each timestamp of each edge.
use cycle_enumeration_gpu.Prelude.{
  ℕ, zero, suc, ◌+◌, ◌-◌, ◌≤◌, ◌<◌, ◌≡◌, refl, sym, ap, ◌∙◌, subst, List, [], ◌∷◌, ◌++◌,
  append_assoc, append-nil, range, range_from, get_elem?-eq-get_or, flat_map, flat_map_cases,
  mem-flat_map, mem-range, mem-range_from, inl, inr, arith, ◌∈◌, ◌↔◌, All, All-of_mem, All-mem,
  All-range, All-range_from, Result, ok, for_each,
}
use cycle_enumeration_gpu.Prelude.Int.{pos}
use cycle_enumeration_gpu.Core.GraphView.{AdjacencyEntry, GraphView}
use cycle_enumeration_gpu.Core.GraphView.Rows.{IsValid, outgoing_of, row_lem, row_of-All}
use cycle_enumeration_gpu.Core.Timestamp.{value_at}
use cycle_enumeration_gpu.Sequential.CycleUnion.Search.{IsTimed}
use cycle_enumeration_gpu.Cuda.WorkItem.{
  CudaStartEvent, push_event, push_edge, push_root, build_start_events,
}

-- A loop that appends to a vector.
for_each-appends :
    {A B : Type 0} (step : A → List B → Result (List B)) (f : A → List B) (P : A → Type 0)
    → ((x : A) (acc : List B) → P x → step x acc ≡ ok (acc ++ f x))
    → (xs : List A) (acc : List B) → All P xs
    → for_each step xs acc ≡ ok (acc ++ flat_map f xs)
for_each-appends step f P steps [] acc a = ap ok (sym (append-nil acc))
for_each-appends step f P steps (x ∷ xs) acc a = rw (steps x acc a.0) (
    for_each-appends step f P steps xs (acc ++ f x) a.1
    ∙ ap ok (append_assoc acc (f x) (flat_map f xs)))

range_from-bounds : (a n : ℕ) → All (λ i. (a ≤ i) × (i < a + n)) (range_from a n)
range_from-bounds a n =
    All-of_mem _ (range_from a n)
      (λ i m. (at_least a n i m, All-mem _ (range_from a n) i (All-range_from a n _ refl) m))
  where
    at_least : (b k i : ℕ) → i ∈ range_from b k → b ≤ i
    at_least b zero i m = absurd m
    at_least b (suc k) i (inl e) = omega (arith, e)
    at_least b (suc k) i (inr m) = omega (arith, at_least (suc b) k i m)

module _ (g : GraphView) where
  abbrev event_at : ℕ → AdjacencyEntry → ℕ → CudaStartEvent
  event_at root e i = record {
    root = root;
    first_vertex = e.vertex;
    start_timestamp = value_at g.timestamps i;
  }

  -- An event is a timestamp of an edge out of its root.
  pub record IsStart (ev : CudaStartEvent) : Type 0 where
    pub edge : AdjacencyEntry
    pub offset : ℕ
    pub root_in : ev.root < g.vertex_count
    pub leaves : edge ∈ outgoing_of g ev.root
    pub after : edge.timestamp_begin ≤ offset
    pub before : offset < edge.timestamp_end
    pub leads : ev.first_vertex ≡ edge.vertex
    pub happens : ev.start_timestamp ≡ value_at g.timestamps offset

  events_of_edge : ℕ → AdjacencyEntry → List CudaStartEvent
  events_of_edge root e =
      flat_map (λ i. event_at root e i ∷ [])
        (range_from e.timestamp_begin (e.timestamp_end - e.timestamp_begin))

  events_of_root : ℕ → List CudaStartEvent
  unfolding events_of_edge
  events_of_root root = flat_map (events_of_edge root) (outgoing_of g root)

  pub all_events : List CudaStartEvent
  unfolding events_of_root
  all_events = flat_map events_of_root (range g.vertex_count)

  push_edge_lem :
      (root : ℕ) (e : AdjacencyEntry) (events : List CudaStartEvent)
      → IsTimed g.timestamps e
      → push_edge g root e events ≡ ok (events ++ events_of_edge root e)
  unfolding push_edge push_event events_of_edge
  push_edge_lem root e events (h, l, _) =
      for_each-appends (push_event g root e) (λ i. event_at root e i ∷ [])
        (λ i. i < e.timestamp_end)
        (λ i acc lt. rw (get_elem?-eq-get_or g.timestamps i (pos 0) (omega arith)) refl)
        (range_from e.timestamp_begin (e.timestamp_end - e.timestamp_begin)) events
        (All-range_from _ _ _ (omega arith))

  pub build_start_events_lem :
      IsValid g → All (IsTimed g.timestamps) g.outgoing_edges → build_start_events g ≡ ok all_events
  unfolding build_start_events push_root all_events events_of_root
  build_start_events_lem valid timed =
      for_each-appends (push_root g) events_of_root (λ v. v < g.vertex_count)
        (λ v acc lt. rw (row_lem valid.outgoing v lt) (
          for_each-appends (push_edge g v) (events_of_edge v) (IsTimed g.timestamps)
            (push_edge_lem v) (outgoing_of g v) acc
            (row_of-All _ g.outgoing_offsets g.outgoing_edges v timed)))
        (range g.vertex_count) [] (All-range g.vertex_count)

  pub all_events-IsStart : (ev : CudaStartEvent) → (ev ∈ all_events) ↔ IsStart ev
  unfolding all_events events_of_root events_of_edge
  all_events-IsStart ev = (forth, back)
    where
      forth : ev ∈ all_events → IsStart ev
      forth m =
          let (root, from, m1) = flat_map_cases events_of_root ev (range g.vertex_count) m in
          let (e, from_e, m2) = flat_map_cases (events_of_edge root) ev (outgoing_of g root) m1 in
          let offsets = range_from e.timestamp_begin (e.timestamp_end - e.timestamp_begin) in
          let (i, from_i, m3) = flat_map_cases (λ j. event_at root e j ∷ []) ev offsets m2 in
          let (lo, hi) =
            All-mem _ offsets i
              (range_from-bounds e.timestamp_begin (e.timestamp_end - e.timestamp_begin)) from_i in
          elim m3 [
            | inl same ↦ record {
              edge = e;
              offset = i;
              root_in =
                  subst (λ v. v < g.vertex_count) (sym (ap (λ (x : CudaStartEvent). x.root) same))
                    (All-mem _ _ root (All-range g.vertex_count) from);
              leaves =
                  subst (λ v. e ∈ outgoing_of g v) (sym (ap (λ (x : CudaStartEvent). x.root) same))
                    from_e;
              after = lo;
              before = omega arith;
              leads = ap (λ (x : CudaStartEvent). x.first_vertex) same;
              happens = ap (λ (x : CudaStartEvent). x.start_timestamp) same;
            }
            | inr none ↦ absurd none
          ]

      back : IsStart ev → ev ∈ all_events
      back s =
          let e = s.edge in
          let offsets = range_from e.timestamp_begin (e.timestamp_end - e.timestamp_begin) in
          let same : ev ≡ event_at ev.root e s.offset =
            ap
              (λ v. record {
                root = ev.root;
                first_vertex = v;
                start_timestamp = ev.start_timestamp;
              })
              s.leads
            ∙ ap (λ t. record { root = ev.root; first_vertex = e.vertex; start_timestamp = t })
                s.happens in
          mem-flat_map events_of_root ev ev.root (range g.vertex_count)
            (mem-range ev.root g.vertex_count s.root_in)
            (mem-flat_map (events_of_edge ev.root) ev e (outgoing_of g ev.root) s.leaves (
              mem-flat_map (λ j. event_at ev.root e j ∷ []) ev s.offset offsets
                (mem-range_from s.offset e.timestamp_begin (e.timestamp_end - e.timestamp_begin)
                  s.after (omega (arith, s.before, s.after)))
                (inl same)))
