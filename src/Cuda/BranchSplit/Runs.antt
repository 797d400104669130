-- ===== src/Cuda/BranchSplit/Runs.antt =====
-- `split_static_search` against the specification of a split search.
use cycle_enumeration_gpu.Prelude.{
  ℕ, zero, suc, ◌<◌, ◌≡◌, refl, ap, ◌∙◌, true, false, ◌&&◌, List, [], ◌∷◌, ◌++◌, append-nil, Option,
  leb, ltb, ◌==◌, length, tail, mem, set, map, flat_map, range, All-range, arith, inl, inr,
  Bool-cases, Result, ok, err, ◌>>=◌, ◌>>◌, throw_if, invalid_argument,
}
use cycle_enumeration_gpu.Core.Histogram.{CycleHistogram, no_cycles, increment_all}
use cycle_enumeration_gpu.Core.Histogram.Laws.{increment_all-nil, increment_all-one}
use cycle_enumeration_gpu.Core.GraphView.{AdjacencyEntry, GraphView}
use cycle_enumeration_gpu.Core.GraphView.Rows.{IsValid, outgoing_of, row_lem, row_of-All}
use cycle_enumeration_gpu.Cycles.{at_limit, cycle_length, cycles_via, tally}
use cycle_enumeration_gpu.Cycles.Marks.{
  marks, get-marks, set-marks, unset-marks, replicate-marks, spare, spare-cons, spare-nil,
}
use cycle_enumeration_gpu.Cycles.Views.{successors, tally-successors}
use cycle_enumeration_gpu.Cycles.Runs.{for_each-Runs, tally-flat_map, flat_map-map}
use cycle_enumeration_gpu.Cuda.BranchSplit.{
  SplitWorkItem, Expansion, expand_edge, expand, split_root, split_static_search, refuses,
}
use cycle_enumeration_gpu.Cuda.BranchSplit.Parts.{
  goes_on_any, closed_from, prefixes_via, prefixes_from, closed_all, prefixes_all,
}
use cycle_enumeration_gpu.Cuda.BranchSplit.Work.{
  item, expanding, after_all-items, prefix_has_work_lem,
}

module _ (g : GraphView) (limit : Option ℕ) (cutoff root : ℕ) where
  -- What the call of `expand` at a new vertex is to do.
  abbrev Explores :
      (Expansion → Result Expansion)
      → (closed prefixes : ℕ → List ℕ → List (List ℕ)) → List ℕ
      → Type 0
  Explores call closed prefixes path =
      (v : ℕ) (h : CycleHistogram) (items : List SplitWorkItem)
      → v < g.vertex_count
      → mem v path ≡ false
      → call (expanding g.vertex_count (v ∷ path) h items) ≡ (
          increment_all (tally (closed v (v ∷ path))) h >>= λ h'.
          ok (expanding g.vertex_count (v ∷ path) h' (items ++ map item (prefixes v (v ∷ path)))))

  call_returns :
      (call : Expansion → Result Expansion) (closed prefixes : ℕ → List ℕ → List (List ℕ))
      (path : List ℕ)
      → Explores call closed prefixes path
      → (v : ℕ) (h : CycleHistogram) (items : List SplitWorkItem) → v < g.vertex_count
      → mem v path ≡ false
      → (call (record (expanding g.vertex_count path h items) {
        visited = set (marks g.vertex_count path) v true;
        path = v ∷ path;
      })
          >>= λ t. ok (record t { path = tail t.path; visited = set t.visited v false }))
        ≡ (increment_all (tally (closed v (v ∷ path))) h >>= λ h'.
            ok (expanding g.vertex_count path h' (items ++ map item (prefixes v (v ∷ path)))))
  call_returns call closed prefixes path calls v h items lt new =
      rw (set-marks g.vertex_count v path, calls v h items lt new)
        (elim (increment_all (tally (closed v (v ∷ path))) h)
          as (λ r.
            (r
              >>= (λ h'. ok (
                  expanding g.vertex_count (v ∷ path) h'
                    (items ++ map item (prefixes v (v ∷ path)))))
              >>= λ t. ok (record t { path = tail t.path; visited = set t.visited v false }))
            ≡ (r >>= λ h'.
                ok
                  (expanding g.vertex_count path h' (items ++ map item (prefixes v (v ∷ path)))))) [
                    | ok h' ↦ rw (unset-marks g.vertex_count v path new)
                    | err x ↦ refl
                  ])

  expand_edge-Runs :
      (call : Expansion → Result Expansion) (closed prefixes : ℕ → List ℕ → List (List ℕ))
      (path : List ℕ)
      → Explores call closed prefixes path
      → (e : AdjacencyEntry) (h : CycleHistogram) (items : List SplitWorkItem)
      → e.vertex < g.vertex_count
      → expand_edge g limit root call e (expanding g.vertex_count path h items) ≡ (
          increment_all (tally (cycles_via (successors g) limit root closed path e.vertex)) h
          >>= λ h'. ok (
              expanding g.vertex_count path h' (
                items
                ++ map item
                    (prefixes_via (successors g) limit cutoff root prefixes path e.vertex))))
  unfolding expand_edge
  expand_edge-Runs call closed prefixes path calls e h items lt =
      elim (Bool-cases (e.vertex == root && leb 2 (length path))) [
        | inl closes ↦ rw (closes, increment_all-one (cycle_length path) 1 h, append-nil items)
        | inr open_ ↦ rw open_ (elim (Bool-cases (leb e.vertex root)) [
          | inl below ↦ rw (below, increment_all-nil h, append-nil items)
          | inr above ↦
              rw (above, get-marks g.vertex_count e.vertex path lt)
                (elim (Bool-cases (mem e.vertex path)) [
                  | inl seen ↦ rw (seen, increment_all-nil h, append-nil items)
                  | inr new ↦ rw new (elim (Bool-cases (at_limit limit (length path))) [
                    | inl far ↦ rw (far, increment_all-nil h, append-nil items)
                    | inr near ↦
                        rw near
                          (call_returns call closed prefixes path calls e.vertex h items lt new)
                  ])
                ])
        ])
      ]

  expand-Runs :
      IsValid g
      → (fuel v : ℕ) (p : List ℕ) (h : CycleHistogram) (items : List SplitWorkItem)
      → v < g.vertex_count
      → spare g.vertex_count (v ∷ p) < fuel
      → expand g limit root fuel cutoff (expanding g.vertex_count (v ∷ p) h items) ≡ (
          increment_all (tally (closed_from (successors g) limit cutoff root fuel v (v ∷ p))) h
          >>= λ h'. ok (
              expanding g.vertex_count (v ∷ p) h' (
                items ++ map item (prefixes_from (successors g) limit cutoff root fuel v (v ∷ p)))))
  unfolding expand closed_from prefixes_from
  expand-Runs valid zero v p h items lt f = absurd (omega arith)
  expand-Runs valid (suc fuel) v p h items lt f = elim (Bool-cases (length (v ∷ p) == cutoff)) [
    | inl cut ↦
        rw (cut, prefix_has_work_lem g limit cutoff root v p valid lt, increment_all-nil h)
          (elim (Bool-cases
            (goes_on_any (successors g) limit cutoff root (v ∷ p) (successors g v))) [
              | inl on ↦ rw on refl
              | inr off ↦ rw (off, append-nil items) refl
            ])
    | inr uncut ↦
        let closed = closed_from (successors g) limit cutoff root fuel in
        let prefixes = prefixes_from (successors g) limit cutoff root fuel in
        let calls : Explores (expand g limit root fuel cutoff) closed prefixes (v ∷ p) =
          λ w h' items' ltw new.
            expand-Runs valid fuel w (v ∷ p) h' items' ltw
              (omega (arith, spare-cons g.vertex_count w (v ∷ p) ltw new)) in
        rw
          (
            uncut,
            row_lem valid.outgoing v lt,
            tally-successors (cycles_via (successors g) limit root closed (v ∷ p))
                (outgoing_of g v),
            flat_map-map (prefixes_via (successors g) limit cutoff root prefixes (v ∷ p))
                (λ (e : AdjacencyEntry). e.vertex) (outgoing_of g v),
          )
          (for_each-Runs (expand_edge g limit root (expand g limit root fuel cutoff))
              (λ (e : AdjacencyEntry).
                tally (cycles_via (successors g) limit root closed (v ∷ p) e.vertex))
              (λ h' c. expanding g.vertex_count (v ∷ p) h' c)
              (λ e c.
                c
                ++ map item
                    (prefixes_via (successors g) limit cutoff root prefixes (v ∷ p) e.vertex))
              (λ e. e.vertex < g.vertex_count)
              (λ e h' c lte.
                expand_edge-Runs (expand g limit root fuel cutoff) closed prefixes (v ∷ p) calls e
                  h' c lte)
              (outgoing_of g v) h items
              (row_of-All _ g.outgoing_offsets g.outgoing_edges v valid.targets)
            ∙ ap
                (λ (c : List SplitWorkItem).
                  increment_all
                    (flat_map
                      (λ (e : AdjacencyEntry).
                        tally (cycles_via (successors g) limit root closed (v ∷ p) e.vertex))
                      (outgoing_of g v))
                    h
                  >>= λ h'. ok (expanding g.vertex_count (v ∷ p) h' c))
                (after_all-items
                  (λ (e : AdjacencyEntry).
                    prefixes_via (successors g) limit cutoff root prefixes (v ∷ p) e.vertex)
                  (outgoing_of g v) items))
  ]

  split_root-Runs :
      IsValid g
      → (h : CycleHistogram) (items : List SplitWorkItem) → root < g.vertex_count
      → split_root g limit cutoff root (record { items = items; closed = h }) ≡ (
          increment_all
            (tally (closed_from (successors g) limit cutoff root g.vertex_count root (root ∷ [])))
            h
          >>= λ h'. ok (record {
            items =
                items
                ++ map item (
                    prefixes_from (successors g) limit cutoff root g.vertex_count root (root ∷ []));
            closed = h';
          }))
  unfolding split_root
  split_root-Runs valid h items lt =
      let n = g.vertex_count in
      rw
        (
          replicate-marks n,
          set-marks n root [],
          expand-Runs valid n root [] h items lt
              (omega (arith, spare-cons n root [] lt refl, spare-nil n)),
        )
        (elim (increment_all
            (tally (closed_from (successors g) limit cutoff root n root (root ∷ []))) h)
          as (λ r.
            (r
              >>= (λ h'. ok (
                  expanding n (root ∷ []) h' (
                    items
                    ++ map item
                        (prefixes_from (successors g) limit cutoff root n root (root ∷ [])))))
              >>= λ t. ok t.out)
            ≡ (r >>= λ h'. ok (record {
              items =
                  items
                  ++ map item (prefixes_from (successors g) limit cutoff root n root (root ∷ []));
              closed = h';
            }))) [ ok h' ↦ refl | err x ↦ refl ])

pub split_static_search_lem :
    (g : GraphView) (cutoff : ℕ) (limit : Option ℕ)
    → IsValid g
    → split_static_search g cutoff limit ≡ (
        throw_if (ltb cutoff 2) invalid_argument
        >> (throw_if (refuses limit) invalid_argument
            >> (increment_all
                  (tally (closed_all (successors g) limit cutoff g.vertex_count))
                  no_cycles
                >>= λ h. ok (record {
                  items = map item (prefixes_all (successors g) limit cutoff g.vertex_count);
                  closed = h;
                }))))
unfolding split_static_search closed_all prefixes_all
split_static_search_lem g cutoff limit valid =
    let n = g.vertex_count in
    let closed = λ (root : ℕ). closed_from (successors g) limit cutoff root n root (root ∷ []) in
    let prefixes =
      λ (root : ℕ). prefixes_from (successors g) limit cutoff root n root (root ∷ []) in
    let loop =
      for_each-Runs (split_root g limit cutoff) (λ root. tally (closed root))
        (λ h items. record { items = items; closed = h })
        (λ root items. items ++ map item (prefixes root)) (λ root. root < n)
        (λ root h items. split_root-Runs g limit cutoff root valid h items) (range n) no_cycles []
        (All-range n) in
    rw (loop, tally-flat_map closed (range n), after_all-items prefixes (range n) [])
