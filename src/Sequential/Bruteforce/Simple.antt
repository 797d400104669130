-- ===== src/Sequential/Bruteforce/Simple.antt =====
-- `count_simple_cycles` against the specification of cycle enumeration.
use cycle_enumeration_gpu.Prelude.{
  ℕ, zero, suc, ◌<◌, ◌≡◌, refl, ap, false, ◌&&◌, List, [], ◌∷◌, Option, leb, ◌==◌, length, mem, set,
  range, All-range, arith, inl, inr, Bool-cases, Result, ok, err, ◌>>=◌, ◌>>◌,
}
use cycle_enumeration_gpu.Core.Histogram.{CycleHistogram, no_cycles, increment_all}
use cycle_enumeration_gpu.Core.Histogram.Laws.{increment_all-nil, increment_all-one}
use cycle_enumeration_gpu.Core.GraphView.{AdjacencyEntry, GraphView}
use cycle_enumeration_gpu.Core.GraphView.Rows.{IsValid, outgoing_of, row_lem, row_of-All}
use cycle_enumeration_gpu.Cycles.{
  at_limit, cycle_length, cycles_via, cycles_from, cycles_at, all_cycles, tally,
}
use cycle_enumeration_gpu.Cycles.Marks.{
  marks, get-marks, set-marks, unset-marks, replicate-marks, spare, spare-cons, spare-nil,
}
use cycle_enumeration_gpu.Cycles.Views.{successors, tally-successors, view_cycles}
use cycle_enumeration_gpu.Cycles.Runs.{for_each-Runs, after_all, returned_histogram, tally-flat_map}
use cycle_enumeration_gpu.Sequential.Bruteforce.{
  Search, enter, leave, simple_edge, simple_dfs, simple_root, count_simple_cycles,
  validate_max_cycle_length,
}

-- The state of a search that is at the end of `path`.
abbrev pub searching : ℕ → List ℕ → CycleHistogram → Search
searching n path h = record { histogram = h; visited = marks n path; path = path }

module _ (g : GraphView) (limit : Option ℕ) (root : ℕ) where
  -- What the call of `dfs` at a new vertex is to do.
  abbrev Explores : (ℕ → Search → Result Search) → (ℕ → List ℕ → List (List ℕ)) → List ℕ → Type 0
  Explores call deeper path =
      (v : ℕ) (h : CycleHistogram)
      → v < g.vertex_count
      → mem v path ≡ false
      → call v (searching g.vertex_count (v ∷ path) h) ≡ (
          increment_all (tally (deeper v (v ∷ path))) h >>= λ h'.
          ok (searching g.vertex_count (v ∷ path) h'))

  call_returns :
      (call : ℕ → Search → Result Search) (deeper : ℕ → List ℕ → List (List ℕ)) (path : List ℕ)
      → Explores call deeper path
      → (v : ℕ) (h : CycleHistogram) → v < g.vertex_count
      → mem v path ≡ false
      → (call v (enter v (searching g.vertex_count path h)) >>= λ t. ok (leave v t)) ≡ (
          increment_all (tally (deeper v (v ∷ path))) h >>= λ h'.
          ok (searching g.vertex_count path h'))
  call_returns call deeper path calls v h lt new =
      rw (set-marks g.vertex_count v path, calls v h lt new)
        (elim (increment_all (tally (deeper v (v ∷ path))) h)
          as (λ r.
            (r >>= (λ h'. ok (searching g.vertex_count (v ∷ path) h')) >>= λ t. ok (leave v t))
            ≡ (r >>= λ h'. ok (searching g.vertex_count path h'))) [
              | ok h' ↦ rw (unset-marks g.vertex_count v path new)
              | err x ↦ refl
            ])

  simple_edge-Runs :
      (call : ℕ → Search → Result Search) (deeper : ℕ → List ℕ → List (List ℕ)) (path : List ℕ)
      → Explores call deeper path
      → (e : AdjacencyEntry) (h : CycleHistogram) → e.vertex < g.vertex_count
      → simple_edge g limit call root e (searching g.vertex_count path h) ≡ (
          increment_all (tally (cycles_via (successors g) limit root deeper path e.vertex)) h
          >>= λ h'. ok (searching g.vertex_count path h'))
  unfolding simple_edge
  simple_edge-Runs call deeper path calls e h lt =
      elim (Bool-cases (e.vertex == root && leb 2 (length path))) [
        | inl closes ↦ rw (closes, increment_all-one (cycle_length path) 1 h)
        | inr open_ ↦ rw open_ (elim (Bool-cases (leb e.vertex root)) [
          | inl below ↦ rw (below, increment_all-nil h)
          | inr above ↦
              rw (above, get-marks g.vertex_count e.vertex path lt)
                (elim (Bool-cases (mem e.vertex path)) [
                  | inl seen ↦ rw (seen, increment_all-nil h)
                  | inr new ↦ rw new (elim (Bool-cases (at_limit limit (length path))) [
                    | inl far ↦ rw (far, increment_all-nil h)
                    | inr near ↦ rw near (call_returns call deeper path calls e.vertex h lt new)
                  ])
                ])
        ])
      ]

  pub simple_dfs-Runs :
      IsValid g
      → (fuel v : ℕ) (path : List ℕ) (h : CycleHistogram) → v < g.vertex_count
      → spare g.vertex_count path < fuel
      → simple_dfs g limit fuel root v (searching g.vertex_count path h) ≡ (
          increment_all (tally (cycles_from (successors g) limit root fuel v path)) h >>= λ h'.
          ok (searching g.vertex_count path h'))
  unfolding simple_dfs cycles_from
  simple_dfs-Runs valid zero v path h lt f = absurd (omega arith)
  simple_dfs-Runs valid (suc fuel) v path h lt f =
      let deeper = cycles_from (successors g) limit root fuel in
      let calls : Explores (simple_dfs g limit fuel root) deeper path = λ w h' ltw new.
        simple_dfs-Runs valid fuel w (w ∷ path) h' ltw
          (omega (arith, spare-cons g.vertex_count w path ltw new)) in
      rw
        (
          row_lem valid.outgoing v lt,
          tally-successors (cycles_via (successors g) limit root deeper path) (outgoing_of g v),
        )
        (for_each-Runs (simple_edge g limit (simple_dfs g limit fuel root) root)
          (λ (e : AdjacencyEntry).
            tally (cycles_via (successors g) limit root deeper path e.vertex))
          (λ h' (c : Unit {0}). searching g.vertex_count path h') (λ e c. c)
          (λ e. e.vertex < g.vertex_count)
          (λ e h' c lte. simple_edge-Runs (simple_dfs g limit fuel root) deeper path calls e h' lte)
          (outgoing_of g v) h tt (row_of-All _ g.outgoing_offsets g.outgoing_edges v valid.targets))

  -- Between two roots no vertex is marked, and the path is what the last root left.
  simple_root-Runs :
      IsValid g
      → (h : CycleHistogram) (left : List ℕ) → root < g.vertex_count
      → simple_root g limit root (record (searching g.vertex_count [] h) { path = left }) ≡ (
          increment_all (tally (cycles_at (successors g) limit g.vertex_count root)) h >>= λ h'.
          ok (record (searching g.vertex_count [] h') { path = root ∷ [] }))
  unfolding simple_root cycles_at
  simple_root-Runs valid h left lt =
      let n = g.vertex_count in
      let room = spare-cons n root [] lt refl in
      rw
        (
          set-marks n root [],
          simple_dfs-Runs valid n root (root ∷ []) h lt (omega (arith, room, spare-nil n)),
        )
        (elim (increment_all (tally (cycles_from (successors g) limit root n root (root ∷ []))) h)
          as (λ r.
            (r >>= (λ h'. ok (searching n (root ∷ []) h')) >>= λ t.
            ok (record t { visited = set t.visited root false }))
            ≡ (r >>= λ h'. ok (record (searching n [] h') { path = root ∷ [] }))) [
              | ok h' ↦ rw (unset-marks n root [] refl)
              | err x ↦ refl
            ])

-- On a valid view the counter refuses a limit below 2; else it reads no vector beyond its end, does
-- not run out of fuel, and adds one to the length of each simple cycle of the view, in the order in
-- which the specification lists them. It fails only if that addition overflows.
pub count_simple_cycles_lem :
    (g : GraphView) (limit : Option ℕ)
    → IsValid g
    → count_simple_cycles g limit
      ≡ (validate_max_cycle_length limit >> increment_all (tally (view_cycles g limit)) no_cycles)
unfolding count_simple_cycles all_cycles
count_simple_cycles_lem g limit valid =
    let n = g.vertex_count in
    let loop =
      for_each-Runs (simple_root g limit) (λ root. tally (cycles_at (successors g) limit n root))
        (λ h path. record (searching n [] h) { path = path }) (λ root path. root ∷ [])
        (λ root. root < n) (λ root h path. simple_root-Runs g limit root valid h path) (range n)
        no_cycles [] (All-range n) in
    rw (replicate-marks n, loop, tally-flat_map (cycles_at (successors g) limit n) (range n))
      (ap (λ r. validate_max_cycle_length limit >> r)
        (returned_histogram _
          (λ h. record (searching n [] h) {
            path = after_all (λ root path. root ∷ []) (range n) [];
          })
          (λ t. t.histogram) (λ h. refl)))
