-- ===== src/Dynamic/ThroughEdge/Owned.antt =====
-- What `count_cycles_through_edge` counts.
use cycle_enumeration_gpu.Prelude.{
  ℕ, suc, ◌+◌, ◌≤◌, ◌<◌, ◌%◌, ◌≡◌, refl, sym, ap, ◌∙◌, Bool, true, false, ◌||◌, List, [], ◌∷◌, leb,
  ltb, if◌then◌else◌, length, get_or, replicate, All, arith, inl, inr, Bool-cases, ok, ◌↔◌, ◌∈◌,
  All-of_mem, All-mem, Distinct,
}
use cycle_enumeration_gpu.Core.GraphView.Rows.{IsCsr}
use cycle_enumeration_gpu.Cycles.Marks.{spare, spare-cons, spare-nil, spare_le}
use cycle_enumeration_gpu.Dynamic.DirectedGraph.{DirectedGraph}
use cycle_enumeration_gpu.Dynamic.ThroughEdge.{
  ChangedEdgeIndex, Scan, forbidden_before, count_cycles_through_edge,
}
use cycle_enumeration_gpu.Dynamic.ThroughEdge.Counts.{bump_all, get-bump_all, how_many}
use cycle_enumeration_gpu.Dynamic.ThroughEdge.Buffer.{Clear, grow-Clear, marked, unmark_both}
use cycle_enumeration_gpu.Dynamic.ThroughEdge.Paths.{paths_from, IsThrough}
use cycle_enumeration_gpu.Dynamic.ThroughEdge.Paths.Simple.{Distinct-IsThrough}
use cycle_enumeration_gpu.Dynamic.ThroughEdge.Paths.Complete.{paths_from_iff, IsThrough-length}
use cycle_enumeration_gpu.Dynamic.ThroughEdge.Paths.Distinct.{Distinct-paths_from}
use cycle_enumeration_gpu.Core.GraphView.Rows.{row_of-All}
use cycle_enumeration_gpu.Dynamic.ThroughEdge.Scans.{neighbors_of, search-Scans}

-- What the theorems below assume of a graph: its rows are laid out well and hold vertices.
pub record IsClosed (g : DirectedGraph) : Type 0 where
  pub layout : IsCsr g.vertex_count g.offsets g.neighbors
  pub inside : All (λ x. x < g.vertex_count) g.neighbors

-- The cycles through the edge that its owner counts.
abbrev pub owned_cycles : DirectedGraph → ℕ → ℕ → ℕ → ChangedEdgeIndex → ℕ → List (List ℕ)
owned_cycles g source target owner index most =
    paths_from (neighbors_of g) (λ x y. forbidden_before index x y owner) source most g.vertex_count
      target (target ∷ source ∷ [])

pub count_cycles_lem :
    (g : DirectedGraph) (source target owner : ℕ) (index : ChangedEdgeIndex) (most : ℕ) (s : Scan)
    → IsClosed g
    → source < g.vertex_count
    → target < g.vertex_count
    → 2 ≤ most
    → length s.counts ≡ suc most
    → Clear s.visited
    → (size : ℕ) × (count_cycles_through_edge g source target owner index most s
        ≡ ok (record {
          visited = replicate size false;
          counts = bump_all (owned_cycles g source target owner index most) s.counts;
        }))
unfolding count_cycles_through_edge
count_cycles_lem g source target owner index most s closed ls lt two l clear =
    let (size, e, room) = grow-Clear g.vertex_count s.visited clear in
    let go_on : (ltb most 2 || leb g.vertex_count target || leb g.vertex_count source) ≡ false =
      ground arith in
    let fuel : spare g.vertex_count (target ∷ source ∷ []) < g.vertex_count = omega (
      arith,
      spare-cons g.vertex_count source [] ls refl,
      spare-nil g.vertex_count,
      spare_le g.vertex_count target (source ∷ []),
    ) in
    (
      size,
      rw (
        go_on,
        e,
        marked size source target,
        search-Scans g source target owner index most size room closed.layout closed.inside
            g.vertex_count target 1 (target ∷ source ∷ []) s.counts lt fuel refl (ground arith) l,
        unmark_both size source target,
      ),
    )

-- The cycles that a call counts: none if it refuses the limit or an end of the edge.
abbrev pub counted : DirectedGraph → ℕ → ℕ → ℕ → ChangedEdgeIndex → ℕ → List (List ℕ)
counted g source target owner index most =
    if ltb most 2 || leb g.vertex_count target || leb g.vertex_count source
    then []
    else owned_cycles g source target owner index most

refused_call :
    (g : DirectedGraph) (source target owner : ℕ) (index : ChangedEdgeIndex) (most : ℕ) (s : Scan)
    → (ltb most 2 || leb g.vertex_count target || leb g.vertex_count source) ≡ true
    → count_cycles_through_edge g source target owner index most s ≡ ok s
unfolding count_cycles_through_edge
refused_call g source target owner index most s e = rw e

pub accepted_bounds :
    (n most source target : ℕ)
    → (ltb most 2 || leb n target || leb n source) ≡ false
    → (source < n) × (target < n) × (2 ≤ most)
accepted_bounds n most source target e = ground (arith, e)

pub count_cycles_returns :
    (g : DirectedGraph) (source target owner : ℕ) (index : ChangedEdgeIndex) (most : ℕ) (s : Scan)
    → IsClosed g
    → length s.counts ≡ suc most
    → Clear s.visited
    → (size : ℕ) × (count_cycles_through_edge g source target owner index most s
        ≡ ok (record {
          visited = replicate size false;
          counts = bump_all (counted g source target owner index most) s.counts;
        }))
unfolding bump_all
count_cycles_returns g source target owner index most s closed l (old, clear) =
    elim (Bool-cases (ltb most 2 || leb g.vertex_count target || leb g.vertex_count source)) [
      | inl e ↦
          let none : counted g source target owner index most ≡ [] = rw e in
          (
            old,
            refused_call g source target owner index most s e
                ∙ ap (λ (flags : List Bool). ok (record { visited = flags; counts = s.counts }))
                    clear
                ∙ ap
                    (λ (cs : List (List ℕ)).
                      ok (record { visited = replicate old false; counts = bump_all cs s.counts }))
                    (sym none),
          )
      | inr e ↦
          let bounds = accepted_bounds g.vertex_count most source target e in
          let same : counted g source target owner index most
              ≡ owned_cycles g source target owner index most =
            rw e in
          let (size, run) =
            count_cycles_lem g source target owner index most s closed bounds.0 bounds.1 bounds.2 l
              (old, clear) in
          (
            size,
            run
                ∙ ap
                    (λ (cs : List (List ℕ)).
                      ok (record { visited = replicate size false; counts = bump_all cs s.counts }))
                    (sym same),
          )
    ]

-- The neighbours of a vertex are vertices.
pub neighbors-lt :
    (g : DirectedGraph)
    → IsClosed g
    → (x y : ℕ) → x < g.vertex_count
    → y ∈ neighbors_of g x
    → y < g.vertex_count
neighbors-lt g closed x y lt m =
    All-mem (λ z. z < g.vertex_count) (neighbors_of g x) y
      (row_of-All _ g.offsets g.neighbors x closed.inside) m

-- On a graph whose rows are laid out well and hold vertices, none of them twice, for an edge between
-- two different vertices, a limit of at least 2, a bucket of 64 bits for each length up to it and a clear
-- buffer, the search returns and leaves the buffer clear. There is a list without repetitions of
-- exactly the cycles, in which no vertex stands twice, within the limit that begin with the edge and go on over no changed edge of
-- smaller id, and every bucket grows, modulo 2^64, by the number of cycles of its length.
pub count_cycles_through_edge_counts :
    (g : DirectedGraph) (source target owner : ℕ) (index : ChangedEdgeIndex) (most : ℕ) (s : Scan)
    → IsClosed g
    → ((x : ℕ) → Distinct (neighbors_of g x))
    → source < g.vertex_count
    → target < g.vertex_count
    → ¬ (source ≡ target)
    → 2 ≤ most
    → length s.counts ≡ suc most
    → ((j : ℕ) → get_or s.counts j 0 < 18446744073709551616)
    → Clear s.visited
    → (r : Scan) × (cycles : List (List ℕ)) × (count_cycles_through_edge g source target owner index
          most s
        ≡ ok r)
      × Clear r.visited
      × Distinct cycles
      × ((c : List ℕ) → c ∈ cycles → Distinct c)
      × ((c : List ℕ)
          → (c ∈ cycles)
            ↔ IsThrough
                (neighbors_of g)
                (λ x y. forbidden_before index x y owner)
                source
                most
                target
                c)
      × ((j : ℕ)
          → get_or r.counts j 0 ≡ (get_or s.counts j 0 + how_many j cycles) % 18446744073709551616)
count_cycles_through_edge_counts g source target owner index most s closed simple ls lt apart two l
      fits clear =
    let cycles = owned_cycles g source target owner index most in
    let free = λ (x y : ℕ). forbidden_before index x y owner in
    let (size, e) = count_cycles_lem g source target owner index most s closed ls lt two l clear in
    let exactly =
      paths_from_iff (neighbors_of g) free source most g.vertex_count (neighbors-lt g closed) target
        ls lt in
    let short : All (λ c. length c < length s.counts) cycles = All-of_mem _ cycles (λ c m.
      let within =
        IsThrough-length (neighbors_of g) free source most g.vertex_count (neighbors-lt g closed)
          target ls lt ((exactly c).0 m) in
      omega (arith, within, l)) in
    (
      record { visited = replicate size false; counts = bump_all cycles s.counts },
      cycles,
      e,
      (size, refl),
      Distinct-paths_from (neighbors_of g) free source most simple g.vertex_count target
          (target ∷ source ∷ []),
      (λ c m.
          Distinct-IsThrough (neighbors_of g) free source most target apart c ((exactly c).0 m)),
      exactly,
      λ j. get-bump_all cycles s.counts j short (fits j),
    )
