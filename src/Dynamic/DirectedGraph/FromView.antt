-- ===== src/Dynamic/DirectedGraph/FromView.antt =====
-- The static graph that is built from a view.
use cycle_enumeration_gpu.Prelude.{
  ltb, ◌&&◌, ℕ, ◌<◌, ◌≡◌, refl, ap, ◌∙◌, List, [], ◌∷◌, range, map, All-range, All-of_mem, All-mem,
  Result, ok, ◌>>=◌,
}
use cycle_enumeration_gpu.Core.GraphView.{AdjacencyEntry, GraphView, outgoing_row, row}
use cycle_enumeration_gpu.Core.GraphView.Rows
use cycle_enumeration_gpu.Core.GraphView.Rows.{row_lem, outgoing_of}
use cycle_enumeration_gpu.Core.GraphView.Csr.{collect-ok}
use cycle_enumeration_gpu.Cycles.Views.{successors}
use cycle_enumeration_gpu.Dynamic.DirectedGraph.{
  DirectedGraph, assemble, tidy, build_from_lists, build_directed_graph, has_edge, holds_vertex,
}
use cycle_enumeration_gpu.Dynamic.DirectedGraph.Laws.{IsValid, has_edge-rows, assemble-IsValid}
use cycle_enumeration_gpu.Dynamic.DirectedGraph.Laws.Rows.{holds_vertex-tidy}
use cycle_enumeration_gpu.Dynamic.DirectedGraph.Laws.Tidy.{Ascending-tidy}

map-map {ℓ κ μ} :
    {A : Type ℓ} {B : Type κ} {C : Type μ} (f : B → C) (h : A → B) (xs : List A)
    → map f (map h xs) ≡ map (λ x. f (h x)) xs
map-map f h [] = refl
map-map f h (x ∷ xs) = ap (λ ys. f (h x) ∷ ys) (map-map f h xs)

-- The targets of the edges out of a vertex, with the first of equal ones kept.
abbrev targets : GraphView → ℕ → List ℕ
targets g v = tidy (successors g v)

abbrev neighbors_of : GraphView → ℕ → Result (List ℕ)
neighbors_of g v = outgoing_row g v >>= λ es. ok (map (λ (e : AdjacencyEntry). e.vertex) es)

neighbors_of_lem :
    (g : GraphView)
    → Rows.IsValid g
    → (v : ℕ) → v < g.vertex_count
    → neighbors_of g v ≡ ok (successors g v)
unfolding row
neighbors_of_lem g valid v h =
    let e : outgoing_row g v ≡ ok (outgoing_of g v) = row_lem valid.outgoing v h in rw e

build_directed_graph_lem :
    (g : GraphView)
    → Rows.IsValid g
    → build_directed_graph g ≡ ok (assemble (map (targets g) (range g.vertex_count)))
unfolding build_directed_graph build_from_lists
build_directed_graph_lem g valid =
    rw
      (collect-ok _ (successors g) (range g.vertex_count) (
        All-of_mem (λ v. neighbors_of g v ≡ ok (successors g v)) _
          (λ v m.
            neighbors_of_lem g valid v
              (All-mem (λ w. w < g.vertex_count) _ v (All-range g.vertex_count) m))))
      (ap (λ rows. ok (assemble rows)) (map-map tidy (successors g) (range g.vertex_count)))

-- The graph built from a valid view is well formed, and has the edges of the view
-- whose source is a vertex, and no others.
pub build_directed_graph_edges :
    (g : GraphView)
    → Rows.IsValid g
    → (h : DirectedGraph) × (build_directed_graph g ≡ ok h)
      × IsValid h
      × ((s t : ℕ) → has_edge h s t ≡ ok (ltb s g.vertex_count && holds_vertex (successors g s) t))
build_directed_graph_edges g valid = (
  assemble (map (targets g) (range g.vertex_count)),
  build_directed_graph_lem g valid,
  assemble-IsValid (targets g) g.vertex_count (λ s k. Ascending-tidy (successors g s)),
  λ s t.
      has_edge-rows (targets g) g.vertex_count s t
      ∙ ap (λ there. ok (ltb s g.vertex_count && there)) (holds_vertex-tidy t (successors g s)),
)
