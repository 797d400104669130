-- ===== src/Cycles/Views.antt =====
-- The cycles of a graph view.
use cycle_enumeration_gpu.Prelude.{
  ℕ, ◌<◌, ◌≡◌, ◌∙◌, inl, inr, List, [], ◌∷◌, Option, map, flat_map, All, ◌∈◌,
}
use cycle_enumeration_gpu.Core.GraphView.{AdjacencyEntry, GraphView}
use cycle_enumeration_gpu.Core.GraphView.Rows.{outgoing_of, IsValid, row_of-All}
use cycle_enumeration_gpu.Cycles.{all_cycles, tally}
use cycle_enumeration_gpu.Cycles.Runs.{tally-flat_map, flat_map-map}

-- The successors of a vertex in a view.
abbrev pub successors : GraphView → ℕ → List ℕ
successors g v = map (λ (e : AdjacencyEntry). e.vertex) (outgoing_of g v)

-- The simple cycles of a view, each under its least vertex.
abbrev pub view_cycles : GraphView → Option ℕ → List (List ℕ)
view_cycles g limit = all_cycles (successors g) limit g.vertex_count

pub tally-successors :
    (f : ℕ → List (List ℕ)) (es : List AdjacencyEntry)
    → tally (flat_map f (map (λ (e : AdjacencyEntry). e.vertex) es))
      ≡ flat_map (λ (e : AdjacencyEntry). tally (f e.vertex)) es
tally-successors f es =
    tally-flat_map f (map (λ e. e.vertex) es) ∙ flat_map-map (λ v. tally (f v)) (λ e. e.vertex) es

vertices-lt :
    (n v : ℕ) (es : List AdjacencyEntry)
    → All (λ (e : AdjacencyEntry). e.vertex < n) es
    → v ∈ map (λ (e : AdjacencyEntry). e.vertex) es
    → v < n
vertices-lt n v [] a h = absurd h
vertices-lt n v (e ∷ es) a (inl p) = rw p a.0
vertices-lt n v (e ∷ es) a (inr m) = vertices-lt n v es a.1 m

-- The successors of a vertex of a valid view are vertices.
pub successors-lt :
    (g : GraphView)
    → IsValid g
    → (u v : ℕ) → u < g.vertex_count
    → v ∈ successors g u
    → v < g.vertex_count
successors-lt g valid u v lt h =
    vertices-lt g.vertex_count v (outgoing_of g u)
      (row_of-All _ g.outgoing_offsets g.outgoing_edges u valid.targets) h
