-- ===== src/Core/GraphView/Build/Valid.antt =====
-- The view of a graph whose edges join vertices is valid.
use cycle_enumeration_gpu.Prelude.{
  ℕ, zero, suc, ◌≤◌, ◌<◌, ◌≡◌, refl, ap, subst, ◌∙◌, Bool, inl, inr, Bool-cases, List, [], ◌∷◌,
  ◌++◌, length, length-set, length-replicate, set, replicate, get_or, get_elem?-eq-get_or, map, All,
  arith, ok, for_each,
}
use cycle_enumeration_gpu.Prelude.Sort.{sort, insert}
use cycle_enumeration_gpu.Core.Graph
use cycle_enumeration_gpu.Core.Graph.{TemporalEdge, TemporalGraph}
use cycle_enumeration_gpu.Core.GraphView.{AdjacencyEntry, GraphView}
use cycle_enumeration_gpu.Core.GraphView.Rows.{IsCsr, IsValid}
use cycle_enumeration_gpu.Core.GraphView.Csr.{offsets_from, concat, assembled-IsCsr}
use cycle_enumeration_gpu.Core.GraphView.Build.{
  order_entries, Buckets, push_at, add_edge, flatten_rows, build_graph_view, max_edge_id,
}

insert-All {ℓ} :
    {A : Type ℓ} (P : A → Type 0) (lt : A → A → Bool) (x : A) (ys : List A)
    → P x
    → All P ys
    → All P (insert lt x ys)
unfolding insert
insert-All P lt x [] p a = (p, tt)
insert-All P lt x (y ∷ ys) p a = elim (Bool-cases (lt y x)) [
  | inl before ↦ rw before (a.0, insert-All P lt x ys p a.1)
  | inr after ↦ rw after (p, a)
]

pub sort-All {ℓ} :
    {A : Type ℓ} (P : A → Type 0) (lt : A → A → Bool) (xs : List A) → All P xs → All P (sort lt xs)
unfolding sort
sort-All P lt [] a = tt
sort-All P lt (x ∷ xs) a = insert-All P lt x (sort lt xs) a.0 (sort-All P lt xs a.1)

append-All : {A : Type 0} (P : A → Type 0) (xs ys : List A) → All P xs → All P ys → All P (xs ++ ys)
append-All P [] ys a b = b
append-All P (x ∷ xs) ys a b = (a.0, append-All P xs ys a.1 b)

-- Every entry of every row satisfies the predicate.
abbrev AllRows : {A : Type 0} → (A → Type 0) → List (List A) → Type 0
AllRows P rows = All (λ r. All P r) rows

concat-All :
    {A : Type 0} (P : A → Type 0) (rows : List (List A)) → AllRows P rows → All P (concat rows)
unfolding concat
concat-All P [] a = tt
concat-All P (r ∷ rs) a = append-All P r (concat rs) a.0 (concat-All P rs a.1)

set-All :
    {A : Type 0} (P : A → Type 0) (xs : List A) (i : ℕ) (v : A)
    → All P xs
    → P v
    → All P (set xs i v)
set-All P [] i v a p = tt
set-All P (x ∷ xs) zero v a p = (p, a.1)
set-All P (x ∷ xs) (suc i) v a p = (a.0, set-All P xs i v a.1 p)

get_or-All :
    {A : Type 0} (P : A → Type 0) (xs : List A) (i : ℕ) (d : A) → All P xs → P d → P (get_or xs i d)
get_or-All P [] i d a p = p
get_or-All P (x ∷ xs) zero d a p = a.0
get_or-All P (x ∷ xs) (suc i) d a p = get_or-All P xs i d a.1 p

replicate-All : {A : Type 0} (P : A → Type 0) (n : ℕ) (v : A) → P v → All P (replicate n v)
replicate-All P zero v p = tt
replicate-All P (suc n) v p = (p, replicate-All P n v p)

sorted-AllRows :
    (P : AdjacencyEntry → Type 0) (rows : List (List AdjacencyEntry))
    → AllRows P rows
    → AllRows P (map (sort order_entries) rows)
sorted-AllRows P [] a = tt
sorted-AllRows P (r ∷ rs) a = (sort-All P order_entries r a.0, sorted-AllRows P rs a.1)

length-sorted :
    (rows : List (List AdjacencyEntry)) → length (map (sort order_entries) rows) ≡ length rows
length-sorted [] = refl
length-sorted (r ∷ rs) = ap suc (length-sorted rs)

module _ (n : ℕ) where
  -- The entry leads to a vertex.
  abbrev Leads : AdjacencyEntry → Type 0
  Leads e = e.vertex < n

  -- One row for each vertex, whose entries lead to vertices.
  record Fills (rows : List (List AdjacencyEntry)) : Type 0 where
    size : length rows ≡ n
    lead : AllRows Leads rows

  push_at-Fills :
      (rows : List (List AdjacencyEntry)) (i : ℕ) (e : AdjacencyEntry)
      → Fills rows
      → i < n
      → Leads e
      → (rows' : List (List AdjacencyEntry)) × (push_at rows i e ≡ ok rows') × Fills rows'
  push_at-Fills rows i e f h l =
      let old = get_or rows i [] in
      let new_row = old ++ e ∷ [] in
      (
        set rows i new_row,
        rw (get_elem?-eq-get_or rows i [] (omega (arith, f.size))),
        record {
          size = length-set rows i new_row ∙ f.size;
          lead =
              set-All (λ r. All Leads r) rows i new_row f.lead
                (append-All Leads old (e ∷ []) (get_or-All (λ r. All Leads r) rows i [] f.lead tt)
                  (l, tt));
        },
      )

  abbrev pub Joins : TemporalEdge → Type 0
  Joins edge = (edge.source < n) × (edge.target < n)

  add_all :
      (edges : List TemporalEdge) (b : Buckets)
      → All Joins edges
      → Fills b.outgoing_by_vertex
      → Fills b.incoming_by_vertex
      → (b' : Buckets) × (for_each add_edge edges b ≡ ok b')
        × Fills b'.outgoing_by_vertex
        × Fills b'.incoming_by_vertex
  unfolding add_edge
  add_all [] b a o i = (b, refl, o, i)
  add_all (edge ∷ edges) b a o i =
      let stamps = b.timestamps ++ edge.timestamps in
      let entry : ℕ → AdjacencyEntry = λ v. record {
        vertex = v;
        edge_id = b.edge_id;
        timestamp_begin = length b.timestamps;
        timestamp_end = length stamps;
      } in
      let (out, eo, fo) =
        push_at-Fills b.outgoing_by_vertex edge.source (entry edge.target) o a.0.0 a.0.1 in
      let (inc, ei, fi) =
        push_at-Fills b.incoming_by_vertex edge.target (entry edge.source) i a.0.1 a.0.0 in
      let next : Buckets = record {
        outgoing_by_vertex = out;
        incoming_by_vertex = inc;
        timestamps = stamps;
        edge_id = suc b.edge_id;
      } in
      let (b', e, f, f') = add_all edges next a.1 fo fi in (b', rw (eo, ei) e, f, f')

  no_rows : Fills (replicate n [])
  no_rows = record { size = length-replicate n []; lead = replicate-All (λ r. All Leads r) n [] tt }

  flatten_rows-IsValid :
      (b : Buckets)
      → Fills b.outgoing_by_vertex
      → Fills b.incoming_by_vertex
      → IsValid (flatten_rows n b)
  flatten_rows-IsValid b o i =
      let out = map (sort order_entries) b.outgoing_by_vertex in
      let inc = map (sort order_entries) b.incoming_by_vertex in
      let no = length-sorted b.outgoing_by_vertex ∙ o.size in
      let ni = length-sorted b.incoming_by_vertex ∙ i.size in
      record {
        outgoing = subst (λ k. IsCsr k (offsets_from 0 out) (concat out)) no (assembled-IsCsr out);
        incoming = subst (λ k. IsCsr k (offsets_from 0 inc) (concat inc)) ni (assembled-IsCsr inc);
        targets = concat-All Leads out (sorted-AllRows Leads b.outgoing_by_vertex o.lead);
        sources = concat-All Leads inc (sorted-AllRows Leads b.incoming_by_vertex i.lead);
      }

-- A graph of fewer than 2^32 edges, all of which join its vertices, has a valid view.
pub build_graph_view-IsValid :
    (graph : TemporalGraph)
    → All (Joins (Graph.vertex_count graph)) graph.edges
    → length graph.edges ≤ max_edge_id
    → (view : GraphView) × (build_graph_view graph ≡ ok view)
      × (view.vertex_count ≡ Graph.vertex_count graph)
      × IsValid view
unfolding build_graph_view
build_graph_view-IsValid graph joins few =
    let n = Graph.vertex_count graph in
    let empty : Buckets = record {
      outgoing_by_vertex = replicate n [];
      incoming_by_vertex = replicate n [];
      timestamps = [];
      edge_id = 0;
    } in
    let (b, e, o, i) = add_all n graph.edges empty joins (no_rows n) (no_rows n) in
    (flatten_rows n b, ground (arith, e), refl, flatten_rows-IsValid n b o i)
