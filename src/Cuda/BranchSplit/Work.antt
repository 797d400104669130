-- ===== src/Cuda/BranchSplit/Work.antt =====
-- The items that a split search appends, and the test that a prefix has work.
use cycle_enumeration_gpu.Prelude.{
  ℕ, ◌<◌, ◌≡◌, refl, sym, ap, ◌∙◌, ◌&&◌, ◌||◌, List, [], ◌∷◌, ◌++◌, append_assoc, append-nil,
  Option, leb, ◌==◌, length, mem, map, flat_map, All, inl, inr, Bool-cases, ok,
}
use cycle_enumeration_gpu.Core.Histogram.{CycleHistogram}
use cycle_enumeration_gpu.Core.GraphView.{AdjacencyEntry, GraphView}
use cycle_enumeration_gpu.Core.GraphView.Rows.{IsValid, outgoing_of, row_lem, row_of-All}
use cycle_enumeration_gpu.Cycles.{at_limit}
use cycle_enumeration_gpu.Cycles.Marks.{marks, get-marks}
use cycle_enumeration_gpu.Cycles.Views.{successors}
use cycle_enumeration_gpu.Cycles.Runs.{after_all}
use cycle_enumeration_gpu.Cuda.BranchSplit.{
  SplitWorkItem, Expansion, edges_have_work, prefix_has_work,
}
use cycle_enumeration_gpu.Cuda.BranchSplit.Parts.{goes_on_any}

abbrev pub item : List ℕ → SplitWorkItem
item p = record { prefix = p }

-- The state of a search that is at the end of `path`.
abbrev pub expanding : ℕ → List ℕ → CycleHistogram → List SplitWorkItem → Expansion
expanding n path h items = record {
  path = path;
  visited = marks n path;
  out = record { items = items; closed = h };
}

pub map-append : (xs ys : List (List ℕ)) → map item (xs ++ ys) ≡ map item xs ++ map item ys
map-append [] ys = refl
map-append (x ∷ xs) ys = ap (λ zs. item x ∷ zs) (map-append xs ys)

-- Items that each element appends are those of the list.
pub after_all-items :
    {A : Type 0} (f : A → List (List ℕ)) (xs : List A) (items : List SplitWorkItem)
    → after_all (λ x c. c ++ map item (f x)) xs items ≡ items ++ map item (flat_map f xs)
after_all-items f [] items = sym (append-nil items)
after_all-items f (x ∷ xs) items =
    after_all-items f xs (items ++ map item (f x))
    ∙ append_assoc items (map item (f x)) (map item (flat_map f xs))
    ∙ ap (λ zs. items ++ zs) (sym (map-append (f x) (flat_map f xs)))

module _ (g : GraphView) (limit : Option ℕ) (cutoff root : ℕ) where
  edges_have_work_lem :
      (path : List ℕ) (es : List AdjacencyEntry)
      → All (λ (e : AdjacencyEntry). e.vertex < g.vertex_count) es
      → edges_have_work g limit root path (marks g.vertex_count path) es
        ≡ ok (
            goes_on_any
              (successors g)
              limit
              cutoff
              root
              path
              (map (λ (e : AdjacencyEntry). e.vertex) es))
  unfolding edges_have_work
  edges_have_work_lem path [] a = refl
  edges_have_work_lem path (e ∷ es) a =
      elim (Bool-cases (e.vertex == root && leb 2 (length path))) [
        | inl closes ↦ rw closes refl
        | inr open_ ↦ rw open_ (elim (Bool-cases (leb e.vertex root)) [
          | inl below ↦ rw below (edges_have_work_lem path es a.1)
          | inr above ↦
              rw (above, get-marks g.vertex_count e.vertex path a.0)
                (elim (Bool-cases (mem e.vertex path || at_limit limit (length path))) [
                  | inl stop ↦ rw stop (edges_have_work_lem path es a.1)
                  | inr go ↦ rw go refl
                ])
        ])
      ]

  pub prefix_has_work_lem :
      (v : ℕ) (p : List ℕ)
      → IsValid g
      → v < g.vertex_count
      → prefix_has_work g limit root (v ∷ p) (marks g.vertex_count (v ∷ p))
        ≡ ok (goes_on_any (successors g) limit cutoff root (v ∷ p) (successors g v))
  unfolding prefix_has_work
  prefix_has_work_lem v p valid lt = rw (row_lem valid.outgoing v lt) (
      edges_have_work_lem (v ∷ p) (outgoing_of g v)
        (row_of-All _ g.outgoing_offsets g.outgoing_edges v valid.targets))
