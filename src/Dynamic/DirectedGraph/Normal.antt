-- ===== src/Dynamic/DirectedGraph/Normal.antt =====
-- Normalized batches of changes.
use cycle_enumeration_gpu.Prelude.{
  ltb, ◌&&◌, ℕ, ◌≡◌, refl, sym, ap, ◌∙◌, Bool, true, false, ◌||◌, inl, inr, Bool-cases, List, [],
  ◌∷◌, arith, ok,
}
use cycle_enumeration_gpu.Prelude.Sort.{sort, unique, unique_after}
use cycle_enumeration_gpu.Dynamic.EdgeChange.{
  EdgeChange, EdgeBatch, same_change, change_lt, sort_and_dedup, normalize,
}
use cycle_enumeration_gpu.Dynamic.DirectedGraph.{DirectedGraph, apply_batch, has_edge, holds_change}
use cycle_enumeration_gpu.Dynamic.DirectedGraph.Laws.{
  IsValid, apply_batch_edges, edge_after, change,
}
use cycle_enumeration_gpu.Dynamic.DirectedGraph.Laws.Rows.{holds_change-sort}

same_as : (x y c : EdgeChange) → same_change x y ≡ true → same_change y c ≡ same_change x c
same_as x y c e = ground (arith, e)

absorb : (a b c : Bool) → a ≡ b → (a || c) ≡ (a || (b || c))
absorb true b c e = refl
absorb false true c e = cc
absorb false false c e = refl

holds_change-unique_after :
    (x c : EdgeChange) (xs : List EdgeChange)
    → (same_change x c || holds_change (unique_after same_change x xs) c)
      ≡ (same_change x c || holds_change xs c)
unfolding unique_after holds_change
holds_change-unique_after x c [] = refl
holds_change-unique_after x c (y ∷ ys) = elim (Bool-cases (same_change x y)) [
  | inl e ↦ rw e (
      holds_change-unique_after x c ys
      ∙ absorb (same_change x c) (same_change y c) (holds_change ys c) (sym (same_as x y c e)))
  | inr e ↦ rw e (ap (λ b. same_change x c || b) (holds_change-unique_after y c ys))
]

holds_change-unique :
    (c : EdgeChange) (xs : List EdgeChange)
    → holds_change (unique same_change xs) c ≡ holds_change xs c
unfolding unique holds_change
holds_change-unique c [] = refl
holds_change-unique c (x ∷ xs) = holds_change-unique_after x c xs

holds_change-sort_and_dedup :
    (c : EdgeChange) (xs : List EdgeChange) → holds_change (sort_and_dedup xs) c ≡ holds_change xs c
unfolding sort_and_dedup
holds_change-sort_and_dedup c xs =
    holds_change-unique c (sort change_lt xs) ∙ holds_change-sort c xs

edge_after-normalize :
    (g : DirectedGraph) (b : EdgeBatch) (s t : ℕ)
    → edge_after g (normalize b) s t ≡ edge_after g b s t
unfolding normalize
edge_after-normalize g b s t = rw (
  holds_change-sort_and_dedup (change s t) b.deletions,
  holds_change-sort_and_dedup (change s t) b.insertions,
)

-- On a well-formed graph a batch and its normal form return well-formed graphs with the same edges.
pub apply_batch-normalize :
    (g : DirectedGraph) (b : EdgeBatch)
    → IsValid g
    → (h h' : DirectedGraph) × (apply_batch g b ≡ ok h)
      × (apply_batch g (normalize b) ≡ ok h')
      × IsValid h
      × IsValid h'
      × ((s t : ℕ) → has_edge h s t ≡ has_edge h' s t)
apply_batch-normalize g b valid =
    let (h, e, _, v, edges) = apply_batch_edges g b valid in
    let (h', e', _, v', edges') = apply_batch_edges g (normalize b) valid in
    (
      h,
      h',
      e,
      e',
      v,
      v',
      λ s t.
          edges s t
          ∙ ap (λ there. ok (ltb s g.vertex_count && there)) (sym (edge_after-normalize g b s t))
          ∙ sym (edges' s t),
    )
