-- ===== src/Dynamic/DirectedGraph/Laws.antt =====
-- What a batch of changes does to the edges of a graph.
pub mod Rows
pub mod Tidy
use cycle_enumeration_gpu.Prelude.{
  ℕ, zero, suc, ◌+◌, ◌≤◌, ◌<◌, ◌≡◌, refl, sym, ap, ◌∙◌, Bool, true, false, not, ◌&&◌, ◌||◌, inl,
  inr, Bool-cases, List, [], ◌∷◌, ◌++◌, leb, ltb, ◌==◌, if◌then◌else◌, length, length-set,
  length-replicate, set, replicate, range, range_from, map, All, All-range, All-of_mem, All-mem,
  get_elem?, get_or, some, arith, Result, ok, err, ◌>>=◌, at,
}
use cycle_enumeration_gpu.Prelude.Sort.{sort, unique}
use cycle_enumeration_gpu.Core.GraphView.Rows.{IsCsr, row_of, row_lem}
use cycle_enumeration_gpu.Core.GraphView.Csr.{
  offsets_from, concat, collect, assembled-IsCsr, row_of-assembled, collect-ok,
}
use cycle_enumeration_gpu.Core.GraphView.{row}
use cycle_enumeration_gpu.Dynamic.EdgeChange.{EdgeChange, EdgeBatch, change_lt}
use cycle_enumeration_gpu.Dynamic.DirectedGraph.{
  DirectedGraph, assemble, tidy, row_at, touch, holds_change, holds_vertex, kept, added, new_row,
  apply_batch, has_edge,
}
use Tidy.{Ascending, Ascending-tidy}
use Rows.{
  holds_vertex-tidy, holds_vertex-append, holds_vertex-kept, holds_vertex-added, holds_change-sort,
  get-touch, touches, holds_change-untouched,
}

length-map-range_from {ℓ} : {A : Type ℓ} (f : ℕ → A) (a n : ℕ) → length (map f (range_from a n)) ≡ n
length-map-range_from f a zero = refl
length-map-range_from f a (suc n) = ap suc (length-map-range_from f (suc a) n)

get_or-map-range_from {ℓ} :
    {A : Type ℓ} (f : ℕ → A) (d : A) (a n v : ℕ)
    → v < n
    → get_or (map f (range_from a n)) v d ≡ f (a + v)
get_or-map-range_from f d a zero v h = absurd (omega arith)
get_or-map-range_from f d a (suc n) zero h = let e : a + 0 ≡ a = omega arith in rw e
get_or-map-range_from f d a (suc n) (suc v) h =
    let e : a + suc v ≡ suc a + v = omega arith in
    rw e (get_or-map-range_from f d (suc a) n v (omega arith))

get-replicate : (n s : ℕ) → s < n → get_elem? (replicate n false) s ≡ some false
get-replicate zero s h = absurd (omega arith)
get-replicate (suc n) zero h = refl
get-replicate (suc n) (suc s) h = get-replicate n s (omega arith)

length-touch :
    (n : ℕ) (cs : List EdgeChange) (flags : List Bool) → length (touch n cs flags) ≡ length flags
unfolding touch
length-touch n [] flags = refl
length-touch n (c ∷ cs) flags = elim (Bool-cases (ltb c.source n)) [
  | inl e ↦ rw e (length-touch n cs (set flags c.source true) ∙ length-set flags c.source true)
  | inr e ↦ rw e (length-touch n cs flags)
]

-- A change of the source and the target.
abbrev pub change : ℕ → ℕ → EdgeChange
change s t = record { source = s; target = t }

-- The row of a vertex before the batch.
abbrev old_row : DirectedGraph → ℕ → List ℕ
old_row g s = row_of g.offsets g.neighbors s

abbrev rebuilt : DirectedGraph → EdgeBatch → ℕ → List ℕ
rebuilt g b s = tidy (kept (sort change_lt b.deletions) s (old_row g s) ++ added b.insertions s)

abbrev row_after : DirectedGraph → EdgeBatch → ℕ → List ℕ
row_after g b s =
    if touches s b.insertions || (touches s b.deletions || false)
    then rebuilt g b s
    else old_row g s

abbrev flags_of : DirectedGraph → EdgeBatch → List Bool
flags_of g b =
    touch g.vertex_count b.insertions
      (touch g.vertex_count b.deletions (replicate g.vertex_count false))

get-flags :
    (g : DirectedGraph) (b : EdgeBatch) (s : ℕ)
    → s < g.vertex_count
    → get_elem? (flags_of g b) s ≡ some (touches s b.insertions || (touches s b.deletions || false))
get-flags g b s h =
    get-touch g.vertex_count b.insertions _ s _
      (length-touch g.vertex_count b.deletions _ ∙ length-replicate g.vertex_count false) h
      (get-touch g.vertex_count b.deletions _ s false (length-replicate g.vertex_count false) h
        (get-replicate g.vertex_count s h))

-- The rows are laid out well, and each ascends, as a binary search needs.
pub record IsValid (g : DirectedGraph) : Type 0 where
  pub layout : IsCsr g.vertex_count g.offsets g.neighbors
  pub rows : (s : ℕ) → s < g.vertex_count → Ascending (row_of g.offsets g.neighbors s)

if-ok : (c : Bool) (x y : List ℕ) → ok (if c then x else y) ≡ (if c then ok x else ok y)
if-ok true x y = refl
if-ok false x y = refl

new_row_lem :
    (g : DirectedGraph) (b : EdgeBatch) (s : ℕ)
    → IsValid g
    → s < g.vertex_count
    → new_row g b (flags_of g b) s ≡ ok (row_after g b s)
unfolding new_row row_at
new_row_lem g b s c h =
    rw (get-flags g b s h, row_lem c.layout s h)
      (sym (
        if-ok (touches s b.insertions || (touches s b.deletions || false)) (rebuilt g b s)
          (old_row g s)))

apply_batch_lem :
    (g : DirectedGraph) (b : EdgeBatch)
    → IsValid g
    → apply_batch g b ≡ ok (assemble (map (row_after g b) (range g.vertex_count)))
unfolding apply_batch
apply_batch_lem g b c = rw (
    collect-ok (new_row g b (flags_of g b)) (row_after g b) (range g.vertex_count) (
      All-of_mem _ _ (λ s m.
        new_row_lem g b s c (All-mem (λ v. v < g.vertex_count) _ s (All-range g.vertex_count) m))))

-- Whether an edge is there after the batch.
abbrev pub edge_after : DirectedGraph → EdgeBatch → ℕ → ℕ → Bool
edge_after g b s t =
    (holds_vertex (old_row g s) t && not (holds_change b.deletions (change s t)))
    || holds_change b.insertions (change s t)

holds_vertex-rebuilt :
    (g : DirectedGraph) (b : EdgeBatch) (s t : ℕ)
    → holds_vertex (rebuilt g b s) t ≡ edge_after g b s t
holds_vertex-rebuilt g b s t =
    holds_vertex-tidy t _
    ∙ (holds_vertex-append t (kept (sort change_lt b.deletions) s (old_row g s))
          (added b.insertions s)
        ∙ rw (
          holds_vertex-kept (sort change_lt b.deletions) s t (old_row g s),
          holds_vertex-added b.insertions s t,
          holds_change-sort (change s t) b.deletions,
        ))

or-false : (a b : Bool) → (a || (b || false)) ≡ false → (a ≡ false) × (b ≡ false)
or-false true b e = absurd (ground (arith, e))
or-false false true e = absurd (ground (arith, e))
or-false false false e = (refl, refl)

and_or : (a : Bool) → a ≡ (a && true || false)
and_or true = refl
and_or false = refl

holds_vertex-row_after :
    (g : DirectedGraph) (b : EdgeBatch) (s t : ℕ)
    → holds_vertex (row_after g b s) t ≡ edge_after g b s t
holds_vertex-row_after g b s t =
    elim (Bool-cases (touches s b.insertions || (touches s b.deletions || false))) [
      | inl e ↦ rw e (holds_vertex-rebuilt g b s t)
      | inr e ↦
          let n = or-false (touches s b.insertions) (touches s b.deletions) e in
          rw
            (
              e,
              holds_change-untouched b.insertions s t n.0,
              holds_change-untouched b.deletions s t n.1,
            )
            (and_or (holds_vertex (old_row g s) t))
    ]

row-assembled :
    (f : ℕ → List ℕ) (n s : ℕ)
    → s < n
    → row_of (offsets_from 0 (map f (range n))) (concat (map f (range n))) s ≡ f s
row-assembled f n s h =
    row_of-assembled (map f (range n)) s (omega (arith, length-map-range_from f 0 n))
    ∙ get_or-map-range_from f [] 0 n s h
    ∙ ap f (omega arith)

has_edge-assemble :
    (f : ℕ → List ℕ) (n s t : ℕ)
    → s < n
    → has_edge (assemble (map f (range n))) s t ≡ ok (holds_vertex (f s) t)
unfolding has_edge assemble row_at
has_edge-assemble f n s t h =
    let rows = map f (range n) in
    let size : length rows ≡ n = length-map-range_from f 0 n in
    let inside : leb (length rows) s ≡ false = ground (arith, size) in
    let found : row (offsets_from 0 rows) (concat rows) s ≡ ok (f s) =
      row_lem (assembled-IsCsr rows) s (omega (arith, size)) ∙ ap ok (row-assembled f n s h) in
    let at_row : row_at (assemble rows) s ≡ ok (f s) = found in rw (inside, at_row)

-- A source that is no vertex has no edges.
pub has_edge-rows :
    (f : ℕ → List ℕ) (n s t : ℕ)
    → has_edge (assemble (map f (range n))) s t ≡ ok (ltb s n && holds_vertex (f s) t)
unfolding has_edge assemble
has_edge-rows f n s t = elim (Bool-cases (ltb s n)) [
  | inl e ↦ rw e (has_edge-assemble f n s t (ground (arith, e)))
  | inr e ↦
      let outside : leb (length (map f (range n))) s ≡ true =
        ground (arith, length-map-range_from f 0 n, e) in
      rw (e, outside)
]

Ascending-row_after :
    (g : DirectedGraph) (b : EdgeBatch) (s : ℕ)
    → Ascending (old_row g s)
    → Ascending (row_after g b s)
Ascending-row_after g b s a =
    elim (Bool-cases (touches s b.insertions || (touches s b.deletions || false))) [
      | inl e ↦ rw e (Ascending-tidy _)
      | inr e ↦ rw e a
    ]

pub assemble-IsValid :
    (f : ℕ → List ℕ) (n : ℕ)
    → ((s : ℕ) → s < n → Ascending (f s))
    → IsValid (assemble (map f (range n)))
unfolding assemble
assemble-IsValid f n a = record {
  layout = assembled-IsCsr (map f (range n));
  rows = λ s h.
      let k : s < n = omega (arith, length-map-range_from f 0 n) in
      rw (row-assembled f n s k) (a s k);
}

-- A batch applied to a well-formed graph returns a well-formed graph of as many vertices, in which
-- an edge is there exactly if its source is a vertex and it was inserted, or was there before and
-- was not deleted.
pub apply_batch_edges :
    (g : DirectedGraph) (b : EdgeBatch)
    → IsValid g
    → (h : DirectedGraph) × (apply_batch g b ≡ ok h)
      × (h.vertex_count ≡ g.vertex_count)
      × IsValid h
      × ((s t : ℕ) → has_edge h s t ≡ ok (ltb s g.vertex_count && edge_after g b s t))
apply_batch_edges g b c = (
  assemble (map (row_after g b) (range g.vertex_count)),
  apply_batch_lem g b c,
  unfold assemble in length-map-range_from (row_after g b) 0 g.vertex_count,
  assemble-IsValid (row_after g b) g.vertex_count (λ s k. Ascending-row_after g b s (c.rows s k)),
  λ s t.
      has_edge-rows (row_after g b) g.vertex_count s t
      ∙ ap (λ there. ok (ltb s g.vertex_count && there)) (holds_vertex-row_after g b s t),
)
