-- ===== src/Cuda/TimestampGroups/Build.antt =====
-- The groups of all edges, laid one behind the other.
use cycle_enumeration_gpu.Prelude.{
  ℕ, suc, ◌+◌, ◌≤◌, ◌≡◌, refl, sym, ap, ◌∙◌, List, [], ◌∷◌, ◌++◌, append_assoc, append-nil, length,
  length-append, map, arith, All, ok, for_each,
}
use cycle_enumeration_gpu.Prelude.Int.{ℤ}
use cycle_enumeration_gpu.Core.GraphView.{AdjacencyEntry, GraphView}
use cycle_enumeration_gpu.Core.GraphView.Csr.{offsets_from, concat}
use cycle_enumeration_gpu.Cuda.TimestampGroups.{
  TimestampGroups, group_edge, build_outgoing_timestamp_groups,
}
use cycle_enumeration_gpu.Cuda.TimestampGroups.Decode.{
  Group, Groups, timestamps_of, with_row, group_edge_lem,
}

-- The three vectors that hold rows of groups.
abbrev pub layout : List (List Group) → TimestampGroups
layout rows = record {
  edge_group_offsets = offsets_from 0 rows;
  group_values = map (λ (g : Group). g.0) (concat rows);
  group_counts = map (λ (g : Group). g.1) (concat rows);
}

-- One row for each edge, which stands for its timestamps.
abbrev pub StandFor : List ℤ → List (List Group) → List AdjacencyEntry → Type 0
StandFor ts [] [] = Unit {0}
StandFor ts [] (e ∷ es) = ⊥
StandFor ts (row ∷ rows) [] = ⊥
StandFor ts (row ∷ rows) (e ∷ es) = Groups row (timestamps_of ts e) × StandFor ts rows es

map-append :
    {B : Type 0} (f : Group → B) (xs ys : List Group) → map f (xs ++ ys) ≡ map f xs ++ map f ys
map-append f [] ys = refl
map-append f (x ∷ xs) ys = ap (λ zs. f x ∷ zs) (map-append f xs ys)

length-map_group : {B : Type 0} (f : Group → B) (xs : List Group) → length (map f xs) ≡ length xs
length-map_group f [] = refl
length-map_group f (x ∷ xs) = ap suc (length-map_group f xs)

concat-append :
    (rows : List (List Group)) (row : List Group) → concat (rows ++ row ∷ []) ≡ concat rows ++ row
unfolding concat
concat-append [] row = append-nil row
concat-append (r ∷ rows) row =
    ap (λ xs. r ++ xs) (concat-append rows row) ∙ sym (append_assoc r (concat rows) row)

offsets_from-append :
    (a : ℕ) (rows : List (List Group)) (row : List Group)
    → offsets_from a (rows ++ row ∷ [])
      ≡ offsets_from a rows ++ (a + length (concat rows) + length row) ∷ []
unfolding offsets_from concat
offsets_from-append a [] row = ap (λ n. a ∷ n ∷ []) (omega arith)
offsets_from-append a (r ∷ rows) row =
    ap (λ xs. a ∷ xs)
      (offsets_from-append (a + length r) rows row
        ∙ ap (λ n. offsets_from (a + length r) rows ++ n ∷ [])
            (omega (arith, length-append r (concat rows))))

-- A row appended to a layout is a layout of one more row.
layout-append :
    (rows : List (List Group)) (row : List Group)
    → ◌≡◌ {A = TimestampGroups}
        (record (with_row [] (layout rows) row) {
          edge_group_offsets =
              offsets_from 0 rows
              ++ length (map (λ (g : Group). g.0) (concat rows) ++ map (λ (g : Group). g.0) row)
                ∷ [];
        })
        (layout (rows ++ row ∷ []))
layout-append rows row =
    let behind : length (map (λ (g : Group). g.0) (concat rows) ++ map (λ (g : Group). g.0) row)
        ≡ 0 + length (concat rows) + length row =
      omega (
        arith,
        length-append (map (λ (g : Group). g.0) (concat rows)) (map (λ (g : Group). g.0) row),
        length-map_group (λ (g : Group). g.0) (concat rows),
        length-map_group (λ (g : Group). g.0) row,
      ) in
    rw
      (
        behind,
        offsets_from-append 0 rows row,
        concat-append rows row,
        map-append (λ (g : Group). g.0) (concat rows) row,
        map-append (λ (g : Group). g.1) (concat rows) row,
      )
      refl

group_edges_lem :
    (ts : List ℤ) (es : List AdjacencyEntry) (rows : List (List Group))
    → All (λ (e : AdjacencyEntry). e.timestamp_end ≤ length ts) es
    → (more : List (List Group)) × (for_each (group_edge ts) es (layout rows)
        ≡ ok (layout (rows ++ more)))
      × StandFor ts more es
group_edges_lem ts [] rows a =
    ([], ap (λ (r : List (List Group)). ok (layout r)) (sym (append-nil rows)), tt)
group_edges_lem ts (e ∷ es) rows a =
    let (row, run, good) = group_edge_lem ts e (layout rows) a.0 in
    let (more, rest, stand) = group_edges_lem ts es (rows ++ row ∷ []) a.1 in
    (
      row ∷ more,
      rw (run, layout-append rows row)
          (rest
            ∙ ap (λ (r : List (List Group)). ok (layout r)) (append_assoc rows (row ∷ []) more)),
      (good, stand),
    )

-- Where the timestamps of the edges are in range, the grouping returns. Its offsets, values and counts
-- lay out one row of groups for each edge: a row expands to the timestamps of its edge, in order, no
-- group is empty, and neighbouring groups of a row have different values.
pub build_outgoing_timestamp_groups_lem :
    (g : GraphView)
    → All (λ (e : AdjacencyEntry). e.timestamp_end ≤ length g.timestamps) g.outgoing_edges
    → (rows : List (List Group)) × (build_outgoing_timestamp_groups g ≡ ok (layout rows))
      × StandFor g.timestamps rows g.outgoing_edges
unfolding build_outgoing_timestamp_groups offsets_from concat
build_outgoing_timestamp_groups_lem g a = group_edges_lem g.timestamps g.outgoing_edges [] a
