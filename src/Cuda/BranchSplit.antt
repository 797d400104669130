-- ===== src/Cuda/BranchSplit.antt =====
-- The split of the static search into work items for the device (src/cuda/cuda_branch_split.cpp,
-- include/cycle_enum/cuda/cuda_branch_split.hpp). `expand` recurs on fuel, one unit for each vertex
-- that it can put on the path. A path has its back at the head of the list, here as in the baseline.
pub mod Parts
pub mod Whole
pub mod Work
pub mod Runs
pub mod Counts
use cycle_enumeration_gpu.Prelude.{
  ℕ, zero, suc, Bool, true, false, ◌&&◌, ◌||◌, List, [], ◌∷◌, ◌++◌, Option, none, some, ltb, leb,
  ◌==◌, if◌then◌else◌, length, tail, set, replicate, range, Result, ok, err, ◌>>=◌, ◌>>◌, at,
  throw_if, for_each, invalid_argument, out_of_fuel,
}
use cycle_enumeration_gpu.Core.Histogram.{CycleHistogram, no_cycles, increment}
use cycle_enumeration_gpu.Core.GraphView.{AdjacencyEntry, GraphView, outgoing_row}
use cycle_enumeration_gpu.Cycles.{at_limit, cycle_length}

pub record SplitWorkItem : Type 0 where
  pub prefix : List ℕ

pub record BranchSplit : Type 0 where
  pub items : List SplitWorkItem
  pub closed : CycleHistogram

-- What the nested calls of `expand` share.
pub record Expansion : Type 0 where
  pub path : List ℕ
  pub visited : List Bool
  pub out : BranchSplit

module _ (g : GraphView) (limit : Option ℕ) (root : ℕ) where
  -- The loop over the edges of the last vertex, which stops at the first that is worth going.
  pub edges_have_work : List ℕ → List Bool → List AdjacencyEntry → Result Bool
  edges_have_work path visited [] = ok false
  edges_have_work path visited (edge ∷ edges) =
      let next = edge.vertex in
      let rest = edges_have_work path visited edges in
      if next == root && leb 2 (length path) then ok true else (do
        seen ← if leb next root then ok true else at visited next
        if seen || at_limit limit (length path) then rest else ok true)

  pub prefix_has_work : List ℕ → List Bool → Result Bool
  unfolding edges_have_work
  prefix_has_work path visited = do
    current ← at path 0
    edges ← outgoing_row g current
    edges_have_work path visited edges

  -- `out.items.push_back(SplitWorkItem{path})`
  abbrev pub emit : Expansion → Expansion
  emit s = record s {
    out = record { items = s.out.items ++ record { prefix = s.path } ∷ []; closed = s.out.closed };
  }

  -- `out.closed.increment(path.size())`
  abbrev close_here : Expansion → Result Expansion
  close_here s = do
    closed ← increment (cycle_length s.path) 1 s.out.closed
    ok (record s { out = record { items = s.out.items; closed = closed } })

  -- One round of the loop over the edges of the last vertex; `call` is `expand`.
  pub expand_edge : (Expansion → Result Expansion) → AdjacencyEntry → Expansion → Result Expansion
  expand_edge call edge s =
      let next = edge.vertex in
      if next == root && leb 2 (length s.path) then close_here s else (do
        seen ← if leb next root then ok true else at s.visited next
        if seen || at_limit limit (length s.path) then ok s else (do
          t ← call (record s { visited = set s.visited next true; path = next ∷ s.path })
          ok (record t { path = tail t.path; visited = set t.visited next false })))

  pub expand : ℕ → ℕ → Expansion → Result Expansion
  unfolding prefix_has_work expand_edge
  expand zero cutoff s = err out_of_fuel
  expand (suc fuel) cutoff s =
      let deeper = expand fuel cutoff in
      if length s.path == cutoff
      then (do work ← prefix_has_work s.path s.visited; ok (if work then emit s else s))
      else (do
        current ← at s.path 0
        edges ← outgoing_row g current
        for_each (expand_edge deeper) edges s)

-- `max_cycle_length.has_value() && *max_cycle_length < 2`
abbrev pub refuses : Option ℕ → Bool
refuses none = false
refuses (some most) = ltb most 2

-- One round of the loop over the roots.
pub split_root : GraphView → Option ℕ → ℕ → ℕ → BranchSplit → Result BranchSplit
unfolding expand
split_root g limit cutoff root out = do
  t ← expand g limit root g.vertex_count cutoff (record {
    path = root ∷ [];
    visited = set (replicate g.vertex_count false) root true;
    out = out;
  })
  ok t.out

unfoldable pub split_static_search : GraphView → ℕ → Option ℕ → Result BranchSplit
unfolding split_root
split_static_search g cutoff limit = do
  throw_if (ltb cutoff 2) invalid_argument
  throw_if (refuses limit) invalid_argument
  for_each (split_root g limit cutoff) (range g.vertex_count)
      (record { items = []; closed = no_cycles })
