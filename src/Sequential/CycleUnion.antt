-- ===== src/Sequential/CycleUnion.antt =====
-- The prefilter of temporal searches (src/sequential/cycle_union.cpp,
-- include/cycle_enum/sequential/cycle_union.hpp): the vertices reached from the first vertex and
-- from which the root is reached, over edges with an event in the window. A search queues each
-- vertex at most once, so one round for each vertex is enough fuel.
pub mod Queue
pub mod Search
pub mod Leads
pub mod Join
pub mod Correct
pub mod Mirrored
use cycle_enumeration_gpu.Prelude.{
  ℕ, zero, suc, Bool, true, false, not, ◌&&◌, List, [], ◌∷◌, ◌++◌, leb, if◌then◌else◌, length, set,
  replicate, range, Result, ok, err, ◌>>=◌, ◌>>◌, at, throw_if, for_each, out_of_range, out_of_fuel,
}
use cycle_enumeration_gpu.Prelude.Int.{ℤ}
use cycle_enumeration_gpu.Core.GraphView.{AdjacencyEntry, GraphView, outgoing_row, incoming_row}
use cycle_enumeration_gpu.Core.Timestamp.{is_empty, checked_window_end, timestamps_after}

pub record CycleUnionRequest : Type 0 where
  pub root : ℕ
  pub first_vertex : ℕ
  pub start_timestamp : ℤ
  pub window_width : ℤ

pub record CycleUnion : Type 0 where
  pub included : List Bool
  pub included_count : ℕ

abbrev pub new : ℕ → CycleUnion
new n = record { included = replicate n false; included_count = 0 }

-- Both `CycleUnion::validate_vertex` and the tests of `validate_request`.
abbrev pub ensure_below : ℕ → ℕ → Result (Unit {0})
ensure_below n v = throw_if (leb n v) out_of_range

unfoldable pub include : ℕ → CycleUnion → Result CycleUnion
include v u = do
  ensure_below (length u.included) v
  old ← at u.included v
  if old
      then ok u
      else ok (record { included = set u.included v true; included_count = suc u.included_count })

unfoldable pub contains : CycleUnion → ℕ → Result Bool
contains u v = do ensure_below (length u.included) v; at u.included v

-- The vertices from `i` on whose flag is set.
flagged : ℕ → List Bool → List ℕ
flagged i [] = []
flagged i (b ∷ bs) = if b then i ∷ flagged (suc i) bs else flagged (suc i) bs

pub included_vertices : CycleUnion → List ℕ
unfolding flagged
included_vertices u = flagged 0 u.included

unfoldable pub validate_request : GraphView → CycleUnionRequest → Result (Unit {0})
validate_request g r = do
  checked_window_end r.start_timestamp r.window_width >>= λ window_end. ok tt
  ensure_below g.vertex_count r.root
  ensure_below g.vertex_count r.first_vertex

pub record Reachable : Type 0 where
  pub reachable : List Bool
  pub queue : List ℕ

module _ (g : GraphView) (start window_end : ℤ) where
  unfoldable pub edge_has_event_after_start : AdjacencyEntry → Result Bool
  edge_has_event_after_start edge = do
    r ← timestamps_after g.timestamps edge.timestamp_begin edge.timestamp_end start window_end
    ok (not (is_empty r))

  pub visit_edge : AdjacencyEntry → Reachable → Result Reachable
  unfolding edge_has_event_after_start
  visit_edge edge s = do
    event ← edge_has_event_after_start edge
    if not event then ok s else (do
      seen ← at s.reachable edge.vertex
      if seen
          then ok s
          else ok (record {
            reachable = set s.reachable edge.vertex true;
            queue = s.queue ++ edge.vertex ∷ [];
          }))

  -- The `while` loop over the queue, along the rows of one of the two pairs of arrays.
  pub reach_loop : (ℕ → Result (List AdjacencyEntry)) → ℕ → Reachable → Result (List Bool)
  unfolding visit_edge
  reach_loop row_at zero s = elim s.queue [ [] ↦ ok s.reachable | _ ∷ _ ↦ err out_of_fuel ]
  reach_loop row_at (suc fuel) s = elim s.queue [
    | [] ↦ ok s.reachable
    | current ∷ rest ↦ row_at current >>= λ edges.
        for_each visit_edge edges (record s { queue = rest }) >>= λ t. reach_loop row_at fuel t
  ]

  -- A search from one vertex.
  pub reach_from : (ℕ → Result (List AdjacencyEntry)) → ℕ → Result (List Bool)
  unfolding reach_loop
  reach_from row_at v =
      reach_loop row_at g.vertex_count
        (record { reachable = set (replicate g.vertex_count false) v true; queue = v ∷ [] })

  pub forward_reachable : ℕ → Result (List Bool)
  unfolding reach_from
  forward_reachable first = reach_from (outgoing_row g) first

  pub reverse_reachable_to_root : ℕ → Result (List Bool)
  unfolding reach_from
  reverse_reachable_to_root root = reach_from (incoming_row g) root

-- One round of the loop that joins the two searches.
pub include_if_both : List Bool → List Bool → ℕ → CycleUnion → Result CycleUnion
unfolding include
include_if_both forward reverse v u = do
  f ← at forward v
  r ← at reverse v
  if f && r then include v u else ok u

unfoldable pub compute_temporal_cycle_union : GraphView → CycleUnionRequest → Result CycleUnion
unfolding validate_request forward_reachable reverse_reachable_to_root include_if_both
compute_temporal_cycle_union g r = do
  validate_request g r
  window_end ← checked_window_end r.start_timestamp r.window_width
  forward ← forward_reachable g r.start_timestamp window_end r.first_vertex
  reverse ← reverse_reachable_to_root g r.start_timestamp window_end r.root
  for_each (include_if_both forward reverse) (range g.vertex_count) (new g.vertex_count)
