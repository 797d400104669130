-- ===== src/Cuda/TimestampGroups.antt =====
-- Duplicate timestamps of an edge, grouped for the kernels (src/cuda/cuda_timestamp_groups.cpp,
-- include/cycle_enum/cuda/cuda_timestamp_groups.hpp). Each round of the outer loop takes at least one
-- timestamp, so one unit of fuel for each timestamp of the edge is enough.
pub mod Decode
pub mod Build
use cycle_enumeration_gpu.Prelude.{
  ℕ, zero, suc, ◌+◌, ◌-◌, List, [], ◌∷◌, ◌++◌, ltb, if◌then◌else◌, length, Result, ok, err, ◌>>=◌,
  at, for_each, out_of_fuel,
}
use cycle_enumeration_gpu.Prelude.Int.{ℤ, eqb_ℤ}
use cycle_enumeration_gpu.Core.GraphView.{AdjacencyEntry, GraphView}

pub record TimestampGroups : Type 0 where
  pub edge_group_offsets : List ℕ
  pub group_values : List ℤ
  pub group_counts : List ℕ

module _ (timestamps : List ℤ) where
  -- The inner loop: how many of the `n` timestamps from `offset` on have the value.
  pub equal_run : ℤ → ℕ → ℕ → Result ℕ
  equal_run value offset zero = ok 0
  equal_run value offset (suc n) =
      let rest = equal_run value (suc offset) n in
      at timestamps offset >>= λ t.
      if eqb_ℤ t value then rest >>= (λ count. ok (suc count)) else ok 0

  pub group_loop : ℕ → ℕ → ℕ → TimestampGroups → Result TimestampGroups
  unfolding equal_run
  group_loop zero offset end groups = if ltb offset end then err out_of_fuel else ok groups
  group_loop (suc fuel) offset end groups =
      let rest = group_loop fuel in
      if ltb offset end
      then (do
        value ← at timestamps offset
        count ← equal_run value offset (end - offset)
        rest (offset + count) end (record groups {
          group_values = groups.group_values ++ value ∷ [];
          group_counts = groups.group_counts ++ count ∷ [];
        }))
      else ok groups

  -- One round of the loop over the edges.
  pub group_edge : AdjacencyEntry → TimestampGroups → Result TimestampGroups
  unfolding group_loop
  group_edge edge groups = do
    t ←
        group_loop (edge.timestamp_end - edge.timestamp_begin) edge.timestamp_begin
          edge.timestamp_end groups
    ok (record t { edge_group_offsets = t.edge_group_offsets ++ length t.group_values ∷ [] })

unfoldable pub build_outgoing_timestamp_groups : GraphView → Result TimestampGroups
unfolding group_edge
build_outgoing_timestamp_groups g =
    for_each (group_edge g.timestamps) g.outgoing_edges
      (record { edge_group_offsets = 0 ∷ []; group_values = []; group_counts = [] })
