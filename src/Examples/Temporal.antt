-- ===== src/Examples/Temporal.antt =====
-- The temporal searches at the triangle.
use cycle_enumeration_gpu.Sequential.TemporalJohnson.{TimestampBundle, closing_count, extend_bundle}
use cycle_enumeration_gpu.Sequential.TemporalJohnson.Bundles.{value, Ordered}
use cycle_enumeration_gpu.Sequential.TemporalJohnson.Closings.{
  or_overflow, events_after, closing_count_lem,
}
use cycle_enumeration_gpu.Sequential.TemporalJohnson.Extensions.{worth_after, extend_bundle_returns}
use cycle_enumeration_gpu.Sequential.Bruteforce.Temporal.Runs.{range_after}
use cycle_enumeration_gpu.Sequential.CycleUnion.Search.{IsTimed}
use cycle_enumeration_gpu.Core.GraphView.{AdjacencyEntry}
use cycle_enumeration_gpu.Examples.{edge_to}
use cycle_enumeration_gpu.Prelude.{
  ℕ, suc, ◌≡◌, refl, ◌↔◌, Bool, true, [], ◌∷◌, none, replicate, length, arith, ok, ◌>>=◌,
}
use cycle_enumeration_gpu.Prelude.Int.{ℤ, pos, ◌-ℤ◌, ◌+ℤ◌}
use cycle_enumeration_gpu.Core.Timestamp.{timestamps_after}
use cycle_enumeration_gpu.Core.GraphView.{row}
use cycle_enumeration_gpu.Core.Histogram.{increment}
use cycle_enumeration_gpu.Sequential.Bruteforce.Temporal.{count_temporal_cycles}
use cycle_enumeration_gpu.Sequential.Closing.{Closing, can_reach_root}
use cycle_enumeration_gpu.Sequential.Closing.Walks.{Closes, Remembers}
use cycle_enumeration_gpu.Sequential.Closing.Correct.{can_reach_root_lem}
use cycle_enumeration_gpu.Sequential.TemporalReadTarjan.{count_temporal_cycles_read_tarjan}
use cycle_enumeration_gpu.Sequential.TemporalReadTarjan.Agree.{
  open-Remembers, count_temporal_cycles_read_tarjan_agrees,
}
use cycle_enumeration_gpu.Sequential.TemporalJohnson.{count_temporal_cycles_johnson}
use cycle_enumeration_gpu.Openmp.Johnson.{resolve_thread_count}
use cycle_enumeration_gpu.Openmp.TemporalReadTarjan.{count_openmp}
use cycle_enumeration_gpu.Openmp.TemporalReadTarjan.Agree.{temporal_openmp_agrees}
use cycle_enumeration_gpu.Examples.{triangle, triangle-IsValid, taken_once, two_and_three}
use cycle_enumeration_gpu.Examples.Device.{triangle-AllTimed}

temporal_run : count_temporal_cycles triangle (pos 3) none ≡ ok two_and_three
unfolding count_temporal_cycles row ◌-ℤ◌ timestamps_after ◌+ℤ◌ increment
temporal_run = refl

can_reach_root_example :
    (b : Bool) × (c' : Closing) × (can_reach_root triangle 0
        (pos 4)
        (suc (length triangle.timestamps))
        1
        (pos 1)
        (replicate 3 none)
      ≡ ok (b, c'))
    × ((b ≡ true) ↔ Closes triangle 0 (pos 4) (pos 1) 1)
    × Remembers triangle 0 (pos 4) c'
can_reach_root_example =
    can_reach_root_lem triangle 0 (pos 4) triangle-IsValid triangle-AllTimed.0 1 (pos 1)
      (replicate 3 none) (omega arith) (open-Remembers triangle 0 (pos 4))

temporal_read_tarjan_example :
    count_temporal_cycles_read_tarjan triangle (pos 3) none
    ≡ count_temporal_cycles triangle (pos 3) none
temporal_read_tarjan_example =
    count_temporal_cycles_read_tarjan_agrees triangle (pos 3) none triangle-IsValid
      triangle-AllTimed (omega arith)

temporal_openmp_example :
    count_openmp triangle (pos 3) none true ((2 ∷ 0 ∷ []) ∷ (1 ∷ []) ∷ []) (pos 2)
    ≡ (resolve_thread_count true (pos 2) >>= λ threads. ok two_and_three)
temporal_openmp_example =
    temporal_openmp_agrees triangle (pos 3) none true ((2 ∷ 0 ∷ []) ∷ (1 ∷ []) ∷ []) (pos 2)
      two_and_three triangle-IsValid triangle-AllTimed (omega arith) taken_once temporal_run

johnson_test : count_temporal_cycles_johnson triangle (pos 3) none ≡ ok two_and_three
unfolding count_temporal_cycles_johnson row ◌-ℤ◌ ◌+ℤ◌ timestamps_after increment can_reach_root
johnson_test = refl

-- Two ways to arrive at 1 at the time 1, of which the edge from 1 to 2 takes both on.
abbrev two_ways : TimestampBundle
two_ways = record { timestamp = pos 1; count = 2 } ∷ []

abbrev middle_edge : AdjacencyEntry
middle_edge = edge_to 2 2

middle_edge-IsTimed : IsTimed triangle.timestamps middle_edge
middle_edge-IsTimed = triangle-AllTimed.0.1.1.0

closing_count_example :
    closing_count triangle (pos 4) two_ways middle_edge
    ≡ or_overflow (value (events_after triangle (pos 4) middle_edge middle_edge-IsTimed) two_ways)
closing_count_example = closing_count_lem triangle (pos 4) middle_edge middle_edge-IsTimed two_ways

extend_bundle_example :
    (b : TimestampBundle) × (extend_bundle triangle (pos 4) two_ways middle_edge ≡ ok b)
    × Ordered b
    × ((worth : ℤ → ℕ)
        → value worth b
          ≡ worth_after triangle (pos 4) middle_edge middle_edge-IsTimed worth two_ways)
extend_bundle_example =
    extend_bundle_returns triangle (pos 4) middle_edge middle_edge-IsTimed two_ways
      (unfold range_after in omega arith)
