-- ===== src/Examples/Windows.antt =====
-- Timestamp windows: the theorems at concrete inputs.
use cycle_enumeration_gpu.Prelude.{ℕ, ◌≤◌, ◌<◌, ◌≡◌, List, [], ◌∷◌, arith, ok}
use cycle_enumeration_gpu.Prelude.Int.{ℤ, pos, ◌+ℤ◌, ◌≤ℤ◌, ◌<ℤ◌}
use cycle_enumeration_gpu.Core.Timestamp
use cycle_enumeration_gpu.Core.Timestamp.{
  TimestampRange, TimestampStartPolicy, inclusive, after_start, value_at,
}
use cycle_enumeration_gpu.Core.Timestamp.Window.{
  timestamps_in_window_lem, timestamps_after_lem, Selects, Starts, Sorted,
}
use cycle_enumeration_gpu.Cuda.Timestamp as CudaTimestamp
use cycle_enumeration_gpu.Cuda.Timestamp.Agree.{
  timestamps_in_window_agrees, timestamps_after_agrees, or_no_range,
}
use cycle_enumeration_gpu.Examples.{below_three}

abbrev clock : List ℤ
clock = pos 1 ∷ pos 2 ∷ pos 5 ∷ []

-- The offsets `i` and `j` of the clock are in order.
abbrev InOrder : ℕ → ℕ → Type 0
InOrder i j = i ≤ j → value_at clock i ≤ℤ value_at clock j

clock-InOrder : (i : ℕ) → i < 3 → (j : ℕ) → j < 3 → InOrder i j
clock-InOrder =
    below_three (λ i. (j : ℕ) → j < 3 → InOrder i j)
      (below_three (InOrder 0) (omega arith) (omega arith) (omega arith))
      (below_three (InOrder 1) (omega arith) (omega arith) (omega arith))
      (below_three (InOrder 2) (omega arith) (omega arith) (omega arith))

clock-Sorted : Sorted clock 0 3
clock-Sorted i j a b c = clock-InOrder i (omega arith) j c b

window_example :
    (r : TimestampRange) × (Timestamp.timestamps_in_window clock 0 3 (pos 2) (pos 3) after_start
      ≡ ok r)
    × Selects clock 0 3 (Starts after_start (pos 2)) (pos 2 +ℤ pos 3) r
window_example =
    timestamps_in_window_lem clock 0 3 (pos 2) (pos 3) after_start (omega arith) (omega arith)
      clock-Sorted (omega arith, unfold ◌+ℤ◌ in omega arith)

after_example :
    (r : TimestampRange) × (Timestamp.timestamps_after clock 0 3 (pos 1) (pos 3) ≡ ok r)
    × Selects clock 0 3 (λ t. pos 1 <ℤ t) (pos 3) r
after_example =
    timestamps_after_lem clock 0 3 (pos 1) (pos 3) (omega arith) (omega arith) clock-Sorted

window_agrees_example :
    CudaTimestamp.timestamps_in_window clock 0 3 (pos 2) (pos 3) inclusive
    ≡ or_no_range (Timestamp.timestamps_in_window clock 0 3 (pos 2) (pos 3) inclusive)
window_agrees_example =
    timestamps_in_window_agrees clock 0 3 (omega arith) (omega arith) clock-Sorted (pos 2) (pos 3)
      inclusive

after_agrees_example :
    CudaTimestamp.timestamps_after clock 0 3 (pos 1) (pos 3)
    ≡ or_no_range (Timestamp.timestamps_after clock 0 3 (pos 1) (pos 3))
after_agrees_example =
    timestamps_after_agrees clock 0 3 (omega arith) (omega arith) clock-Sorted (pos 1) (pos 3)
