-- ===== src/Cuda/Timestamp.antt =====
-- The timestamp searches that the kernels share with the host
-- (include/cycle_enum/cuda/cuda_timestamp.hpp). The bisection recurs on fuel, one unit for each
-- offset of the range; every round shortens the range, so that is enough.
pub mod Agree
use cycle_enumeration_gpu.Prelude.{
  ℕ, zero, suc, ◌+◌, ◌-◌, ◌/◌, Bool, true, false, not, ◌||◌, List, Option, none, some, ltb, leb,
  if◌then◌else◌,
}
use cycle_enumeration_gpu.Prelude.Int.{ℤ, pos, ◌+ℤ◌, ◌-ℤ◌, ltb_ℤ}
use cycle_enumeration_gpu.Core.Timestamp.{
  max_timestamp, TimestampRange, TimestampStartPolicy, inclusive, after_start, value_at, is_empty,
}

-- The end of the window, or `none` where the source returns false.
pub checked_window_end : ℤ → ℤ → Option ℤ
checked_window_end start width =
    if ltb_ℤ width (pos 0)
    then none
    else if ltb_ℤ (max_timestamp -ℤ width) start
    then none
    else some (start +ℤ width)

-- The loop of both bounds: `test` says that the offset sought lies behind the value.
pub bisect : (ℤ → Bool) → List ℤ → ℕ → ℕ → ℕ → ℕ
bisect test ts zero begin end = begin
bisect test ts (suc fuel) begin end =
    let mid = begin + (end - begin) / 2 in
    let right = bisect test ts fuel (suc mid) end in
    let left = bisect test ts fuel begin mid in
    if ltb begin end then (if test (value_at ts mid) then right else left) else begin

pub timestamp_lower_bound : List ℤ → ℕ → ℕ → ℤ → ℕ
unfolding bisect
timestamp_lower_bound ts begin end target = bisect (λ t. ltb_ℤ t target) ts (end - begin) begin end

pub timestamp_upper_bound : List ℤ → ℕ → ℕ → ℤ → ℕ
unfolding bisect
timestamp_upper_bound ts begin end target =
    bisect (λ t. not (ltb_ℤ target t)) ts (end - begin) begin end

-- `CudaTimestampRange{}`
abbrev pub no_range : TimestampRange
no_range = record { begin = 0; end = 0 }

pub timestamps_in_window : List ℤ → ℕ → ℕ → ℤ → ℤ → TimestampStartPolicy → TimestampRange
unfolding checked_window_end timestamp_lower_bound timestamp_upper_bound
timestamps_in_window ts search_begin search_end start width policy =
    elim (checked_window_end start width) [
      | none ↦ no_range
      | some window_end ↦
          let begin : ℕ = elim policy [
            | inclusive ↦ timestamp_lower_bound ts search_begin search_end start
            | after_start ↦ timestamp_upper_bound ts search_begin search_end start
          ] in
          if ltb search_end search_begin
          then no_range
          else record { begin = begin; end = timestamp_upper_bound ts begin search_end window_end }
    ]

pub has_timestamp_in_window : List ℤ → ℕ → ℕ → ℤ → ℤ → TimestampStartPolicy → Bool
unfolding timestamps_in_window
has_timestamp_in_window ts search_begin search_end start width policy =
    not (is_empty (timestamps_in_window ts search_begin search_end start width policy))

pub timestamps_after : List ℤ → ℕ → ℕ → ℤ → ℤ → TimestampRange
unfolding timestamp_upper_bound
timestamps_after ts search_begin search_end previous window_end =
    let begin = timestamp_upper_bound ts search_begin search_end previous in
    if ltb search_end search_begin
    then no_range
    else record { begin = begin; end = timestamp_upper_bound ts begin search_end window_end }
