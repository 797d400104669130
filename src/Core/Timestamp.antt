-- ===== src/Core/Timestamp.antt =====
-- Windows over sorted timestamps (src/core/timestamp.cpp, include/cycle_enum/core/timestamp.hpp).
-- `std::lower_bound` and `std::upper_bound` are the first offset whose value fails the test: what
-- they return on a sorted range. Timestamps are integers, with the 64-bit bound where it is tested.
pub mod Window
use cycle_enumeration_gpu.Prelude.{
  ℕ, zero, suc, ◌-◌, Bool, true, false, not, ◌||◌, List, Option, none, some, ltb, leb,
  if◌then◌else◌, length, get_or, get_elem?, Result, ok, err, ◌>>=◌, ◌>>◌, throw_if,
  invalid_argument, overflow_error, out_of_range,
}
use cycle_enumeration_gpu.Prelude.Int.{ℤ, pos, ◌+ℤ◌, ◌-ℤ◌, ltb_ℤ}

-- std::numeric_limits<Timestamp>::max()
abbrev pub max_timestamp : ℤ
max_timestamp = pos 9223372036854775807

unfoldable pub checked_window_end : ℤ → ℤ → Result ℤ
checked_window_end start width = do
  throw_if (ltb_ℤ width (pos 0)) invalid_argument
  throw_if (ltb_ℤ (max_timestamp -ℤ width) start) overflow_error
  ok (start +ℤ width)

pub record TimestampRange : Type 0 where
  pub begin : ℕ
  pub end : ℕ

abbrev pub is_empty : TimestampRange → Bool
is_empty r = leb r.end r.begin

abbrev pub size : TimestampRange → ℕ
size r = if is_empty r then 0 else r.end - r.begin

pub data TimestampStartPolicy : Type 0 where
  inclusive after_start : TimestampStartPolicy

-- The value at an offset that has been checked to be in range.
abbrev pub value_at : List ℤ → ℕ → ℤ
value_at ts i = get_or ts i (pos 0)

-- The first of the `n` offsets from `i` on whose value fails the test, or the offset behind them.
pub first_failing : (ℤ → Bool) → List ℤ → ℕ → ℕ → ℕ
first_failing test ts i zero = i
first_failing test ts i (suc n) = elim (test (value_at ts i)) [
  | true ↦ first_failing test ts (suc i) n
  | false ↦ i
]

unfoldable pub lower_bound : List ℤ → ℕ → ℕ → ℤ → ℕ
unfolding first_failing
lower_bound ts begin end x = first_failing (λ t. ltb_ℤ t x) ts begin (end - begin)

unfoldable pub upper_bound : List ℤ → ℕ → ℕ → ℤ → ℕ
unfolding first_failing
upper_bound ts begin end x = first_failing (λ t. not (ltb_ℤ x t)) ts begin (end - begin)

check_range : List ℤ → ℕ → ℕ → Result (Unit {0})
check_range ts begin end = throw_if (ltb end begin || ltb (length ts) end) out_of_range

unfoldable pub timestamps_in_window :
    List ℤ → ℕ → ℕ → ℤ → ℤ → TimestampStartPolicy → Result TimestampRange
unfolding checked_window_end check_range lower_bound upper_bound
timestamps_in_window ts search_begin search_end start width policy = do
  window_end ← checked_window_end start width
  check_range ts search_begin search_end
  let begin : ℕ = elim policy [
    | inclusive ↦ lower_bound ts search_begin search_end start
    | after_start ↦ upper_bound ts search_begin search_end start
  ]
  ok (record { begin = begin; end = upper_bound ts begin search_end window_end })

unfoldable pub has_timestamp_in_window : List ℤ → ℕ → ℕ → ℤ → ℤ → TimestampStartPolicy → Result Bool
unfolding timestamps_in_window
has_timestamp_in_window ts search_begin search_end start width policy = do
  range ← timestamps_in_window ts search_begin search_end start width policy
  ok (not (is_empty range))

unfoldable pub timestamps_after : List ℤ → ℕ → ℕ → ℤ → ℤ → Result TimestampRange
unfolding check_range upper_bound
timestamps_after ts search_begin search_end previous window_end = do
  check_range ts search_begin search_end
  let begin = upper_bound ts search_begin search_end previous
  ok (record { begin = begin; end = upper_bound ts begin search_end window_end })

pub first_timestamp : List ℤ → TimestampRange → Option ℤ
first_timestamp ts range =
    if is_empty range || leb (length ts) range.begin then none else get_elem? ts range.begin

-- The overloads that search the whole vector.
pub timestamps_in_window_all : List ℤ → ℤ → ℤ → TimestampStartPolicy → Result TimestampRange
unfolding timestamps_in_window
timestamps_in_window_all ts = timestamps_in_window ts 0 (length ts)

pub has_timestamp_in_window_all : List ℤ → ℤ → ℤ → TimestampStartPolicy → Result Bool
unfolding has_timestamp_in_window
has_timestamp_in_window_all ts = has_timestamp_in_window ts 0 (length ts)

pub timestamps_after_all : List ℤ → ℤ → ℤ → Result TimestampRange
unfolding timestamps_after
timestamps_after_all ts = timestamps_after ts 0 (length ts)
