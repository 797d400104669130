-- ===== src/Sequential/TemporalJohnson/Closings.antt =====
-- How often a bundle of arrivals closes a cycle, and when that number exceeds 64 bits.
use cycle_enumeration_gpu.Prelude.{
  ℕ, zero, suc, ◌+◌, ◌*◌, ◌/◌, ◌≤◌, ◌<◌, ◌≡◌, ap, ◌∙◌, true, false, [], ◌∷◌, ltb, leb, ◌==◌,
  if◌then◌else◌, arith, inl, inr, Bool-cases, Result, ok, err, for_each, overflow_error,
}
use native.Mathlib.Nat.{mul_comm, div-lt_iff_lt-mul}
use cycle_enumeration_gpu.Prelude.Int.{ℤ}
use cycle_enumeration_gpu.Core.Histogram.{max_count}
use cycle_enumeration_gpu.Core.GraphView.{AdjacencyEntry, GraphView}
use cycle_enumeration_gpu.Core.Timestamp.{size}
use cycle_enumeration_gpu.Sequential.CycleUnion.Search.{IsTimed}
use cycle_enumeration_gpu.Sequential.Bruteforce.Temporal.Runs.{range_after, range_after_lem}
use cycle_enumeration_gpu.Sequential.TemporalJohnson.{
  TimestampBundle, add_count, multiply_count, close_arrival, closing_count,
}
use cycle_enumeration_gpu.Sequential.TemporalJohnson.Bundles.{value}

-- A count that is returned if 64 bits hold it.
abbrev pub or_overflow : ℕ → Result ℕ
or_overflow n = if leb n max_count then ok n else err overflow_error

multiply_count_lem : (a b : ℕ) → multiply_count a b ≡ or_overflow (a * b)
unfolding multiply_count
multiply_count_lem zero b = ground arith
multiply_count_lem (suc a) b = elim (Bool-cases (b == 0)) [
  | inl none_ ↦ let z : b ≡ 0 = ground (arith, none_) in rw z (ground arith)
  | inr some_ ↦
      let k = suc a in
      let exceeds = div-lt_iff_lt-mul {k = k} {x = max_count} {y = b} (omega arith) in
      elim (Bool-cases (ltb (max_count / k) b)) [
        | inl over ↦
            let more : max_count < b * k = exceeds.0 (ground (arith, over)) in
            let more' : leb (k * b) max_count ≡ false = ground (arith, more, mul_comm k b) in
            rw (some_, over, more') (ground arith)
        | inr under ↦
            let less : leb (k * b) max_count ≡ true = elim (Bool-cases (leb (k * b) max_count)) [
              | inl e ↦ e
              | inr e ↦
                  let more : max_count < b * k = ground (arith, e, mul_comm k b) in
                  absurd (ground (arith, exceeds.1 more, under))
            ] in
            rw (some_, under, less) (ground arith)
      ]
]

pub add_count_lem : (a b : ℕ) → a ≤ max_count → add_count a b ≡ or_overflow (a + b)
unfolding add_count
add_count_lem a b h = ground arith

module _ (g : GraphView) (last : ℤ) (e : AdjacencyEntry) (fine : IsTimed g.timestamps e) where
  -- How many events of the edge come after a time.
  abbrev pub events_after : ℤ → ℕ
  events_after now = size (range_after g.timestamps last now e)

  close_from :
      (arrivals : TimestampBundle) (n : ℕ)
      → n ≤ max_count
      → for_each (close_arrival g last e) arrivals n ≡ or_overflow (n + value events_after arrivals)
  unfolding close_arrival
  close_from [] n h = ground arith
  close_from (a ∷ arrivals) n h =
      let m = a.count * events_after a.timestamp in
      rw
        (
          (range_after_lem g.timestamps last a.timestamp e fine).0,
          multiply_count_lem a.count (events_after a.timestamp),
        )
        (elim (Bool-cases (leb m max_count)) [
          | inl small ↦ rw small (
              rw (add_count_lem n m h) (elim (Bool-cases (leb (n + m) max_count)) [
                | inl fits ↦ rw fits (
                    close_from arrivals (n + m) (ground (arith, fits))
                    ∙ ap or_overflow (omega arith))
                | inr over ↦ rw over (ground (arith, over))
              ]))
          | inr large ↦ rw large (ground (arith, large))
        ])

  -- Over an edge with sorted timestamps in range, a bundle of arrivals closes a cycle as often as its
  -- arrivals have ways, each counted once for every event of the edge that is later than it and within
  -- the window; the code returns that number, and an overflow error exactly if 64 bits do not hold it.
  pub closing_count_lem :
      (arrivals : TimestampBundle)
      → closing_count g last arrivals e ≡ or_overflow (value events_after arrivals)
  unfolding closing_count
  closing_count_lem arrivals = close_from arrivals 0 (omega arith) ∙ ap or_overflow (omega arith)
