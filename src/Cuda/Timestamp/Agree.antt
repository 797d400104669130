-- ===== src/Cuda/Timestamp/Agree.antt =====
-- The bisecting searches of the kernels find the ranges that the host finds.
use cycle_enumeration_gpu.Prelude.{
  Result, ℕ, zero, suc, ◌+◌, ◌-◌, ◌/◌, ◌≤◌, ◌<◌, ◌≡◌, inl, inr, Bool, not, List, ltb, length, arith,
  Bool-cases, ok, err,
}
use cycle_enumeration_gpu.Prelude.Int.{ℤ, ◌+ℤ◌, ltb_ℤ}
use native.Mathlib.Nat.{le_trans}
use cycle_enumeration_gpu.Core.Timestamp
use cycle_enumeration_gpu.Core.Timestamp.{
  TimestampRange, TimestampStartPolicy, inclusive, after_start, value_at, lower_bound, upper_bound,
  max_timestamp,
}
use cycle_enumeration_gpu.Core.Timestamp.Window.{
  Sorted, Parts, Parts-unique, IsDownward, lower_bound-Parts, upper_bound-Parts,
}
use cycle_enumeration_gpu.Cuda.Timestamp.{
  checked_window_end, bisect, timestamp_lower_bound, timestamp_upper_bound, timestamps_in_window,
  timestamps_after, no_range,
}

bisect-Parts :
    (test : ℤ → Bool) (ts : List ℤ)
    → IsDownward test
    → (fuel begin end : ℕ) → begin ≤ end
    → end - begin ≤ fuel
    → Sorted ts begin end
    → Parts test ts begin end (bisect test ts fuel begin end)
unfolding bisect
bisect-Parts test ts down zero begin end h f s = record {
  above = omega arith;
  below = omega arith;
  holds = λ i a b. absurd (omega arith);
  fails = λ i a b. absurd (omega arith);
}
bisect-Parts test ts down (suc fuel) begin end h f s = elim (Bool-cases (ltb begin end)) [
  | inr done ↦
      rw (done, bisect)
        (record {
          above = omega arith;
          below = omega arith;
          holds = λ i a b. absurd (omega arith);
          fails = λ i a b. absurd (ground arith);
        })
  | inl more ↦
      let mid = begin + (end - begin) / 2 in
      let lt : begin < end = ground arith in
      elim (Bool-cases (test (value_at ts mid))) [
        | inl yes_ ↦
            let rest =
              bisect-Parts test ts down fuel (suc mid) end (omega arith) (omega arith)
                (λ i j a b c. s i j (omega arith) b c) in
            rw (more, yes_, bisect)
              (record {
                above = omega (arith, rest.above);
                below = rest.below;
                holds = λ i a b.
                    ground (arith, rest.holds i, down (value_at ts i) (value_at ts mid), s i mid);
                fails = rest.fails;
              })
        | inr no_ ↦
            let rest =
              bisect-Parts test ts down fuel begin mid (omega arith) (omega arith)
                (λ i j a b c. s i j a b (omega arith)) in
            rw (more, no_, bisect)
              (record {
                above = rest.above;
                below = omega (arith, rest.below);
                holds = rest.holds;
                fails = λ i a b. ground (
                  arith,
                  rest.fails i,
                  Bool-cases (test (value_at ts i)),
                  down (value_at ts mid) (value_at ts i),
                  s mid i,
                );
              })
      ]
]

-- What the kernels use in place of the exception of the host.
abbrev pub or_no_range : Result TimestampRange → TimestampRange
or_no_range (ok r) = r
or_no_range (err e) = no_range

module _ (ts : List ℤ) (begin end : ℕ) (h : begin ≤ end) (s : Sorted ts begin end) where
  lower_agrees : (x : ℤ) → timestamp_lower_bound ts begin end x ≡ lower_bound ts begin end x
  unfolding timestamp_lower_bound
  lower_agrees x =
      Parts-unique (λ t. ltb_ℤ t x) ts begin end _ _
        (bisect-Parts _ ts (λ a b le lt. ground arith) (end - begin) begin end h (omega arith) s)
        (lower_bound-Parts ts begin end x h s)

  upper_agrees : (x : ℤ) → timestamp_upper_bound ts begin end x ≡ upper_bound ts begin end x
  unfolding timestamp_upper_bound
  upper_agrees x =
      Parts-unique (λ t. not (ltb_ℤ x t)) ts begin end _ _
        (bisect-Parts _ ts (λ a b le lt. ground arith) (end - begin) begin end h (omega arith) s)
        (upper_bound-Parts ts begin end x h s)

module _ (ts : List ℤ) (begin end : ℕ) (h : begin ≤ end) (l : end ≤ length ts)
    (s : Sorted ts begin end) where
  upper_agrees_from :
      (b : ℕ) (last : ℤ)
      → begin ≤ b
      → b ≤ end
      → timestamp_upper_bound ts b end last ≡ upper_bound ts b end last
  upper_agrees_from b last p q =
      upper_agrees ts b end q (λ i j x y z. s i j (le_trans p x) y z) last

  -- On a sorted part of the vector the window search of the kernels finds the range of the host's,
  -- and the empty range where the host refuses the window.
  pub timestamps_in_window_agrees :
      (start width : ℤ) (policy : TimestampStartPolicy)
      → timestamps_in_window ts begin end start width policy
        ≡ or_no_range (Timestamp.timestamps_in_window ts begin end start width policy)
  unfolding timestamps_in_window checked_window_end Timestamp.timestamps_in_window
  timestamps_in_window_agrees start width inclusive =
      let p = lower_bound-Parts ts begin end start h s in
      ground (
        arith,
        lower_agrees ts begin end h s start,
        upper_agrees_from (lower_bound ts begin end start) (start +ℤ width) p.above p.below,
      )
  timestamps_in_window_agrees start width after_start =
      let p = upper_bound-Parts ts begin end start h s in
      ground (
        arith,
        upper_agrees ts begin end h s start,
        upper_agrees_from (upper_bound ts begin end start) (start +ℤ width) p.above p.below,
      )

  -- The same of the search for the timestamps after another.
  pub timestamps_after_agrees :
      (previous last : ℤ)
      → timestamps_after ts begin end previous last
        ≡ or_no_range (Timestamp.timestamps_after ts begin end previous last)
  unfolding timestamps_after Timestamp.timestamps_after
  timestamps_after_agrees previous last =
      let p = upper_bound-Parts ts begin end previous h s in
      rw (upper_agrees ts begin end h s previous)
        (ground (arith, upper_agrees_from (upper_bound ts begin end previous) last p.above p.below))
