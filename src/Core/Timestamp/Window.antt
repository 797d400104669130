-- ===== src/Core/Timestamp/Window.antt =====
-- The windows hold exactly the offsets whose timestamps lie in them.
use cycle_enumeration_gpu.Prelude.{
  ℕ, zero, suc, ◌+◌, ◌-◌, ◌≤◌, ◌<◌, ◌≡◌, ◌↔◌, inl, inr, Bool, true, false, not, List, length, arith,
  Bool-cases, ok,
}
use cycle_enumeration_gpu.Prelude.Int.{ℤ, pos, ◌+ℤ◌, ◌≤ℤ◌, ◌<ℤ◌, ltb_ℤ, +ℤ_parts, -ℤ_parts}
use native.Mathlib.Nat.{le_trans}
use cycle_enumeration_gpu.Core.Timestamp.{
  max_timestamp, checked_window_end, TimestampRange, TimestampStartPolicy, inclusive, after_start,
  value_at, first_failing, lower_bound, upper_bound, timestamps_in_window, timestamps_after,
}

-- The values from `begin` up to `end` do not fall.
abbrev pub Sorted : List ℤ → ℕ → ℕ → Type 0
Sorted ts begin end = (i j : ℕ) → begin ≤ i → i ≤ j → j < end → value_at ts i ≤ℤ value_at ts j

-- `r` parts the range: the test holds below it and fails from it on.
pub record Parts (test : ℤ → Bool) (ts : List ℤ) (begin end r : ℕ) : Type 0 where
  pub above : begin ≤ r
  pub below : r ≤ end
  pub holds : (i : ℕ) → begin ≤ i → i < r → test (value_at ts i) ≡ true
  pub fails : (i : ℕ) → r ≤ i → i < end → test (value_at ts i) ≡ false

-- A test that holds of a value holds of every smaller one.
abbrev pub IsDownward : (ℤ → Bool) → Type 0
IsDownward test = (a b : ℤ) → a ≤ℤ b → test b ≡ true → test a ≡ true

-- Where the values are sorted, one offset parts them.
pub Parts-unique :
    (test : ℤ → Bool) (ts : List ℤ) (begin end r r' : ℕ)
    → Parts test ts begin end r
    → Parts test ts begin end r'
    → r ≡ r'
Parts-unique test ts begin end r r' p q =
    ground (arith, p.holds r', q.holds r, p.fails r, q.fails r')

first_failing-Parts :
    (test : ℤ → Bool) (ts : List ℤ)
    → IsDownward test
    → (n begin end : ℕ) → begin + n ≡ end
    → Sorted ts begin end
    → Parts test ts begin end (first_failing test ts begin n)
unfolding first_failing
first_failing-Parts test ts down zero begin end e s = record {
  above = omega arith;
  below = omega arith;
  holds = λ i a b. absurd (omega arith);
  fails = λ i a b. absurd (omega arith);
}
first_failing-Parts test ts down (suc n) begin end e s =
    elim (Bool-cases (test (value_at ts begin))) [
      | inl yes_ ↦
          let rest =
            first_failing-Parts test ts down n (suc begin) end (omega arith)
              (λ i j a b c. s i j (omega arith) b c) in
          rw (yes_, first_failing)
            (record {
              above = omega (arith, rest.above);
              below = rest.below;
              holds = λ i a b. grind (arith, rest.holds i);
              fails = rest.fails;
            })
      | inr no_ ↦
          rw (no_, first_failing)
            (record {
              above = omega arith;
              below = omega arith;
              holds = λ i a b. absurd (omega arith);
              fails = λ i a b. ground (
                arith,
                Bool-cases (test (value_at ts i)),
                down (value_at ts begin) (value_at ts i),
                s begin i,
              );
            })
    ]

pub lower_bound-Parts :
    (ts : List ℤ) (begin end : ℕ) (x : ℤ)
    → begin ≤ end
    → Sorted ts begin end
    → Parts (λ t. ltb_ℤ t x) ts begin end (lower_bound ts begin end x)
unfolding lower_bound
lower_bound-Parts ts begin end x h s =
    first_failing-Parts (λ t. ltb_ℤ t x) ts (λ a b le lt. ground arith) (end - begin) begin end
      (omega arith) s

pub upper_bound-Parts :
    (ts : List ℤ) (begin end : ℕ) (x : ℤ)
    → begin ≤ end
    → Sorted ts begin end
    → Parts (λ t. not (ltb_ℤ x t)) ts begin end (upper_bound ts begin end x)
unfolding upper_bound
upper_bound-Parts ts begin end x h s =
    first_failing-Parts (λ t. not (ltb_ℤ x t)) ts (λ a b le lt. ground arith) (end - begin) begin
      end (omega arith) s

-- Whether a timestamp is late enough for the policy.
abbrev pub Starts : TimestampStartPolicy → ℤ → ℤ → Type 0
Starts inclusive start t = start ≤ℤ t
Starts after_start start t = start <ℤ t

-- The offsets of a range.
abbrev pub InRange : TimestampRange → ℕ → Type 0
InRange r i = (r.begin ≤ i) × (i < r.end)

-- The range that the policy and the end of the window cut out of a sorted range.
abbrev pub Selects : (ts : List ℤ) (begin end : ℕ) → (ℤ → Type 0) → ℤ → TimestampRange → Type 0
Selects ts begin end Late last r =
    (i : ℕ)
    → InRange r i ↔ ((begin ≤ i) × (i < end) × Late (value_at ts i) × (value_at ts i ≤ℤ last))

-- The width and the end of the window are in range.
abbrev pub FitsWindow : ℤ → ℤ → Type 0
FitsWindow start width = (pos 0 ≤ℤ width) × (start +ℤ width ≤ℤ max_timestamp)

pub checked_window_end_returns :
    (start width : ℤ)
    → FitsWindow start width
    → checked_window_end start width ≡ ok (start +ℤ width)
unfolding checked_window_end
checked_window_end_returns start width h =
    ground (arith, +ℤ_parts start width, -ℤ_parts max_timestamp width)

pub checked_window_end_fits :
    (start width w : ℤ)
    → checked_window_end start width ≡ ok w
    → FitsWindow start width × (w ≡ start +ℤ width)
unfolding checked_window_end
checked_window_end_fits start width w h =
    ground (arith, +ℤ_parts start width, -ℤ_parts max_timestamp width)

module _ (ts : List ℤ) (begin end : ℕ) (h : begin ≤ end) (s : Sorted ts begin end) where
  Parts-Selects :
      (b : ℕ) (last : ℤ) (early : ℤ → Bool) (Late : ℤ → Type 0)
      → ((t : ℤ) → (early t ≡ false) ↔ Late t)
      → Parts early ts begin end b
      → Selects ts begin end Late last (record { begin = b; end = upper_bound ts b end last })
  Parts-Selects b last early Late reads p i =
      let later =
        λ (i j : ℕ) (x : b ≤ i) (y : i ≤ j) (z : j < end). s i j (le_trans p.above x) y z in
      let q = upper_bound-Parts ts b end last p.below later in
      (
        λ r. ground (arith, p.fails i, q.holds i, q.below, reads (value_at ts i)),
        λ r. ground (arith, p.holds i, q.fails i, reads (value_at ts i)),
      )

  lower_bound-Selects :
      (start last : ℤ)
      → Selects ts begin end (Starts inclusive start) last (record {
        begin = lower_bound ts begin end start;
        end = upper_bound ts (lower_bound ts begin end start) end last;
      })
  lower_bound-Selects start last =
      Parts-Selects (lower_bound ts begin end start) last (λ t. ltb_ℤ t start)
        (Starts inclusive start) (λ t. ground arith) (lower_bound-Parts ts begin end start h s)

  pub upper_bound-Selects :
      (start last : ℤ)
      → Selects ts begin end (Starts after_start start) last (record {
        begin = upper_bound ts begin end start;
        end = upper_bound ts (upper_bound ts begin end start) end last;
      })
  upper_bound-Selects start last =
      Parts-Selects (upper_bound ts begin end start) last (λ t. not (ltb_ℤ start t))
        (Starts after_start start) (λ t. ground arith) (upper_bound-Parts ts begin end start h s)

-- On a sorted part of the vector a window that fits in 64 bits is found, and the offsets found are
-- those of the part whose timestamps start late enough for the policy and end within the window.
pub timestamps_in_window_lem :
    (ts : List ℤ) (begin end : ℕ) (start width : ℤ) (policy : TimestampStartPolicy)
    → begin ≤ end
    → end ≤ length ts
    → Sorted ts begin end
    → FitsWindow start width
    → (r : TimestampRange) × (timestamps_in_window ts begin end start width policy ≡ ok r)
      × Selects ts begin end (Starts policy start) (start +ℤ width) r
unfolding timestamps_in_window
timestamps_in_window_lem ts begin end start width inclusive h l s fits =
    let b = lower_bound ts begin end start in
    (
      record { begin = b; end = upper_bound ts b end (start +ℤ width) },
      rw (checked_window_end_returns start width fits) (ground arith),
      lower_bound-Selects ts begin end h s start (start +ℤ width),
    )
timestamps_in_window_lem ts begin end start width after_start h l s fits =
    let b = upper_bound ts begin end start in
    (
      record { begin = b; end = upper_bound ts b end (start +ℤ width) },
      rw (checked_window_end_returns start width fits) (ground arith),
      upper_bound-Selects ts begin end h s start (start +ℤ width),
    )

-- On a sorted part of the vector the offsets found are those of the part whose timestamps lie
-- strictly after the previous one and not after the end of the window.
pub timestamps_after_lem :
    (ts : List ℤ) (begin end : ℕ) (previous last : ℤ)
    → begin ≤ end
    → end ≤ length ts
    → Sorted ts begin end
    → (r : TimestampRange) × (timestamps_after ts begin end previous last ≡ ok r)
      × Selects ts begin end (λ t. previous <ℤ t) last r
unfolding timestamps_after
timestamps_after_lem ts begin end previous last h l s =
    let b = upper_bound ts begin end previous in
    (
      record { begin = b; end = upper_bound ts b end last },
      ground arith,
      upper_bound-Selects ts begin end h s previous last,
    )
