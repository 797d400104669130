-- ===== src/Sequential/TemporalJohnson/Totals.antt =====
-- What a loop of the temporal Johnson search adds in total.
use cycle_enumeration_gpu.Prelude.{
  ℕ, ◌+◌, ◌*◌, ◌≡◌, refl, ap, ◌∙◌, List, [], ◌∷◌, All, flat_map, arith, inl, inr, Result, err,
  for_each, Result-cases, overflow_error, Error,
}
use cycle_enumeration_gpu.Prelude.Int.{ℤ, pos, ◌+ℤ◌, ◌≤ℤ◌}
use cycle_enumeration_gpu.Core.Histogram.{CycleHistogram, Entries, count}
use cycle_enumeration_gpu.Core.Histogram.Laws
use cycle_enumeration_gpu.Core.Histogram.Laws.{
  weight, weight-append, count-increment_all, increment_all-IsValid, count-no_cycles, eq_of_counts,
}
use cycle_enumeration_gpu.Core.Timestamp.{checked_window_end}
use cycle_enumeration_gpu.Core.Timestamp.Window.{checked_window_end_fits}
use cycle_enumeration_gpu.Sequential.TemporalReadTarjan.Agree.{Left, between}
use cycle_enumeration_gpu.Sequential.TemporalJohnson.{
  TimestampCount, TimestampBundle, TemporalJohnsonStats, JohnsonWorker,
}
use cycle_enumeration_gpu.Sequential.TemporalJohnson.Bundles.{Fits, map-Fits, for_each-Fits, value}

abbrev pub sum_of : {A : Type 0} → (A → ℕ) → List A → ℕ
sum_of f [] = 0
sum_of f (x ∷ xs) = f x + sum_of f xs

pub weight-flat_map_sum :
    {A : Type 0} (j : ℕ) (f : A → Entries) (xs : List A)
    → weight j (flat_map f xs) ≡ sum_of (λ x. weight j (f x)) xs
weight-flat_map_sum j f [] = refl
weight-flat_map_sum j f (x ∷ xs) =
    weight-append j (f x) (flat_map f xs)
    ∙ ap (λ n. weight j (f x) + n) (weight-flat_map_sum j f xs)

pub value_sum :
    (f : ℤ → ℕ) (b : TimestampBundle)
    → value f b ≡ sum_of (λ (e : TimestampCount). e.count * f e.timestamp) b
value_sum f [] = refl
value_sum f (e ∷ b) = ap (λ n. e.count * f e.timestamp + n) (value_sum f b)

-- A search between two starts, which added to the histogram `h` what `adds` says.
pub record Grown (h : CycleHistogram) (adds : ℕ → ℕ) (s : JohnsonWorker) : Type 0 where
  pub histogram : CycleHistogram
  pub left : Left TemporalJohnsonStats
  pub state : s ≡ between histogram left
  pub kept : Laws.IsValid histogram
  pub counts : (j : ℕ) → count histogram j ≡ count h j + adds j

-- A loop over steps that each add something adds the sum.
record Growing {A : Type 0} (P : A → Type 0) (adds : A → ℕ → ℕ) (total : ℕ → ℕ) (xs : List A)
    (s : JohnsonWorker) : Type 0 where
  histogram : CycleHistogram
  left : Left TemporalJohnsonStats
  state : s ≡ between histogram left
  kept : Laws.IsValid histogram
  counts : (j : ℕ) → count histogram j + sum_of (λ x. adds x j) xs ≡ total j
  fine : All P xs

pub grow-Fits :
    {A : Type 0} (step : A → JohnsonWorker → Result JohnsonWorker) (P : A → Type 0)
    (adds : A → ℕ → ℕ)
    → ((x : A) (h : CycleHistogram) (c : Left TemporalJohnsonStats)
        → P x
        → Laws.IsValid h
        → Fits (Grown h (adds x)) (step x (between h c)))
    → (xs : List A) (h : CycleHistogram) (c : Left TemporalJohnsonStats) → All P xs
    → Laws.IsValid h
    → Fits (Grown h (λ j. sum_of (λ x. adds x j) xs)) (for_each step xs (between h c))
grow-Fits step P adds each xs h c fine valid =
    let total = λ (j : ℕ). count h j + sum_of (λ x. adds x j) xs in
    map-Fits (Growing P adds total []) _ _
      (λ s f. record {
        histogram = f.histogram;
        left = f.left;
        state = f.state;
        kept = f.kept;
        counts = λ j. omega (arith, f.counts j);
      })
      (for_each-Fits step (Growing P adds total)
        (λ x xs' s f. rw f.state (
          map-Fits (Grown f.histogram (adds x)) (Growing P adds total xs') _
            (λ s' more. record {
              histogram = more.histogram;
              left = more.left;
              state = more.state;
              kept = more.kept;
              counts = λ j. omega (arith, f.counts j, more.counts j);
              fine = f.fine.1;
            })
            (each x f.histogram f.left f.fine.0 f.kept)))
        xs (between h c)
        (record {
          histogram = h;
          left = c;
          state = refl;
          kept = valid;
          counts = λ j. refl;
          fine = fine;
        }))

window_end_overflows :
    (start width : ℤ) (x : Error)
    → pos 0 ≤ℤ width
    → checked_window_end start width ≡ err x
    → x ≡ overflow_error
unfolding checked_window_end
window_end_overflows start width x positive failed = ground (arith, failed)

pub window_end-Fits :
    (start width : ℤ)
    → pos 0 ≤ℤ width
    → Fits (λ last. last ≡ start +ℤ width) (checked_window_end start width)
window_end-Fits start width positive = elim (Result-cases (checked_window_end start width)) [
  | inl (last, e) ↦ inr (last, e, (checked_window_end_fits start width last e).1)
  | inr (x, e) ↦ inl (e ∙ ap err (window_end_overflows start width x positive e))
]
