-- ===== src/Examples/Histograms.antt =====
-- Histograms: the theorems at concrete inputs.
use cycle_enumeration_gpu.Prelude.{true, ◌↔◌, ℕ, ◌≡◌, refl, List, [], ◌∷◌, arith, ◌+◌, ok}
use cycle_enumeration_gpu.Prelude.Int.{negsuc, ℤ, pos, ◌+ℤ◌}
use cycle_enumeration_gpu.Core.Histogram.{
  CycleHistogram, increment, count, total, merge, same_entries,
}
use cycle_enumeration_gpu.Core.Histogram.Laws
use cycle_enumeration_gpu.Core.Histogram.Laws.{
  same_entries_counts, increment-IsValid, count-increment, increment_returns, total_lem, sum_counts,
  merge_returns,
}
use cycle_enumeration_gpu.Dynamic.Update.{
  totals_of, ◌+ll◌, word, to_long_long, apply_histogram_delta, add_total, add_difference, settle,
}
use cycle_enumeration_gpu.Dynamic.Update.Delta.{count-apply_histogram_delta, applied}
use cycle_enumeration_gpu.Examples.{two_and_three}

same_entries_example :
    (same_entries two_and_three.entries two_and_three.entries ≡ true)
    ↔ ((j : ℕ) → count two_and_three j ≡ count two_and_three j)
same_entries_example = same_entries_counts two_and_three two_and_three (omega arith) (omega arith)

increment-IsValid_example : Laws.IsValid (record { entries = (2, 1) ∷ (3, 3) ∷ [] })
increment-IsValid_example =
    increment-IsValid 3 2 two_and_three (record { entries = (2, 1) ∷ (3, 3) ∷ [] }) (omega arith)
      (unfold increment in refl)

count-increment_example :
    count (record { entries = (2, 1) ∷ (3, 3) ∷ [] }) 3 ≡ count two_and_three 3 + 2
count-increment_example =
    count-increment 3 2 two_and_three (record { entries = (2, 1) ∷ (3, 3) ∷ [] }) 3
      (unfold increment in refl)

total_lem_example : total two_and_three ≡ ok 2
total_lem_example = total_lem two_and_three

merge_example :
    (h : CycleHistogram) × (merge two_and_three two_and_three ≡ ok h)
    × Laws.IsValid h
    × ((j : ℕ) → count h j ≡ count two_and_three j + count two_and_three j)
merge_example =
    merge_returns two_and_three two_and_three (omega arith) (omega arith)
      (λ j. unfold count in ground arith)

-- One more cycle of length 2, and one less of length 3.
abbrev one_more_one_less : List ℤ
one_more_one_less = pos 0 ∷ pos 0 ∷ pos 1 ∷ negsuc 0 ∷ []

delta_run :
    apply_histogram_delta two_and_three one_more_one_less 3 ≡ ok (record { entries = (2, 2) ∷ [] })
unfolding apply_histogram_delta add_difference add_total totals_of settle increment ◌+ll◌ ◌+ℤ◌ word
    to_long_long
delta_run = refl

delta_example :
    count (record { entries = (2, 2) ∷ [] }) 2
    ≡ word (pos (count two_and_three 2) +ℤ applied one_more_one_less 3 2)
delta_example =
    count-apply_histogram_delta two_and_three one_more_one_less 3 (record { entries = (2, 2) ∷ [] })
      (omega arith) (omega arith) delta_run 2
