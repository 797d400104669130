-- ===== src/Dynamic/Update.antt =====
-- The sequential update of a histogram by a batch of changes (src/dynamic/update_sequential.cpp).
pub mod Words
pub mod Delta
pub mod Sums
use cycle_enumeration_gpu.Prelude.{
  ℕ, suc, ◌-◌, ◌%◌, ◌^◌, Bool, List, [], ◌∷◌, ltb, ◌==◌, if◌then◌else◌, length, set, replicate,
  range_from, min, Result, ok, err, ◌>>=◌, ◌>>◌, at, throw_if, for_each, invalid_argument,
  logic_error,
}
use cycle_enumeration_gpu.Prelude.Int.{ℤ, pos, negsuc, ◌+ℤ◌, ◌-ℤ◌}
use cycle_enumeration_gpu.Core.Histogram.{CycleHistogram, Entries, no_cycles, increment}
use cycle_enumeration_gpu.Dynamic.EdgeChange.{EdgeChange, EdgeBatch, normalize}
use cycle_enumeration_gpu.Dynamic.DirectedGraph.{DirectedGraph, apply_batch}
use cycle_enumeration_gpu.Dynamic.ThroughEdge.{
  ChangedEdgeIndex, index_of, count_cycles_through_edge,
}

-- `static_cast<long long>` of a 64-bit count.
unfoldable pub to_long_long : ℕ → ℤ
to_long_long c = if ltb c 9223372036854775808 then pos c else negsuc (18446744073709551615 - c)

-- The 64 bits of an integer.
unfoldable pub word : ℤ → ℕ
word (pos n) = n % 2 ^ 64
word (negsuc n) = 18446744073709551615 - n % 2 ^ 64

-- The sum of two values of type `long long`, which has 64 bits. A sum that does not fit, for which C++
-- defines no behaviour, wraps around here.
infixl 65 ◌+ll◌
unfoldable pub ◌+ll◌ : ℤ → ℤ → ℤ
unfolding to_long_long word ◌+ℤ◌
a +ll b = to_long_long (word (a +ℤ b))

pub data Sign : Type 0 where
  minus plus : Sign

-- `sign * count`
unfoldable pub signed : Sign → ℤ → ℤ
unfolding to_long_long word ◌-ℤ◌
signed minus c = to_long_long (word (pos 0 -ℤ c))
signed plus c = c

abbrev pub signed_add : Sign → ℤ → ℤ → ℤ
signed_add sign d c = d +ll signed sign c

-- What a phase carries from change to change: the buffer of visited flags and the differences.
pub record Phase : Type 0 where
  pub visited : List Bool
  pub delta : List ℤ

unfoldable pub add_count : Sign → List ℕ → ℕ → List ℤ → Result (List ℤ)
unfolding ◌+ll◌ signed to_long_long
add_count sign counts size delta = do
  c ← at counts size
  d ← at delta size
  ok (set delta size (signed_add sign d (to_long_long c)))

module _ (g : DirectedGraph) (index : ChangedEdgeIndex) (most : ℕ) (sign : Sign) where
  -- The loop over the changes, from the id `owner` on.
  unfoldable pub accumulate_from : ℕ → List EdgeChange → Phase → Result Phase
  unfolding count_cycles_through_edge add_count
  accumulate_from owner [] p = ok p
  accumulate_from owner (c ∷ cs) p = do
    s ←
        count_cycles_through_edge g c.source c.target owner index most
          (record { visited = p.visited; counts = replicate (suc most) 0 })
    delta ← for_each (add_count sign s.counts) (range_from 2 (most - 1)) p.delta
    accumulate_from (suc owner) cs (record { visited = s.visited; delta = delta })

unfoldable pub accumulate_phase : DirectedGraph → List EdgeChange → ℕ → Sign → Phase → Result Phase
unfolding accumulate_from index_of
accumulate_phase g changes most sign p = accumulate_from g (index_of changes) most sign 0 changes p

-- The ordered map of signed totals.
abbrev pub Totals : Type 0
Totals = List (ℕ × ℤ)

-- `totals[length] = count` for the entries of the base, which are in order.
unfoldable pub totals_of : Entries → Totals
unfolding to_long_long
totals_of [] = []
totals_of ((k, c) ∷ m) = (k, to_long_long c) ∷ totals_of m

-- `totals[length] += d`
unfoldable pub add_total : ℕ → ℤ → Totals → Totals
unfolding ◌+ll◌
add_total k d [] = (k, d) ∷ []
add_total k d ((j, t) ∷ m) =
    if ltb k j
    then (k, d) ∷ (j, t) ∷ m
    else if k == j
    then (k, t +ll d) ∷ m
    else (j, t) ∷ add_total k d m

-- `if (delta[length] != 0)` it is added, at the length cast to 32 bits.
unfoldable pub add_difference : List ℤ → ℕ → Totals → Result Totals
unfolding add_total
add_difference delta size totals = do
  d ← at delta size
  ok (elim d [
    | pos n ↦ if n == 0 then totals else add_total (size % 2 ^ 32) (pos n) totals
    | negsuc n ↦ add_total (size % 2 ^ 32) (negsuc n) totals
  ])

-- One round of the last loop: a negative total is an error, a positive one is counted.
unfoldable pub settle : ℕ × ℤ → CycleHistogram → Result CycleHistogram
unfolding increment
settle (k, t) h = elim t [
  | pos n ↦ if n == 0 then ok h else increment k n h
  | negsuc n ↦ err logic_error
]

unfoldable pub apply_histogram_delta : CycleHistogram → List ℤ → ℕ → Result CycleHistogram
unfolding add_difference settle totals_of
apply_histogram_delta base delta most = do
  totals ←
      for_each (add_difference delta) (range_from 2 (min most (length delta - 1) - 1))
        (totals_of base.entries)
  for_each settle totals no_cycles

unfoldable pub update_static_histogram :
    DirectedGraph → CycleHistogram → EdgeBatch → ℕ → Result CycleHistogram
unfolding accumulate_phase apply_batch apply_histogram_delta normalize
update_static_histogram initial_graph initial_histogram batch most = do
  throw_if (ltb most 2) invalid_argument
  let normalized = normalize batch
  p ←
      accumulate_phase initial_graph normalized.deletions most minus
        (record { visited = []; delta = replicate (suc most) (pos 0) })
  final_graph ← apply_batch initial_graph normalized
  q ← accumulate_phase final_graph normalized.insertions most plus p
  apply_histogram_delta initial_histogram q.delta most
