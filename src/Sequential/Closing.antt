-- ===== src/Sequential/Closing.antt =====
-- `can_reach_root` (src/sequential/temporal_read_tarjan.cpp, with the same statements in
-- src/sequential/temporal_johnson.cpp and src/openmp/openmp_temporal_read_tarjan.cpp,
-- openmp_temporal_johnson.cpp): whether a walk whose timestamps rise leads back to the root within the
-- window, with a memory of the times from which on a vertex is closed. Each call is at a later time
-- than its caller, so one unit of fuel more than there are timestamps is enough.
pub mod Loops
pub mod Walks
pub mod Correct
use cycle_enumeration_gpu.Prelude.{
  ℕ, zero, suc, ◌-◌, Bool, true, false, not, List, [], ◌∷◌, Option, none, some, ◌==◌, if◌then◌else◌,
  length, set, range_from, Result, ok, err, ◌>>=◌, at, out_of_fuel,
}
use cycle_enumeration_gpu.Prelude.Int.{ℤ, ltb_ℤ}
use cycle_enumeration_gpu.Core.GraphView.{AdjacencyEntry, GraphView, outgoing_row}
use cycle_enumeration_gpu.Core.Timestamp.{is_empty, timestamps_after}

-- A loop that returns `true` at the first element at which `step` does, and else goes through.
abbrev pub until_true :
    {A S : Type 0} → (A → S → Result (Bool × S)) → List A → S → Result (Bool × S)
until_true step [] s = ok (false, s)
until_true step (x ∷ xs) s =
    step x s >>= λ (found, t). elim found [ true ↦ ok (true, t) | false ↦ until_true step xs t ]

-- `closing_after_`: for each vertex the earliest time from which on no way back was found.
abbrev pub Closing : Type 0
Closing = List (Option ℤ)

-- `closed_after.has_value() && previous_timestamp >= *closed_after`
abbrev pub is_closed : Option ℤ → ℤ → Bool
is_closed none previous = false
is_closed (some closed_after) previous = not (ltb_ℤ previous closed_after)

-- `if (!closed_after.has_value() || previous_timestamp < *closed_after)
--    closing_after_[current] = previous_timestamp;`
abbrev pub close : ℕ → Option ℤ → ℤ → Closing → Closing
close current none previous c = set c current (some previous)
close current (some closed_after) previous c =
    if ltb_ℤ previous closed_after then set c current (some previous) else c

module _ (g : GraphView) (root : ℕ) (window_end : ℤ) where
  unfoldable pub can_reach_edge :
      (ℕ → ℤ → Closing → Result (Bool × Closing))
      → ℤ
      → AdjacencyEntry
      → Closing
      → Result (Bool × Closing)
  unfolding timestamps_after
  can_reach_edge call previous edge c = do
    r ← timestamps_after g.timestamps edge.timestamp_begin edge.timestamp_end previous window_end
    if is_empty r
        then ok (false, c)
        else if edge.vertex == root
        then ok (true, c)
        else until_true (λ offset c. at g.timestamps offset >>= λ time. call edge.vertex time c)
            (range_from r.begin (r.end - r.begin)) c

  unfoldable pub can_reach_root : ℕ → ℕ → ℤ → Closing → Result (Bool × Closing)
  unfolding can_reach_edge
  can_reach_root zero current previous c = err out_of_fuel
  can_reach_root (suc fuel) current previous c = do
    closed_after ← at c current
    if is_closed closed_after previous then ok (false, c) else (do
      edges ← outgoing_row g current
      (found, c') ← until_true (can_reach_edge (can_reach_root fuel) previous) edges c
      ok (found, if found then c' else close current closed_after previous c'))
