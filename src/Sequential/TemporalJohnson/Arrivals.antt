-- ===== src/Sequential/TemporalJohnson/Arrivals.antt =====
-- What the bundle at the end of an edge is worth, how often a bundle closes a cycle, and the bundle of
-- the start events of an edge.
use cycle_enumeration_gpu.Prelude.{
  ℕ, ◌+◌, ◌-◌, ◌*◌, ◌<◌, ◌≡◌, refl, List, [], ◌∷◌, length, range_from, All, All-of_mem, arith,
  ◌>>=◌, at, get_elem?-eq-get_or, for_each,
}
use native.Mathlib.Nat.{mul-add}
use cycle_enumeration_gpu.Prelude.Int.{ℤ, pos}
use cycle_enumeration_gpu.Core.GraphView.{AdjacencyEntry, GraphView}
use cycle_enumeration_gpu.Core.Timestamp.{size, value_at}
use cycle_enumeration_gpu.Sequential.CycleUnion.Search.{IsTimed}
use cycle_enumeration_gpu.Sequential.Closing.Loops.{range_from_bounds}
use cycle_enumeration_gpu.Sequential.Bruteforce.Temporal.Runs.{
  range_after, range_after_lem, offsets,
}
use cycle_enumeration_gpu.Sequential.TemporalJohnson.{
  TimestampBundle, add_count, multiply_count, add_at, extend_arrival, extend_bundle, close_arrival,
  closing_count, start_counts,
}
use cycle_enumeration_gpu.Sequential.TemporalJohnson.Bundles.{
  Fits, bind-Fits, map-Fits, for_each-Fits, add_count-Fits, multiply_count-Fits, value, Ordered,
  Added, add_at-Fits,
}

-- What the timestamps at some offsets are worth.
abbrev pub worth_at : List ℤ → (ℤ → ℕ) → List ℕ → ℕ
worth_at ts worth [] = 0
worth_at ts worth (i ∷ is) = worth (value_at ts i) + worth_at ts worth is

-- An ordered bundle that is worth as much as `total` says.
pub record Worth (total : (ℤ → ℕ) → ℕ) (b : TimestampBundle) : Type 0 where
  pub sums : (worth : ℤ → ℕ) → value worth b ≡ total worth
  pub ordered : Ordered b

module _ (g : GraphView) where
  abbrev pub IsInside : ℕ → Type 0
  IsInside i = i < length g.timestamps

  -- After the offsets `is` the bundle is worth as much as `total` says.
  record Bundled (n : ℕ) (total : (ℤ → ℕ) → ℕ) (is : List ℕ) (b : TimestampBundle) : Type 0 where
    inside : All IsInside is
    sums : (worth : ℤ → ℕ) → value worth b + n * worth_at g.timestamps worth is ≡ total worth
    ordered : Ordered b

  pub each_offset-Fits :
      (n : ℕ) (is : List ℕ) (b : TimestampBundle)
      → All IsInside is
      → Ordered b
      → Fits
          (Worth (λ worth. value worth b + n * worth_at g.timestamps worth is))
          (for_each (λ offset counts. at g.timestamps offset >>= λ time. add_at time n counts) is b)
  each_offset-Fits n is b inside o =
      let total = λ (worth : ℤ → ℕ). value worth b + n * worth_at g.timestamps worth is in
      map-Fits (Bundled n total []) (Worth total) _
        (λ b' f. record { sums = λ worth. omega (arith, f.sums worth); ordered = f.ordered })
        (for_each-Fits (λ offset counts. at g.timestamps offset >>= λ time. add_at time n counts)
          (Bundled n total)
          (λ i is' b' f. rw (get_elem?-eq-get_or g.timestamps i (pos 0) f.inside.0) (
            map-Fits (Added (value_at g.timestamps i) n b') (Bundled n total is') _
              (λ b'' added. record {
                inside = f.inside.1;
                sums = λ worth. omega (
                  arith,
                  added.sums worth,
                  f.sums worth,
                  mul-add n (worth (value_at g.timestamps i)) (worth_at g.timestamps worth is'),
                );
                ordered = added.ordered;
              })
              (add_at-Fits (value_at g.timestamps i) n b' f.ordered)))
          is b (record { inside = inside; sums = λ worth. refl; ordered = o }))

  IsInside-range :
      (e : AdjacencyEntry)
      → IsTimed g.timestamps e
      → All IsInside (range_from e.timestamp_begin (e.timestamp_end - e.timestamp_begin))
  IsInside-range e fine = All-of_mem _ _ (λ i m.
      let (lo, hi) =
        range_from_bounds i e.timestamp_begin (e.timestamp_end - e.timestamp_begin) m in
      omega (arith, fine.1, fine.0))

  -- The start events of an edge, equal times together, are worth what the events are worth.
  pub start_counts-Fits :
      (e : AdjacencyEntry)
      → IsTimed g.timestamps e
      → Fits
          (Worth (λ worth.
            worth_at g.timestamps worth
              (range_from e.timestamp_begin (e.timestamp_end - e.timestamp_begin))))
          (start_counts g e)
  unfolding start_counts
  start_counts-Fits e fine =
      let is = range_from e.timestamp_begin (e.timestamp_end - e.timestamp_begin) in
      map-Fits (Worth (λ worth. 0 + 1 * worth_at g.timestamps worth is))
        (Worth (λ worth. worth_at g.timestamps worth is)) _
        (λ b f. record { sums = λ worth. omega (arith, f.sums worth); ordered = f.ordered })
        (each_offset-Fits 1 is [] (IsInside-range e fine) tt)

  module _ (last : ℤ) (e : AdjacencyEntry) (fine : IsTimed g.timestamps e) where
    abbrev pub after : ℤ → List ℕ
    after now = offsets (range_after g.timestamps last now e)

    pub IsInside-after : (now : ℤ) → All IsInside (after now)
    IsInside-after now =
        let r = range_after g.timestamps last now e in
        let selects = (range_after_lem g.timestamps last now e fine).1 in
        All-of_mem _ (offsets r) (λ i m.
          let (lo, hi) = range_from_bounds i r.begin (r.end - r.begin) m in
          let (a, b, late, early) = (selects i).0 (lo, omega arith) in omega (arith, b, fine.1))

    -- The bundle after some arrivals, with what the other arrivals will add.
    record Extended (total : (ℤ → ℕ) → ℕ) (arrivals b : TimestampBundle) : Type 0 where
      sums :
          (worth : ℤ → ℕ)
          → value worth b + value (λ now. worth_at g.timestamps worth (after now)) arrivals
            ≡ total worth
      ordered : Ordered b

    -- The bundle at the end of an edge is worth what each arrival is worth at the events after it.
    pub extend_bundle-Fits :
        (arrivals : TimestampBundle)
        → Fits
            (Worth (λ worth. value (λ now. worth_at g.timestamps worth (after now)) arrivals))
            (extend_bundle g last arrivals e)
    unfolding extend_bundle extend_arrival
    extend_bundle-Fits arrivals =
        let total =
          λ (worth : ℤ → ℕ). value (λ now. worth_at g.timestamps worth (after now)) arrivals in
        map-Fits (Extended total []) (Worth total) _
          (λ b f. record { sums = λ worth. omega (arith, f.sums worth); ordered = f.ordered })
          (for_each-Fits (extend_arrival g last e) (Extended total)
            (λ a as' b f. rw ((range_after_lem g.timestamps last a.timestamp e fine).0) (
              map-Fits _ (Extended total as') _
                (λ b' more. record {
                  sums = λ worth. omega (arith, f.sums worth, more.sums worth);
                  ordered = more.ordered;
                })
                (each_offset-Fits a.count (after a.timestamp) b (IsInside-after a.timestamp)
                  f.ordered)))
            arrivals [] (record { sums = λ worth. omega arith; ordered = tt }))

    -- How often a bundle closes a cycle over an edge: each arrival with each event after it.
    pub closing_count-Fits :
        (arrivals : TimestampBundle)
        → Fits
            (λ n. n ≡ value (λ now. size (range_after g.timestamps last now e)) arrivals)
            (closing_count g last arrivals e)
    unfolding closing_count close_arrival
    closing_count-Fits arrivals =
        let events = λ (now : ℤ). size (range_after g.timestamps last now e) in
        map-Fits (λ n. n + 0 ≡ value events arrivals) (λ n. n ≡ value events arrivals) _
          (λ n f. omega (arith, f))
          (for_each-Fits (close_arrival g last e)
            (λ as' n. n + value events as' ≡ value events arrivals)
            (λ a as' n f. rw ((range_after_lem g.timestamps last a.timestamp e fine).0) (
              bind-Fits (λ m. m ≡ a.count * events a.timestamp) _
                (multiply_count a.count (events a.timestamp)) (add_count n)
                (multiply_count-Fits a.count (events a.timestamp))
                (λ m same.
                  map-Fits (λ k. k ≡ n + m) _ _ (λ k total. omega (arith, total, same, f))
                    (add_count-Fits n m))))
            arrivals 0 (omega arith))
