-- ===== src/Sequential/TemporalJohnson/Extensions.antt =====
-- The bundle at the end of an edge: when 64 bits hold its counts, and what they are.
use cycle_enumeration_gpu.Prelude.{
  ℕ, ◌+◌, ◌*◌, ◌≤◌, ◌≡◌, refl, ◌∙◌, true, List, [], ◌∷◌, leb, All, arith, inl, inr, Bool-cases,
  Result, ok, ◌>>=◌, at, get_elem?-eq-get_or, for_each,
}
use native.Mathlib.Nat.{mul-add}
use cycle_enumeration_gpu.Prelude.Int.{ℤ, pos, ltb_ℤ, eqb_ℤ}
use cycle_enumeration_gpu.Core.Histogram.{max_count}
use cycle_enumeration_gpu.Core.GraphView.{AdjacencyEntry, GraphView}
use cycle_enumeration_gpu.Core.Timestamp.{value_at}
use cycle_enumeration_gpu.Sequential.CycleUnion.Search.{IsTimed}
use cycle_enumeration_gpu.Sequential.Bruteforce.Temporal.Runs.{range_after_lem}
use cycle_enumeration_gpu.Sequential.TemporalJohnson.{
  TimestampBundle, add_count, add_at, extend_arrival, extend_bundle,
}
use cycle_enumeration_gpu.Sequential.TemporalJohnson.Bundles.{
  Fits, value, Ordered, Added, add_at-Fits,
}
use cycle_enumeration_gpu.Sequential.TemporalJohnson.Arrivals.{
  worth_at, IsInside, after, IsInside-after, each_offset-Fits, extend_bundle-Fits,
}
use cycle_enumeration_gpu.Sequential.TemporalJohnson.Closings.{add_count_lem}

-- How many ways to arrive a bundle has.
abbrev pub ways : TimestampBundle → ℕ
ways b = value (λ t. 1) b

-- A call that returns what `Holds` says.
abbrev Gives : {A : Type 0} → (A → Type 0) → Result A → Type 0
Gives {A} Holds r = (a : A) × (r ≡ ok a) × Holds a

-- A call that returns something returns what it is known to return unless it overflows.
gives :
    {A : Type 0} (P : A → Type 0) (r : Result A) → Fits P r → Gives (λ a. Unit {0}) r → Gives P r
gives P r (inl e) (a, e', u) = cc (e, e')
gives P r (inr known) some_ = known

for_each-Gives :
    {A S : Type 0} (step : A → S → Result S) (I : List A → S → Type 0)
    → ((x : A) (xs : List A) (s : S) → I (x ∷ xs) s → Gives (I xs) (step x s))
    → (xs : List A) (s : S) → I xs s
    → Gives (I []) (for_each step xs s)
for_each-Gives step I each [] s i = (s, refl, i)
for_each-Gives step I each (x ∷ xs) s i =
    let (t, e, j) = each x xs s i in
    let (u, run, k) = for_each-Gives step I each xs t j in (u, rw e run, k)

add_count-Gives : (a b : ℕ) → a + b ≤ max_count → add_count a b ≡ ok (a + b)
add_count-Gives a b h =
    let low : a ≤ max_count = omega (arith, h) in
    let fits : leb (a + b) max_count ≡ true = ground (arith, h) in
    add_count_lem a b low ∙ (rw fits refl)

add_at-Gives :
    (t : ℤ) (n : ℕ) (b : TimestampBundle)
    → ways b + n ≤ max_count
    → Gives (λ b'. Unit {0}) (add_at t n b)
unfolding add_at
add_at-Gives t n [] h = let one = add_count-Gives 0 n (omega (arith, h)) in rw one (_, refl, tt)
add_at-Gives t n (e ∷ b) h =
    let fresh = add_count-Gives 0 n (omega (arith, h)) in
    let more = add_count-Gives e.count n (omega (arith, h)) in
    elim (Bool-cases (ltb_ℤ t e.timestamp)) [
      | inl before ↦ rw (before, fresh) (_, refl, tt)
      | inr later ↦ elim (Bool-cases (eqb_ℤ t e.timestamp)) [
        | inl same ↦ rw (later, same, more) (_, refl, tt)
        | inr apart ↦
            let (b', run, u) = add_at-Gives t n b (omega (arith, h)) in
            rw (later, apart, run) (_, refl, tt)
      ]
    ]

module _ (g : GraphView) where
  -- In the loop over offsets: how many ways there are, and how many there will be.
  record Fitting (n : ℕ) (is : List ℕ) (b : TimestampBundle) : Type 0 where
    inside : All (IsInside g) is
    ordered : Ordered b
    room : ways b + n * worth_at g.timestamps (λ t. 1) is ≤ max_count

  each_offset-Gives :
      (n : ℕ) (is : List ℕ) (b : TimestampBundle)
      → Fitting n is b
      → Gives
          (Fitting n [])
          (for_each (λ offset counts. at g.timestamps offset >>= λ time. add_at time n counts) is b)
  each_offset-Gives n is b fits =
      for_each-Gives (λ offset counts. at g.timestamps offset >>= λ time. add_at time n counts)
        (Fitting n)
        (λ i is' b' f.
          let time = value_at g.timestamps i in
          let split = mul-add n 1 (worth_at g.timestamps (λ t. 1) is') in
          let (b'', run, added) =
            gives (Added time n b') _ (add_at-Fits time n b' f.ordered)
              (add_at-Gives time n b' (omega (arith, f.room, split))) in
          rw (get_elem?-eq-get_or g.timestamps i (pos 0) f.inside.0) (
            b'',
            run,
            record {
              inside = f.inside.1;
              ordered = added.ordered;
              room = omega (arith, f.room, split, added.sums (λ t. 1));
            },
          ))
        is b fits

  module _ (last : ℤ) (e : AdjacencyEntry) (fine : IsTimed g.timestamps e) where
    -- What arrivals are worth at the end of the edge: each one at every event after it.
    abbrev pub worth_after : (ℤ → ℕ) → TimestampBundle → ℕ
    worth_after worth arrivals =
        value (λ now. worth_at g.timestamps worth (after g last e fine now)) arrivals

    -- In the loop over the arrivals.
    record Growing (arrivals b : TimestampBundle) : Type 0 where
      ordered : Ordered b
      room : ways b + worth_after (λ t. 1) arrivals ≤ max_count

    extend_bundle-Gives :
        (arrivals : TimestampBundle)
        → worth_after (λ t. 1) arrivals ≤ max_count
        → Gives (Growing []) (extend_bundle g last arrivals e)
    unfolding extend_bundle extend_arrival
    extend_bundle-Gives arrivals room =
        for_each-Gives (extend_arrival g last e) Growing
          (λ a as' b f.
            let is = after g last e fine a.timestamp in
            let inside = IsInside-after g last e fine a.timestamp in
            let (b', run, worthy) = gives _ _ (each_offset-Fits g a.count is b inside f.ordered) (
              let (b'', run', f') =
                each_offset-Gives a.count is b
                  (record { inside = inside; ordered = f.ordered; room = omega (arith, f.room) }) in
              (b'', run', tt)) in
            rw ((range_after_lem g.timestamps last a.timestamp e fine).0) (
              b',
              run,
              record {
                ordered = worthy.ordered;
                room = omega (arith, f.room, worthy.sums (λ t. 1));
              },
            ))
          arrivals [] (record { ordered = tt; room = omega (arith, room) })

    -- Over an edge with sorted timestamps in range, where the arrivals have together no more ways to
    -- the events of the edge that are later and within the window than 64 bits hold, the bundle at
    -- the end of the edge is returned. Its times rise, and for any weight of a time it is worth what
    -- the arrivals are worth at the events after them, so that the ways to each time are kept.
    pub extend_bundle_returns :
        (arrivals : TimestampBundle)
        → worth_after (λ t. 1) arrivals ≤ max_count
        → (b : TimestampBundle) × (extend_bundle g last arrivals e ≡ ok b)
          × Ordered b
          × ((worth : ℤ → ℕ) → value worth b ≡ worth_after worth arrivals)
    extend_bundle_returns arrivals room =
        let (b', run', grown) = extend_bundle-Gives arrivals room in
        let (b, run, worthy) =
          gives _ _ (extend_bundle-Fits g last e fine arrivals) (b', run', tt) in
        (b, run, worthy.ordered, worthy.sums)
