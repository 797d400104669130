-- ===== src/Sequential/TemporalJohnson/Runs.antt =====
-- What the temporal Johnson search adds to its histogram: each way to arrive at a vertex adds what the
-- baseline's search from there adds.
use cycle_enumeration_gpu.Prelude.{
  ℕ, suc, ◌+◌, ◌-◌, ◌≤◌, ◌<◌, ◌≡◌, refl, sym, ap, ◌∙◌, ◌^◌, Bool, false, true, ◌&&◌, ◌||◌, List, [],
  ◌∷◌, Option, leb, ◌==◌, if◌then◌else◌, length, mem, All, flat_map, range_from, arith, inl, inr,
  Bool-cases, Result, err, Result-cases, overflow_error, Error,
}
use native.Mathlib.Nat.{mul-add, mul-zero}
use cycle_enumeration_gpu.Prelude.Int.{ℤ}
use cycle_enumeration_gpu.Core.Histogram.{CycleHistogram, Entries, count, increment}
use cycle_enumeration_gpu.Core.Histogram.Laws
use cycle_enumeration_gpu.Core.Histogram.Laws.{
  weight, weight-append, count-increment, increment-IsValid,
}
use cycle_enumeration_gpu.Core.GraphView.{AdjacencyEntry, GraphView}
use cycle_enumeration_gpu.Core.Timestamp.{is_empty, size, value_at}
use cycle_enumeration_gpu.Cycles.{at_limit, cycle_length}
use cycle_enumeration_gpu.Sequential.Closing.{Closing}
use cycle_enumeration_gpu.Sequential.Closing.Walks.{Remembers}
use cycle_enumeration_gpu.Sequential.Bruteforce.Simple.{searching}
use cycle_enumeration_gpu.Sequential.Bruteforce.Temporal.Runs.{range_after, offsets, adds_via}
use cycle_enumeration_gpu.Sequential.TemporalJohnson.{
  TimestampCount, TimestampBundle, TemporalJohnsonStats, JohnsonWorker,
}
use cycle_enumeration_gpu.Sequential.TemporalJohnson.Bundles.{Fits, value, Ordered}
use cycle_enumeration_gpu.Sequential.TemporalJohnson.Arrivals.{worth_at}

-- An increment of a length from 2 on fails only by overflow.
increment_fails :
    (k c : ℕ) (h : CycleHistogram) (e : Error)
    → 2 ≤ k
    → increment k c h ≡ err e
    → e ≡ overflow_error
unfolding increment
increment_fails k c h e long failed = ground (arith, failed)

-- An increment of a valid histogram.
pub record Incremented (k c : ℕ) (h h' : CycleHistogram) : Type 0 where
  pub kept : Laws.IsValid h'
  pub counts : (j : ℕ) → count h' j ≡ count h j + (if j == k then c else 0)

pub increment-Fits :
    (k c : ℕ) (h : CycleHistogram)
    → Laws.IsValid h
    → 2 ≤ k
    → Fits (Incremented k c h) (increment k c h)
increment-Fits k c h valid long = elim (Result-cases (increment k c h)) [
  | inl (h', e) ↦ inr (
    h',
    e,
    record {
      kept = increment-IsValid k c h h' valid e;
      counts = λ j. count-increment k c h h' j e;
    },
  )
  | inr (x, e) ↦ inl (e ∙ ap err (increment_fails k c h x long e))
]

pub value_plus :
    (f k : ℤ → ℕ) (b : TimestampBundle) → value (λ t. f t + k t) b ≡ value f b + value k b
value_plus f k [] = omega arith
value_plus f k (e ∷ b) =
    omega (arith, value_plus f k b, mul-add e.count (f e.timestamp) (k e.timestamp))

-- Bundles with the same arrivals, where each is worth the same.
pub value_same : (f k : ℤ → ℕ) (b : TimestampBundle) → ((t : ℤ) → f t ≡ k t) → value f b ≡ value k b
value_same f k [] same = refl
value_same f k (e ∷ b) same = rw (same e.timestamp, value_same f k b same) refl

pub value_zero :
    (f : ℤ → ℕ) (b : TimestampBundle)
    → All (λ (e : TimestampCount). f e.timestamp ≡ 0) b
    → value f b ≡ 0
value_zero f [] none_ = refl
value_zero f (e ∷ b) none_ = rw (none_.0, value_zero f b none_.1) (omega arith)

pub weight-flat_map_at :
    (j : ℕ) (ts : List ℤ) (adds : ℤ → Entries) (is : List ℕ)
    → weight j (flat_map (λ i. adds (value_at ts i)) is) ≡ worth_at ts (λ t. weight j (adds t)) is
weight-flat_map_at j ts adds [] = refl
weight-flat_map_at j ts adds (i ∷ is) =
    weight-append j (adds (value_at ts i)) (flat_map (λ i. adds (value_at ts i)) is)
    ∙ ap (λ n. weight j (adds (value_at ts i)) + n) (weight-flat_map_at j ts adds is)

module _ (g : GraphView) where
  -- The state of a search that is at the end of `path`.
  abbrev pub johnson_at : List ℕ → CycleHistogram → Closing → TemporalJohnsonStats → JohnsonWorker
  johnson_at path h closing work = record {
    search = searching g.vertex_count path h;
    closing_after = closing;
    work = work;
  }

  -- A search that is back at the end of `path`, and added to the histogram `h` what `adds` says.
  pub record Back (root : ℕ) (last : ℤ) (path : List ℕ) (h : CycleHistogram) (adds : ℕ → ℕ)
      (r : Bool × JohnsonWorker) : Type 0 where
    pub histogram : CycleHistogram
    pub closing : Closing
    pub work : TemporalJohnsonStats
    pub state : r.1 ≡ johnson_at path histogram closing work
    pub kept : Laws.IsValid histogram
    pub remembers : Remembers g root last closing
    pub counts : (j : ℕ) → count histogram j ≡ count h j + adds j

  module _ (width : ℤ) (limit : Option ℕ) (root : ℕ) (last : ℤ)
      (small : suc g.vertex_count < 2 ^ 32) where
    -- What the call of `dfs` at a new vertex is to do.
    abbrev pub Explores :
        (ℕ → TimestampBundle → JohnsonWorker → Result (Bool × JohnsonWorker))
        → (ℕ → ℤ → List ℕ → Entries)
        → List ℕ
        → Type 0
    Explores call deeper path =
        (v : ℕ) (arrivals : TimestampBundle) (h : CycleHistogram) (closing : Closing)
        (work : TemporalJohnsonStats)
        → v < g.vertex_count
        → mem v path ≡ false
        → Ordered arrivals
        → Laws.IsValid h
        → Remembers g root last closing
        → Fits
            (Back root last (v ∷ path) h
              (λ j. value (λ t. weight j (deeper v t (v ∷ path))) arrivals))
            (call v arrivals (johnson_at (v ∷ path) h closing work))

    abbrev pub via : (ℕ → ℤ → List ℕ → Entries) → List ℕ → AdjacencyEntry → ℕ → ℤ → ℕ
    via deeper path e j t = weight j (adds_via g limit root last deeper t path e)

    -- Nothing was added.
    pub stay :
        (path : List ℕ) (h : CycleHistogram) (closing : Closing) (work : TemporalJohnsonStats)
        (found : Bool) (adds : ℕ → ℕ)
        → Laws.IsValid h
        → Remembers g root last closing
        → ((j : ℕ) → adds j ≡ 0)
        → Back root last path h adds (found, johnson_at path h closing work)
    stay path h closing work found adds valid k none_ = record {
      histogram = h;
      closing = closing;
      work = work;
      state = refl;
      kept = valid;
      remembers = k;
      counts = λ j. omega (arith, none_ j);
    }

    pub via_closing :
        (deeper : ℕ → ℤ → List ℕ → Entries) (path : List ℕ) (e : AdjacencyEntry)
        → (e.vertex == root && leb 2 (length path)) ≡ true
        → (j : ℕ) (t : ℤ)
        → via deeper path e j t
          ≡ (if j == cycle_length path then size (range_after g.timestamps last t e) else 0)
    via_closing deeper path e closes j t =
        elim (Bool-cases (is_empty (range_after g.timestamps last t e))) [
          | inl none_ ↦ rw none_ (ground arith)
          | inr some_ ↦ rw (some_, closes) (ground arith)
        ]

    pub via_skipped :
        (deeper : ℕ → ℤ → List ℕ → Entries) (path : List ℕ) (e : AdjacencyEntry)
        → (e.vertex == root && leb 2 (length path)) ≡ false
        → (mem e.vertex path || at_limit limit (length path)) ≡ true
        → (j : ℕ) (t : ℤ) → via deeper path e j t ≡ 0
    via_skipped deeper path e open_ stop j t =
        elim (Bool-cases (is_empty (range_after g.timestamps last t e))) [
          | inl none_ ↦ rw none_ refl
          | inr some_ ↦ rw (some_, open_, stop) refl
        ]

    -- An empty range has no offsets.
    no_offsets :
        (t : ℤ) (e : AdjacencyEntry)
        → is_empty (range_after g.timestamps last t e) ≡ true
        → offsets (range_after g.timestamps last t e) ≡ []
    no_offsets t e none_ =
        let r = range_after g.timestamps last t e in
        let zero_ : r.end - r.begin ≡ 0 = ground (arith, none_) in ap (range_from r.begin) zero_

    pub via_extended :
        (deeper : ℕ → ℤ → List ℕ → Entries) (path : List ℕ) (e : AdjacencyEntry)
        → (e.vertex == root && leb 2 (length path)) ≡ false
        → (mem e.vertex path || at_limit limit (length path)) ≡ false
        → (j : ℕ) (t : ℤ)
        → via deeper path e j t
          ≡ worth_at g.timestamps
              (λ time. weight j (deeper e.vertex time (e.vertex ∷ path)))
              (offsets (range_after g.timestamps last t e))
    via_extended deeper path e open_ go j t =
        elim (Bool-cases (is_empty (range_after g.timestamps last t e))) [
          | inl none_ ↦
              let empty_ = no_offsets t e none_ in
              let nothing =
                ap
                  (worth_at g.timestamps
                    (λ time. weight j (deeper e.vertex time (e.vertex ∷ path))))
                  empty_ in
              rw none_ (sym nothing)
          | inr some_ ↦
              rw (some_, open_, go)
                (weight-flat_map_at j g.timestamps (λ time. deeper e.vertex time (e.vertex ∷ path))
                  (offsets (range_after g.timestamps last t e)))
        ]

    pub value_if :
        (b : Bool) (f : ℤ → ℕ) (arrivals : TimestampBundle)
        → value (λ t. if b then f t else 0) arrivals ≡ (if b then value f arrivals else 0)
    value_if true f arrivals = refl
    value_if false f [] = refl
    value_if false f (a ∷ arrivals) = omega (arith, value_if false f arrivals, mul-zero a.count)
