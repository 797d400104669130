-- ===== src/Sequential/TemporalJohnson/Bundles.antt =====
-- What a bundle of arrivals is worth: how often each of its arrivals counts. The operations on bundles
-- keep that worth, or overflow.
use cycle_enumeration_gpu.Prelude.{
  ℕ, ◌+◌, ◌-◌, ◌*◌, ◌/◌, ◌≡◌, refl, ◌||◌, List, [], ◌∷◌, ltb, ◌==◌, All, arith, inl, inr, ◌⊎◌,
  Bool-cases, Result, ok, err, ◌>>=◌, for_each, overflow_error,
}
use native.Mathlib.Nat.{add-mul}
use cycle_enumeration_gpu.Prelude.Int.{ℤ, ◌<ℤ◌, ltb_ℤ, eqb_ℤ, eq_of_parts}
use cycle_enumeration_gpu.Core.Histogram.{max_count}
use cycle_enumeration_gpu.Sequential.TemporalJohnson.{
  TimestampCount, TimestampBundle, add_count, multiply_count, add_at,
}

-- A call that overflows, or returns what `Holds` says.
abbrev pub Fits : {A : Type 0} → (A → Type 0) → Result A → Type 0
Fits {A} Holds r = (r ≡ err overflow_error) ⊎ ((a : A) × (r ≡ ok a) × Holds a)

pub bind-Fits :
    {A B : Type 0} (P : A → Type 0) (Q : B → Type 0) (r : Result A) (k : A → Result B)
    → Fits P r
    → ((a : A) → P a → Fits Q (k a))
    → Fits Q (r >>= k)
bind-Fits P Q r k (inl e) next = inl (rw e refl)
bind-Fits P Q r k (inr (a, e, p)) next = rw e (next a p)

pub map-Fits :
    {A : Type 0} (P Q : A → Type 0) (r : Result A) → ((a : A) → P a → Q a) → Fits P r → Fits Q r
map-Fits P Q r f (inl e) = inl e
map-Fits P Q r f (inr (a, e, p)) = inr (a, e, f a p)

pub for_each-Fits :
    {A S : Type 0} (step : A → S → Result S) (I : List A → S → Type 0)
    → ((x : A) (xs : List A) (s : S) → I (x ∷ xs) s → Fits (I xs) (step x s))
    → (xs : List A) (s : S) → I xs s
    → Fits (I []) (for_each step xs s)
for_each-Fits step I each [] s i = inr (s, refl, i)
for_each-Fits step I each (x ∷ xs) s i =
    bind-Fits (I xs) (I []) (step x s) (for_each step xs) (each x xs s i)
      (λ t j. for_each-Fits step I each xs t j)

pub add_count-Fits : (a b : ℕ) → Fits (λ n. n ≡ a + b) (add_count a b)
unfolding add_count
add_count-Fits a b = elim (Bool-cases (ltb (max_count - a) b)) [
  | inl over ↦ inl (rw over refl)
  | inr under ↦ inr (a + b, rw under refl, refl)
]

pub multiply_count-Fits : (a b : ℕ) → Fits (λ n. n ≡ a * b) (multiply_count a b)
unfolding multiply_count
multiply_count-Fits a b = elim (Bool-cases (a == 0 || b == 0)) [
  | inl none_ ↦ inr (0, rw none_ refl, ground (arith, none_))
  | inr some_ ↦ elim (Bool-cases (ltb (max_count / a) b)) [
    | inl over ↦ inl (rw (some_, over) refl)
    | inr under ↦ inr (a * b, rw (some_, under) refl, refl)
  ]
]

-- What the bundle is worth where an arrival at a time is worth `worth`.
abbrev pub value : (ℤ → ℕ) → TimestampBundle → ℕ
value worth [] = 0
value worth (e ∷ b) = e.count * worth e.timestamp + value worth b

-- The times rise.
abbrev pub Ordered : TimestampBundle → Type 0
Ordered [] = Unit {0}
Ordered (e ∷ b) = All (λ (e' : TimestampCount). e.timestamp <ℤ e'.timestamp) b × Ordered b

-- A bundle to which so many ways to arrive at a time were added.
pub record Added (time : ℤ) (n : ℕ) (b b' : TimestampBundle) : Type 0 where
  pub sums : (worth : ℤ → ℕ) → value worth b' ≡ value worth b + n * worth time
  pub after :
      (u : ℤ)
      → u <ℤ time
      → All (λ (e : TimestampCount). u <ℤ e.timestamp) b
      → All (λ (e : TimestampCount). u <ℤ e.timestamp) b'
  pub ordered : Ordered b'

later_all :
    (t u : ℤ) (b : TimestampBundle)
    → t <ℤ u
    → All (λ (e : TimestampCount). u <ℤ e.timestamp) b
    → All (λ (e : TimestampCount). t <ℤ e.timestamp) b
later_all t u [] h a = tt
later_all t u (e ∷ b) h a = (omega arith, later_all t u b h a.1)

pub add_at-Fits :
    (t : ℤ) (n : ℕ) (b : TimestampBundle) → Ordered b → Fits (Added t n b) (add_at t n b)
unfolding add_at
add_at-Fits t n [] o =
    bind-Fits (λ m. m ≡ 0 + n) (Added t n []) (add_count 0 n) _ (add_count-Fits 0 n)
      (λ m e. inr (
        record { timestamp = t; count = m } ∷ [],
        refl,
        record {
          sums = λ worth. let same : m ≡ n = omega (arith, e) in rw same (omega arith);
          after = λ u late a. (late, tt);
          ordered = (tt, tt);
        },
      ))
add_at-Fits t n (e ∷ b) o = elim (Bool-cases (ltb_ℤ t e.timestamp)) [
  | inl before ↦ rw before (
      bind-Fits (λ m. m ≡ 0 + n) (Added t n (e ∷ b)) (add_count 0 n) _ (add_count-Fits 0 n)
        (λ m same. inr (
          record { timestamp = t; count = m } ∷ e ∷ b,
          refl,
          record {
            sums = λ worth. let same' : m ≡ n = omega (arith, same) in rw same' (omega arith);
            after = λ u late a. (late, a);
            ordered = (
              (ground (arith, before), later_all t e.timestamp b (ground (arith, before)) o.0),
              o,
            );
          },
        )))
  | inr later ↦ elim (Bool-cases (eqb_ℤ t e.timestamp)) [
    | inl same ↦
        let same_time : t ≡ e.timestamp = eq_of_parts t e.timestamp (ground (arith, same)) in
        rw (later, same)
          (bind-Fits (λ m. m ≡ e.count + n) (Added t n (e ∷ b)) (add_count e.count n) _
            (add_count-Fits e.count n)
            (λ m total. inr (
              record e { count = m } ∷ b,
              refl,
              record {
                sums = λ worth. rw (total, same_time, add-mul) (omega arith);
                after = λ u late a. a;
                ordered = o;
              },
            )))
    | inr apart ↦
        rw (later, apart)
          (bind-Fits (Added t n b) (Added t n (e ∷ b)) (add_at t n b) _ (add_at-Fits t n b o.1)
            (λ b' f. inr (
              e ∷ b',
              refl,
              record {
                sums = λ worth. omega (arith, f.sums worth);
                after = λ u late a. (a.0, f.after u late a.1);
                ordered = (f.after e.timestamp (ground (arith, later, apart)) o.0, f.ordered);
              },
            )))
  ]
]
