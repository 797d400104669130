-- ===== src/Sequential/Closing/Loops.antt =====
-- Loops that stop at the first success, and what bounds the depth of the calls of `can_reach_root`.
use cycle_enumeration_gpu.Prelude.{
  ℕ, zero, suc, ◌+◌, ◌≤◌, ◌<◌, ◌≡◌, refl, ap, subst, Bool, true, false, List, [], ◌∷◌, some,
  if◌then◌else◌, length, get_elem?, set, range_from, inl, inr, ◌⊎◌, Bool-cases, arith, ◌∈◌, All,
  Result, ok,
}
use cycle_enumeration_gpu.Prelude.Int.{ℤ, ◌≤ℤ◌, ◌<ℤ◌, ltb_ℤ}
use cycle_enumeration_gpu.Core.Timestamp.{value_at}
use cycle_enumeration_gpu.Sequential.Closing.{until_true}

-- How many timestamps are later than `now`.
pub later : List ℤ → ℤ → ℕ
later [] now = 0
later (t ∷ ts) now = (if ltb_ℤ now t then 1 else 0) + later ts now

pub later-le : (ts : List ℤ) (now : ℤ) → later ts now ≤ length ts
unfolding later
later-le [] now = omega arith
later-le (t ∷ ts) now = ground (arith, later-le ts now)

later_mono : (ts : List ℤ) (a b : ℤ) → a ≤ℤ b → later ts b ≤ later ts a
unfolding later
later_mono [] a b h = omega arith
later_mono (t ∷ ts) a b h = ground (arith, later_mono ts a b h)

pub later-falls :
    (ts : List ℤ) (i : ℕ) (now : ℤ)
    → i < length ts
    → now <ℤ value_at ts i
    → later ts (value_at ts i) < later ts now
unfolding later
later-falls [] i now h l = absurd (omega arith)
later-falls (t ∷ ts) zero now h l = ground (arith, later_mono ts now t)
later-falls (t ∷ ts) (suc i) now h l = ground (arith, later-falls ts i now)

pub set_cases :
    {A : Type 0} (xs : List A) (v w : ℕ) (x y : A)
    → get_elem? (set xs v x) w ≡ some y
    → ((w ≡ v) × (y ≡ x)) ⊎ (get_elem? xs w ≡ some y)
set_cases [] v w x y e = absurd (cc e)
set_cases (z ∷ xs) zero zero x y e = inl (refl, cc e)
set_cases (z ∷ xs) zero (suc w) x y e = inr e
set_cases (z ∷ xs) (suc v) zero x y e = inr e
set_cases (z ∷ xs) (suc v) (suc w) x y e = elim (set_cases xs v w x y e) [
  | inl (a, b) ↦ inl (ap suc a, b)
  | inr o ↦ inr o
]

-- A call that answers whether `P` holds, and keeps what `Keeps` says of the state.
pub record Answers {S : Type 0} (Asked : Type 0) (Keeps : S → Type 0) (r : Result (Bool × S))
    : Type 0 where
  pub answer : Bool
  pub state : S
  pub run : r ≡ ok (answer, state)
  pub yes_ : answer ≡ true → Asked
  pub no_ : answer ≡ false → ¬ Asked
  pub kept : Keeps state

abbrev pub Somewhere : {A : Type 0} → (A → Type 0) → List A → Type 0
Somewhere {A} Holds xs = (x : A) × (x ∈ xs) × Holds x

module _ {A S : Type 0} (step : A → S → Result (Bool × S)) (Holds : A → Type 0)
    (Keeps : S → Type 0) where
  pub until_true-Answers :
      (xs : List A) (s : S)
      → All (λ x. (s' : S) → Keeps s' → Answers (Holds x) Keeps (step x s')) xs
      → Keeps s
      → Answers (Somewhere Holds xs) Keeps (until_true step xs s)
  until_true-Answers [] s a k = record {
    answer = false;
    state = s;
    run = refl;
    yes_ = λ e. absurd (cc e);
    no_ = λ e (x, m, h). m;
    kept = k;
  }
  until_true-Answers (x ∷ xs) s a k =
      let first = a.0 s k in
      elim (Bool-cases first.answer) [
        | inl found ↦ record {
          answer = true;
          state = first.state;
          run = rw (first.run, found) refl;
          yes_ = λ e. (x, inl refl, first.yes_ found);
          no_ = λ e. absurd (cc e);
          kept = first.kept;
        }
        | inr missed ↦
            let rest = until_true-Answers xs first.state a.1 first.kept in
            record {
              answer = rest.answer;
              state = rest.state;
              run = rw (first.run, missed) rest.run;
              yes_ = λ e. let (y, m, h) = rest.yes_ e in (y, inr m, h);
              no_ = λ e (y, m, h). elim m [
                | inl same ↦ first.no_ missed (subst Holds same h)
                | inr there ↦ rest.no_ e (y, there, h)
              ];
              kept = rest.kept;
            }
      ]

pub range_from_bounds : (v first n : ℕ) → v ∈ range_from first n → (first ≤ v) × (v < first + n)
range_from_bounds v first zero m = absurd m
range_from_bounds v first (suc n) (inl e) = (omega arith, omega arith)
range_from_bounds v first (suc n) (inr m) =
    let (a, b) = range_from_bounds v (suc first) n m in (omega arith, omega arith)
