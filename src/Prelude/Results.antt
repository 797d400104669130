-- ===== src/Prelude/Results.antt =====
-- Calls that can throw: the exceptions of the source as values, with the bind of a `do` block.
use Prim.Native.Nat.{ℕ}
use mathlib.Core.Path.{◌≡◌, refl}
use mathlib.Core.Logic.{◌⊎◌, inl, inr}
use mathlib.Core.Bool.{Bool, true, false}
use mathlib.Core.Option.{Option, none, some}
use mathlib.Core.List.{List, [], ◌∷◌, ◌++◌}
use cycle_enumeration_gpu.Prelude.Lists.{get_elem?}

-- The `std` exceptions that the code throws. `bad_access` stands for an index beyond the end of a
-- vector, which the source leaves undefined, and `out_of_fuel` for a model that ran out of rounds.
pub data Error : Type 0 where
  invalid_argument overflow_error out_of_range runtime_error logic_error : Error
  bad_access out_of_fuel : Error

pub data Result {ℓ} (A : Type ℓ) : Type ℓ where
  ok : A → Result A
  err : Error → Result A

-- What follows a call runs with what the call returned, or not at all.
module _ {ℓ κ} {A : Type ℓ} {B : Type κ} where
  infixl 5 ◌>>=◌
  abbrev pub ◌>>=◌ : Result A → (A → Result B) → Result B
  ok returned >>= rest = rest returned
  err thrown >>= rest = err thrown

module _ {ℓ} {B : Type ℓ} where
  infixl 5 ◌>>◌
  abbrev pub ◌>>◌ : Result (Unit {0}) → Result B → Result B
  check >> rest = check >>= λ done. rest

-- `if (bad) throw e;`
abbrev pub throw_if : Bool → Error → Result (Unit {0})
throw_if true e = err e
throw_if false e = ok tt

-- To split on the outcome of a call and keep the equation.
pub Result-cases {ℓ} :
    {A : Type ℓ} (r : Result A) → ((a : A) × (r ≡ ok a)) ⊎ ((e : Error) × (r ≡ err e))
Result-cases (ok a) = inl (a, refl)
Result-cases (err e) = inr (e, refl)

pub >>=_assoc {ℓ κ μ} :
    {A : Type ℓ} {B : Type κ} {C : Type μ} (m : Result A) (f : A → Result B) (g : B → Result C)
    → (m >>= f >>= g) ≡ (m >>= λ a. f a >>= g)
>>=_assoc (ok a) f g = refl
>>=_assoc (err e) f g = refl

pub >>=-ok {ℓ} : {A : Type ℓ} (m : Result A) → (m >>= ok) ≡ m
>>=-ok (ok a) = refl
>>=-ok (err e) = refl

module _ {ℓ} {A : Type ℓ} where
  abbrev pub or_bad_access : Option A → Result A
  or_bad_access (some a) = ok a
  or_bad_access none = err bad_access

  -- `xs[i]`
  abbrev pub at : List A → ℕ → Result A
  at xs i = or_bad_access (get_elem? xs i)

module _ {ℓ κ} {A : Type ℓ} {S : Type κ} where
  -- `for (x : xs) step(x)`, over the state `s`.
  abbrev pub for_each : (A → S → Result S) → List A → S → Result S
  for_each step [] s = ok s
  for_each step (x ∷ xs) s = step x s >>= for_each step xs

  pub for_each-append :
      (step : A → S → Result S) (xs ys : List A) (s : S)
      → for_each step (xs ++ ys) s ≡ (for_each step xs s >>= for_each step ys)
  for_each-append step [] ys s = refl
  for_each-append step (x ∷ xs) ys s =
      elim (step x s)
        as (λ r. (r >>= for_each step (xs ++ ys)) ≡ (r >>= for_each step xs >>= for_each step ys)) [
          | ok t ↦ for_each-append step xs ys t
          | err e ↦ refl
        ]
