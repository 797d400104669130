-- ===== src/Prelude/Lists.antt =====
-- Lists measured and indexed by native numbers, under the library's names.
use Prim.Native.Nat.{ℕ, zero, suc, ◌+◌, ◌<◌, ◌≤◌}
use mathlib.Core.Path.{◌≡◌, refl, sym, ap, subst}
use mathlib.Core.Bool.{Bool, false, ◌||◌}
use mathlib.Core.Logic.{◌⊎◌, inl, inr}
use mathlib.Core.List.{List, [], ◌∷◌, ◌++◌}
use mathlib.Core.Option.{Option, none, some}
use native.Mathlib.Omega.{arith}
use cycle_enumeration_gpu.Prelude.Tests.{◌==◌}

module _ {ℓ} {A : Type ℓ} where
  abbrev pub length : List A → ℕ
  length [] = 0
  length (x ∷ xs) = suc (length xs)

  abbrev pub get_elem? : List A → ℕ → Option A
  get_elem? [] i = none
  get_elem? (x ∷ xs) zero = some x
  get_elem? (x ∷ xs) (suc i) = get_elem? xs i

  -- A write out of bounds changes nothing.
  abbrev pub set : List A → ℕ → A → List A
  set [] i v = []
  set (x ∷ xs) zero v = v ∷ xs
  set (x ∷ xs) (suc i) v = x ∷ set xs i v

  abbrev pub get_or : List A → ℕ → A → A
  get_or [] i d = d
  get_or (x ∷ xs) zero d = x
  get_or (x ∷ xs) (suc i) d = get_or xs i d

  pub get_elem?-eq-get_or :
      (xs : List A) (i : ℕ) (d : A) → i < length xs → get_elem? xs i ≡ some (get_or xs i d)
  get_elem?-eq-get_or [] i d h = absurd (omega arith)
  get_elem?-eq-get_or (x ∷ xs) zero d h = refl
  get_elem?-eq-get_or (x ∷ xs) (suc i) d h = get_elem?-eq-get_or xs i d (omega arith)

  abbrev pub take : ℕ → List A → List A
  take zero xs = []
  take (suc n) [] = []
  take (suc n) (x ∷ xs) = x ∷ take n xs

  abbrev pub drop : ℕ → List A → List A
  drop zero xs = xs
  drop (suc n) [] = []
  drop (suc n) (x ∷ xs) = drop n xs

  abbrev pub replicate : ℕ → A → List A
  replicate zero a = []
  replicate (suc n) a = a ∷ replicate n a

  -- `pop_back`, where the back of the vector is the head of the list.
  abbrev pub tail : List A → List A
  tail [] = []
  tail (x ∷ xs) = xs

  pub length-append : (xs ys : List A) → length (xs ++ ys) ≡ length xs + length ys
  length-append [] ys = omega arith
  length-append (x ∷ xs) ys = omega (arith, length-append xs ys)

  pub length-set : (xs : List A) (i : ℕ) (v : A) → length (set xs i v) ≡ length xs
  length-set [] i v = refl
  length-set (x ∷ xs) zero v = refl
  length-set (x ∷ xs) (suc i) v = ap suc (length-set xs i v)

  pub length-replicate : (n : ℕ) (a : A) → length (replicate n a) ≡ n
  length-replicate zero a = refl
  length-replicate (suc n) a = ap suc (length-replicate n a)

-- `first, first + 1, ..., first + n - 1`
abbrev pub range_from : ℕ → ℕ → List ℕ
range_from first zero = []
range_from first (suc n) = first ∷ range_from (suc first) n

-- The loop variable of `for (v = 0; v < n; ++v)`.
abbrev pub range : ℕ → List ℕ
range n = range_from 0 n

abbrev pub mem : ℕ → List ℕ → Bool
mem a [] = false
mem a (x ∷ xs) = a == x || mem a xs

-- A predicate by recursion computes to tuples, which the tactics read and build.
abbrev pub All {ℓ κ} : {A : Type ℓ} → (A → Type κ) → List A → Type κ
All Holds [] = Unit
All Holds (first ∷ rest) = Holds first × All Holds rest

pub All-range_from : (first n end : ℕ) → first + n ≡ end → All (λ v. v < end) (range_from first n)
All-range_from first zero end e = tt
All-range_from first (suc n) end e = (omega arith, All-range_from (suc first) n end (omega arith))

-- The loop variable stays below the bound.
pub All-range : (n : ℕ) → All (λ v. v < n) (range n)
All-range n = All-range_from 0 n n (omega arith)

abbrev pub flat_map {ℓ κ} : {A : Type ℓ} {B : Type κ} → (A → List B) → List A → List B
flat_map f [] = []
flat_map f (x ∷ xs) = f x ++ flat_map f xs

infix 40 ◌∈◌
abbrev pub ◌∈◌ : {A : Type 0} → A → List A → Type 0
a ∈ [] = ⊥
a ∈ x ∷ xs = (a ≡ x) ⊎ (a ∈ xs)

module _ {A : Type 0} where
  pub mem-append_left : (a : A) (xs ys : List A) → a ∈ xs → a ∈ xs ++ ys
  mem-append_left a [] ys h = absurd h
  mem-append_left a (x ∷ xs) ys (inl e) = inl e
  mem-append_left a (x ∷ xs) ys (inr h) = inr (mem-append_left a xs ys h)

  pub mem-append_right : (a : A) (xs ys : List A) → a ∈ ys → a ∈ xs ++ ys
  mem-append_right a [] ys h = h
  mem-append_right a (x ∷ xs) ys h = inr (mem-append_right a xs ys h)

  pub append_cases : (a : A) (xs ys : List A) → a ∈ xs ++ ys → (a ∈ xs) ⊎ (a ∈ ys)
  append_cases a [] ys h = inr h
  append_cases a (x ∷ xs) ys (inl e) = inl (inl e)
  append_cases a (x ∷ xs) ys (inr h) = elim (append_cases a xs ys h) [
    | inl l ↦ inl (inr l)
    | inr r ↦ inr r
  ]

  pub All-mem {κ} : (P : A → Type κ) (xs : List A) (a : A) → All P xs → a ∈ xs → P a
  All-mem P [] a h m = absurd m
  All-mem P (x ∷ xs) a h (inl e) = subst P (sym e) h.0
  All-mem P (x ∷ xs) a h (inr m) = All-mem P xs a h.1 m

module _ {A B : Type 0} (f : A → List B) where
  pub mem-flat_map : (b : B) (a : A) (xs : List A) → a ∈ xs → b ∈ f a → b ∈ flat_map f xs
  mem-flat_map b a [] h m = absurd h
  mem-flat_map b a (x ∷ xs) (inl e) m =
      mem-append_left b (f x) (flat_map f xs) (subst (λ y. b ∈ f y) e m)
  mem-flat_map b a (x ∷ xs) (inr h) m =
      mem-append_right b (f x) (flat_map f xs) (mem-flat_map b a xs h m)

  pub flat_map_cases : (b : B) (xs : List A) → b ∈ flat_map f xs → (a : A) × (a ∈ xs) × (b ∈ f a)
  flat_map_cases b [] h = absurd h
  flat_map_cases b (x ∷ xs) h = elim (append_cases b (f x) (flat_map f xs) h) [
    | inl l ↦ (x, inl refl, l)
    | inr r ↦ let (a, m, i) = flat_map_cases b xs r in (a, inr m, i)
  ]

pub mem-range_from : (v first n : ℕ) → first ≤ v → v < first + n → v ∈ range_from first n
mem-range_from v first zero h k = absurd (omega arith)
mem-range_from v first (suc n) h k = ground (arith, mem-range_from v (suc first) n)

pub mem-range : (v n : ℕ) → v < n → v ∈ range n
mem-range v n h = mem-range_from v 0 n (omega arith) (omega arith)

module _ {A : Type 0} where
  pub All-of_mem : (P : A → Type 0) (xs : List A) → ((a : A) → a ∈ xs → P a) → All P xs
  All-of_mem P [] h = tt
  All-of_mem P (x ∷ xs) h = (h x (inl refl), All-of_mem P xs (λ a m. h a (inr m)))

  -- No element stands twice.
  abbrev pub Distinct : List A → Type 0
  Distinct [] = Unit {0}
  Distinct (x ∷ xs) = ¬ (x ∈ xs) × Distinct xs

  pub Distinct-append :
      (xs ys : List A)
      → Distinct xs
      → Distinct ys
      → ((a : A) → a ∈ xs → ¬ (a ∈ ys))
      → Distinct (xs ++ ys)
  Distinct-append [] ys d e apart = e
  Distinct-append (x ∷ xs) ys d e apart = (
    λ m. elim (append_cases x xs ys m) [ inl l ↦ d.0 l | inr r ↦ apart x (inl refl) r ],
    Distinct-append xs ys d.1 e (λ a m. apart a (inr m)),
  )

not-mem-range_from : (v first n : ℕ) → v < first → ¬ (v ∈ range_from first n)
not-mem-range_from v first zero h m = m
not-mem-range_from v first (suc n) h (inl e) = omega arith
not-mem-range_from v first (suc n) h (inr m) = not-mem-range_from v (suc first) n (omega arith) m

Distinct-range_from : (first n : ℕ) → Distinct (range_from first n)
Distinct-range_from first zero = tt
Distinct-range_from first (suc n) =
    (not-mem-range_from first (suc first) n (omega arith), Distinct-range_from (suc first) n)

pub Distinct-range : (n : ℕ) → Distinct (range n)
Distinct-range n = Distinct-range_from 0 n

module _ {A B : Type 0} (f : A → List B) where
  pub Distinct-flat_map :
      (xs : List A)
      → Distinct xs
      → ((x : A) → Distinct (f x))
      → ((x y : A) (b : B) → b ∈ f x → b ∈ f y → x ≡ y)
      → Distinct (flat_map f xs)
  Distinct-flat_map [] d each apart = tt
  Distinct-flat_map (x ∷ xs) d each apart =
      Distinct-append (f x) (flat_map f xs) (each x) (Distinct-flat_map xs d.1 each apart) (λ b m n.
        let (y, my, by) = flat_map_cases f b xs n in
        d.0 (subst (λ z. z ∈ xs) (sym (apart x y b m by)) my))
