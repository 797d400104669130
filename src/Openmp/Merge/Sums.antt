-- ===== src/Openmp/Merge/Sums.antt =====
-- What sequences of increments add, in whatever order they are made.
use cycle_enumeration_gpu.Prelude.{
  ℕ, ◌+◌, ◌≤◌, ◌≡◌, refl, sym, subst, ◌∙◌, List, [], ◌∷◌, ◌++◌, append_assoc, All, flat_map, arith,
}
use mathlib.Core.List.{Permᴰ}
use cycle_enumeration_gpu.Core.Histogram.{Entries}
use cycle_enumeration_gpu.Core.Histogram.Laws.{weight, weight-append}

pub flat_map-append :
    {A B : Type 0} (f : A → List B) (xs ys : List A)
    → flat_map f (xs ++ ys) ≡ flat_map f xs ++ flat_map f ys
flat_map-append f [] ys = refl
flat_map-append f (x ∷ xs) ys =
    rw (flat_map-append f xs ys) (sym (append_assoc (f x) (flat_map f xs) (flat_map f ys)))

pub weight-flat_map :
    (f : ℕ → Entries) (j : ℕ) (xs ys : List ℕ)
    → weight j (flat_map f (xs ++ ys)) ≡ weight j (flat_map f xs) + weight j (flat_map f ys)
weight-flat_map f j xs ys =
    rw (flat_map-append f xs ys) (weight-append j (flat_map f xs) (flat_map f ys))

pub All-append :
    {A : Type 0} (P : A → Type 0) (xs ys : List A) → All P (xs ++ ys) → All P xs × All P ys
All-append P [] ys a = (tt, a)
All-append P (x ∷ xs) ys a = let (l, r) = All-append P xs ys a.1 in ((a.0, l), r)

pub All-flat_map :
    {A B : Type 0} (P : B → Type 0) (f : A → List B) (xs ys : List A)
    → All P (flat_map f (xs ++ ys))
    → All P (flat_map f xs) × All P (flat_map f ys)
All-flat_map P f xs ys a =
    All-append P (flat_map f xs) (flat_map f ys) (subst (All P) (flat_map-append f xs ys) a)

All-each_flat_map :
    {A B : Type 0} (P : B → Type 0) (f : A → List B) (xs : List A)
    → All P (flat_map f xs)
    → All (λ x. All P (f x)) xs
All-each_flat_map P f [] a = tt
All-each_flat_map P f (x ∷ xs) a =
    let (l, r) = All-append P (f x) (flat_map f xs) a in (l, All-each_flat_map P f xs r)

pub All-join :
    {A : Type 0} (P : A → Type 0) (xs ys : List A) → All P xs → All P ys → All P (xs ++ ys)
All-join P [] ys a b = b
All-join P (x ∷ xs) ys a b = (a.0, All-join P xs ys a.1 b)

All-flat_map_each :
    {A B : Type 0} (P : B → Type 0) (f : A → List B) (xs : List A)
    → All (λ x. All P (f x)) xs
    → All P (flat_map f xs)
All-flat_map_each P f [] a = tt
All-flat_map_each P f (x ∷ xs) a =
    All-join P (f x) (flat_map f xs) a.0 (All-flat_map_each P f xs a.1)

-- The order of the roots does not change what they add.
pub weight-Permᴰ :
    (f : ℕ → Entries) (j : ℕ) {xs ys : List ℕ}
    → Permᴰ xs ys
    → weight j (flat_map f xs) ≡ weight j (flat_map f ys)
weight-Permᴰ f j Permᴰ.nil = refl
weight-Permᴰ f j (Permᴰ.cons {a} {b} {l₁} {l₂} e d) =
    rw (e, weight-append j (f b) (flat_map f l₁), weight-append j (f b) (flat_map f l₂))
      (omega (arith, weight-Permᴰ f j d))
weight-Permᴰ f j (Permᴰ.swap {a} {b} {a'} {b'} {l} e e') =
    rw
      (
        e,
        e',
        weight-append j (f b') (f a' ++ flat_map f l),
        weight-append j (f a') (flat_map f l),
        weight-append j (f a') (f b' ++ flat_map f l),
        weight-append j (f b') (flat_map f l),
      )
      (omega arith)
weight-Permᴰ f j (Permᴰ.trans d d') = weight-Permᴰ f j d ∙ weight-Permᴰ f j d'

pub All-Permᴰ : (P : ℕ → Type 0) {xs ys : List ℕ} → Permᴰ xs ys → All P ys → All P xs
All-Permᴰ P Permᴰ.nil a = tt
All-Permᴰ P (Permᴰ.cons e d) a = (subst P (sym e) a.0, All-Permᴰ P d a.1)
All-Permᴰ P (Permᴰ.swap e e') a = (subst P (sym e) a.1.0, (subst P (sym e') a.0, a.1.1))
All-Permᴰ P (Permᴰ.trans d d') a = All-Permᴰ P d (All-Permᴰ P d' a)

-- What the increments add decides whether a sequence of them is of lengths from 2 on.
pub lengths-Permᴰ :
    (f : ℕ → Entries) {xs ys : List ℕ}
    → Permᴰ xs ys
    → All (λ (k, c). 2 ≤ k) (flat_map f ys)
    → All (λ (k, c). 2 ≤ k) (flat_map f xs)
lengths-Permᴰ f {xs} {ys} d a =
    All-flat_map_each (λ (x : ℕ × ℕ). 2 ≤ x.0) f xs
      (All-Permᴰ (λ x. All (λ (y : ℕ × ℕ). 2 ≤ y.0) (f x)) d
        (All-each_flat_map (λ (x : ℕ × ℕ). 2 ≤ x.0) f ys a))
