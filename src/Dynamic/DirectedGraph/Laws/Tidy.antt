-- ===== src/Dynamic/DirectedGraph/Laws/Tidy.antt =====
-- The rows that `std::sort` and `std::unique` leave ascend strictly.
use cycle_enumeration_gpu.Prelude.{
  ℕ, ◌≤◌, ◌<◌, inl, inr, Bool-cases, List, [], ◌∷◌, ltb, ◌==◌, All, arith,
}
use cycle_enumeration_gpu.Prelude.Sort.{insert, sort, unique, unique_after}
use cycle_enumeration_gpu.Dynamic.DirectedGraph.{tidy}

abbrev Weakly : List ℕ → Type 0
Weakly [] = Unit
Weakly (x ∷ xs) = All (λ y. x ≤ y) xs × Weakly xs

-- Each element is below all that follow.
abbrev pub Ascending : List ℕ → Type 0
Ascending [] = Unit
Ascending (x ∷ xs) = All (λ y. x < y) xs × Ascending xs

All-insert : (P : ℕ → Type 0) (x : ℕ) (ys : List ℕ) → P x → All P ys → All P (insert ltb x ys)
unfolding insert
All-insert P x [] p a = (p, tt)
All-insert P x (y ∷ ys) p a = elim (Bool-cases (ltb y x)) [
  | inl e ↦ rw e (a.0, All-insert P x ys p a.1)
  | inr e ↦ rw e (p, a)
]

All-le : (x y : ℕ) (ys : List ℕ) → x ≤ y → All (λ z. y ≤ z) ys → All (λ z. x ≤ z) ys
All-le x y [] h a = tt
All-le x y (z ∷ zs) h a = (omega (arith, a.0), All-le x y zs h a.1)

Weakly-insert : (x : ℕ) (ys : List ℕ) → Weakly ys → Weakly (insert ltb x ys)
unfolding insert
Weakly-insert x [] w = (tt, tt)
Weakly-insert x (y ∷ ys) w = elim (Bool-cases (ltb y x)) [
  | inl e ↦ rw e (All-insert (λ z. y ≤ z) x ys (ground (arith, e)) w.0, Weakly-insert x ys w.1)
  | inr e ↦ let h : x ≤ y = ground (arith, e) in rw e ((h, All-le x y ys h w.0), w)
]

Weakly-sort : (xs : List ℕ) → Weakly (sort ltb xs)
unfolding sort
Weakly-sort [] = tt
Weakly-sort (x ∷ xs) = Weakly-insert x (sort ltb xs) (Weakly-sort xs)

All-lt : (x y : ℕ) (ys : List ℕ) → x < y → All (λ z. y < z) ys → All (λ z. x < z) ys
All-lt x y [] h a = tt
All-lt x y (z ∷ zs) h a = (omega (arith, a.0), All-lt x y zs h a.1)

Ascending-unique_after :
    (x : ℕ) (ys : List ℕ) → All (λ y. x ≤ y) ys → Weakly ys → Ascending (x ∷ unique_after ◌==◌ x ys)
unfolding unique_after
Ascending-unique_after x [] a w = (tt, tt)
Ascending-unique_after x (y ∷ ys) a w = elim (Bool-cases (x == y)) [
  | inl e ↦ rw e (Ascending-unique_after x ys a.1 w.1)
  | inr e ↦
      let h : x < y = ground (arith, e, a.0) in
      let rest = Ascending-unique_after y ys w.0 w.1 in rw e ((h, All-lt x y _ h rest.0), rest)
]

pub Ascending-tidy : (xs : List ℕ) → Ascending (tidy xs)
unfolding unique
Ascending-tidy xs = go (sort ltb xs) (Weakly-sort xs)
  where
    go : (ys : List ℕ) → Weakly ys → Ascending (unique ◌==◌ ys)
    go [] w = tt
    go (y ∷ ys) w = Ascending-unique_after y ys w.0 w.1
