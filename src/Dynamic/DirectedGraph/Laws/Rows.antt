-- ===== src/Dynamic/DirectedGraph/Laws/Rows.antt =====
-- What the parts of a row hold.
use cycle_enumeration_gpu.Prelude.{
  ℕ, zero, suc, ◌<◌, ◌≡◌, refl, ap, ◌∙◌, Bool, true, false, not, ◌&&◌, ◌||◌, inl, inr, Bool-cases,
  List, [], ◌∷◌, ◌++◌, ltb, ◌==◌, length, length-set, set, get_elem?, some, arith,
}
use cycle_enumeration_gpu.Prelude.Sort.{insert, sort, unique, unique_after}
use cycle_enumeration_gpu.Dynamic.EdgeChange.{EdgeChange, same_change, change_lt}
use cycle_enumeration_gpu.Dynamic.DirectedGraph.{
  tidy, touch, holds_change, holds_vertex, kept, added,
}

holds_vertex-insert :
    (x v : ℕ) (ys : List ℕ) → holds_vertex (insert ltb x ys) v ≡ (x == v || holds_vertex ys v)
unfolding insert holds_vertex
holds_vertex-insert x v [] = refl
holds_vertex-insert x v (y ∷ ys) = ground (arith, holds_vertex-insert x v ys)

holds_vertex-sort : (v : ℕ) (xs : List ℕ) → holds_vertex (sort ltb xs) v ≡ holds_vertex xs v
unfolding sort holds_vertex
holds_vertex-sort v [] = refl
holds_vertex-sort v (x ∷ xs) =
    holds_vertex-insert x v (sort ltb xs) ∙ ap (λ b. x == v || b) (holds_vertex-sort v xs)

holds_vertex-unique_after :
    (x v : ℕ) (xs : List ℕ)
    → (x == v || holds_vertex (unique_after ◌==◌ x xs) v) ≡ (x == v || holds_vertex xs v)
unfolding unique_after holds_vertex
holds_vertex-unique_after x v [] = refl
holds_vertex-unique_after x v (y ∷ ys) =
    ground (arith, holds_vertex-unique_after x v ys, holds_vertex-unique_after y v ys)

holds_vertex-unique : (v : ℕ) (xs : List ℕ) → holds_vertex (unique ◌==◌ xs) v ≡ holds_vertex xs v
unfolding unique holds_vertex
holds_vertex-unique v [] = refl
holds_vertex-unique v (x ∷ xs) = holds_vertex-unique_after x v xs

pub holds_vertex-tidy : (v : ℕ) (xs : List ℕ) → holds_vertex (tidy xs) v ≡ holds_vertex xs v
holds_vertex-tidy v xs = holds_vertex-unique v (sort ltb xs) ∙ holds_vertex-sort v xs

pub holds_vertex-append :
    (v : ℕ) (xs ys : List ℕ) → holds_vertex (xs ++ ys) v ≡ (holds_vertex xs v || holds_vertex ys v)
unfolding holds_vertex
holds_vertex-append v [] ys = refl
holds_vertex-append v (x ∷ xs) ys = ground (arith, holds_vertex-append v xs ys)

pub holds_vertex-kept :
    (ds : List EdgeChange) (s v : ℕ) (xs : List ℕ)
    → holds_vertex (kept ds s xs) v
      ≡ (holds_vertex xs v && not (holds_change ds (record { source = s; target = v })))
unfolding kept holds_vertex
holds_vertex-kept ds s v [] = refl
holds_vertex-kept ds s v (x ∷ xs) = elim (Bool-cases (x == v)) [
  | inl e ↦ let x≡v : x ≡ v = ground (arith, e) in kept_same x≡v (holds_vertex-kept ds s v xs)
  | inr e ↦ ground (arith, e, holds_vertex-kept ds s v xs)
]
  where
    kept_same :
        x ≡ v
        → holds_vertex (kept ds s xs) v
          ≡ (holds_vertex xs v && not (holds_change ds (record { source = s; target = v })))
        → holds_vertex (kept ds s (x ∷ xs)) v
          ≡ (holds_vertex (x ∷ xs) v && not (holds_change ds (record { source = s; target = v })))
    kept_same p ih = rw p (ground (arith, ih))

pub holds_vertex-added :
    (cs : List EdgeChange) (s v : ℕ)
    → holds_vertex (added cs s) v ≡ holds_change cs (record { source = s; target = v })
unfolding added holds_vertex holds_change
holds_vertex-added [] s v = refl
holds_vertex-added (c ∷ cs) s v = ground (arith, holds_vertex-added cs s v)

or-swap : (a b c : Bool) → (a || (b || c)) ≡ (b || (a || c))
or-swap true true c = refl
or-swap true false c = refl
or-swap false true c = refl
or-swap false false c = refl

or_assoc : (a b c : Bool) → (a || (b || c)) ≡ ((a || b) || c)
or_assoc true b c = refl
or_assoc false b c = refl

holds_change-insert :
    (x c : EdgeChange) (ys : List EdgeChange)
    → holds_change (insert change_lt x ys) c ≡ (same_change x c || holds_change ys c)
unfolding insert holds_change
holds_change-insert x c [] = refl
holds_change-insert x c (y ∷ ys) = elim (Bool-cases (change_lt y x)) [
  | inl e ↦ rw e (
      ap (λ b. same_change y c || b) (holds_change-insert x c ys)
      ∙ or-swap (same_change y c) (same_change x c) _)
  | inr e ↦ rw e
]

pub holds_change-sort :
    (c : EdgeChange) (xs : List EdgeChange) → holds_change (sort change_lt xs) c ≡ holds_change xs c
unfolding sort holds_change
holds_change-sort c [] = refl
holds_change-sort c (x ∷ xs) =
    holds_change-insert x c (sort change_lt xs)
    ∙ ap (λ b. same_change x c || b) (holds_change-sort c xs)

-- Whether a change leaves the source.
abbrev pub touches : ℕ → List EdgeChange → Bool
touches s [] = false
touches s (c ∷ cs) = c.source == s || touches s cs

get-set :
    (flags : List Bool) (i j : ℕ) (b : Bool)
    → j < length flags
    → get_elem? flags j ≡ some b
    → get_elem? (set flags i true) j ≡ some (i == j || b)
get-set [] i j b h e = absurd (omega arith)
get-set (x ∷ xs) zero zero b h e = refl
get-set (x ∷ xs) zero (suc j) b h e = let m : (0 == suc j) ≡ false = ground arith in rw m e
get-set (x ∷ xs) (suc i) zero b h e = let m : (suc i == 0) ≡ false = ground arith in rw m e
get-set (x ∷ xs) (suc i) (suc j) b h e =
    let m : (suc i == suc j) ≡ (i == j) = ground arith in rw m (get-set xs i j b (omega arith) e)

pub get-touch :
    (n : ℕ) (cs : List EdgeChange) (flags : List Bool) (s : ℕ) (b : Bool)
    → length flags ≡ n
    → s < n
    → get_elem? flags s ≡ some b
    → get_elem? (touch n cs flags) s ≡ some (touches s cs || b)
unfolding touch
get-touch n [] flags s b l h e = e
get-touch n (c ∷ cs) flags s b l h e = elim (Bool-cases (ltb c.source n)) [
  | inl k ↦ rw k (
      get-touch n cs (set flags c.source true) s (c.source == s || b)
        (length-set flags c.source true ∙ l) h (get-set flags c.source s b (omega (arith, l)) e)
      ∙ ap some
          (or-swap (touches s cs) (c.source == s) b ∙ or_assoc (c.source == s) (touches s cs) b))
  | inr k ↦ rw k (
      get-touch n cs flags s b l h e
      ∙ (let m : (c.source == s) ≡ false = ground (arith, k) in rw m))
]

-- No change that leaves another source is among them.
pub holds_change-untouched :
    (cs : List EdgeChange) (s v : ℕ)
    → touches s cs ≡ false
    → holds_change cs (record { source = s; target = v }) ≡ false
unfolding holds_change
holds_change-untouched [] s v h = refl
holds_change-untouched (c ∷ cs) s v h = ground (arith, holds_change-untouched cs s v)
