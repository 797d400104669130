-- ===== src/Core/GraphView/Csr.antt =====
-- Rows laid one behind the other, with the offset at which each begins.
use cycle_enumeration_gpu.Prelude.{
  ℕ, zero, suc, ◌+◌, ◌-◌, ◌≤◌, ◌<◌, ◌≡◌, refl, ap, List, [], ◌∷◌, ◌++◌, length, length-append,
  get_or, take, drop, map, All, arith, Result, ok, ◌>>=◌,
}
use cycle_enumeration_gpu.Core.GraphView.Rows.{IsCsr, row_of}

-- `offsets[v + 1] = offsets[v] + rows[v].size()`, from a first offset on.
unfoldable pub offsets_from {ℓ} : {A : Type ℓ} → ℕ → List (List A) → List ℕ
offsets_from a [] = a ∷ []
offsets_from a (r ∷ rs) = a ∷ offsets_from (a + length r) rs

unfoldable pub concat {ℓ} : {A : Type ℓ} → List (List A) → List A
concat [] = []
concat (r ∷ rs) = r ++ concat rs

-- The results of a call for each value, in order.
unfoldable pub collect {ℓ κ} : {A : Type ℓ} {B : Type κ} → (A → Result B) → List A → Result (List B)
collect f [] = ok []
collect f (x ∷ xs) = do y ← f x; ys ← collect f xs; ok (y ∷ ys)

pub length-offsets_from {ℓ} :
    {A : Type ℓ} (a : ℕ) (rows : List (List A)) → length (offsets_from a rows) ≡ suc (length rows)
unfolding offsets_from
length-offsets_from a [] = refl
length-offsets_from a (r ∷ rs) = ap suc (length-offsets_from (a + length r) rs)

-- The offset of row `v` counts the entries of the rows before it.
before {ℓ} : {A : Type ℓ} → ℕ → List (List A) → ℕ
before v [] = 0
before zero (r ∷ rs) = 0
before (suc v) (r ∷ rs) = length r + before v rs

offset-before {ℓ} :
    {A : Type ℓ} (a v : ℕ) (rows : List (List A))
    → v ≤ length rows
    → get_or (offsets_from a rows) v 0 ≡ a + before v rows
unfolding offsets_from before
offset-before a zero [] h = omega arith
offset-before a (suc v) [] h = absurd (omega arith)
offset-before a zero (r ∷ rs) h = omega arith
offset-before a (suc v) (r ∷ rs) h = omega (arith, offset-before (a + length r) v rs)

before-suc {ℓ} :
    {A : Type ℓ} (v : ℕ) (rows : List (List A))
    → before (suc v) rows ≡ before v rows + length (get_or rows v [])
unfolding before
before-suc v [] = omega arith
before-suc zero (r ∷ []) = omega arith
before-suc zero (r ∷ s ∷ rs) = omega arith
before-suc (suc v) (r ∷ rs) = omega (arith, before-suc v rs)

before-le {ℓ} : {A : Type ℓ} (v : ℕ) (rows : List (List A)) → before v rows ≤ length (concat rows)
unfolding before concat
before-le v [] = omega arith
before-le zero (r ∷ rs) = omega arith
before-le (suc v) (r ∷ rs) = omega (arith, before-le v rs, length-append r (concat rs))

pub assembled-IsCsr {ℓ} :
    {A : Type ℓ} (rows : List (List A)) → IsCsr (length rows) (offsets_from 0 rows) (concat rows)
assembled-IsCsr rows = record {
  size = length-offsets_from 0 rows;
  ascending =
      λ v h. omega (arith, offset-before 0 v rows, offset-before 0 (suc v) rows, before-suc v rows);
  inside = λ v h. omega (arith, offset-before 0 (suc v) rows, before-le (suc v) rows);
}

take-append {ℓ} : {A : Type ℓ} (xs ys : List A) → take (length xs) (xs ++ ys) ≡ xs
take-append [] ys = refl
take-append (x ∷ xs) ys = rw (take-append xs ys)

drop-append {ℓ} :
    {A : Type ℓ} (n : ℕ) (xs ys : List A) → drop (length xs + n) (xs ++ ys) ≡ drop n ys
drop-append n [] ys = let e : 0 + n ≡ n = omega arith in rw e
drop-append n (x ∷ xs) ys =
    let e : suc (length xs) + n ≡ suc (length xs + n) = omega arith in rw e (drop-append n xs ys)

slice {ℓ} :
    {A : Type ℓ} (v : ℕ) (rows : List (List A))
    → take (length (get_or rows v [])) (drop (before v rows) (concat rows)) ≡ get_or rows v []
unfolding before concat
slice v [] = refl
slice zero (r ∷ rs) = take-append r (concat rs)
slice (suc v) (r ∷ rs) = rw (drop-append (before v rs) r (concat rs)) (slice v rs)

-- A row is found again where its offsets say.
pub row_of-assembled {ℓ} :
    {A : Type ℓ} (rows : List (List A)) (v : ℕ)
    → v < length rows
    → row_of (offsets_from 0 rows) (concat rows) v ≡ get_or rows v []
unfolding row_of
row_of-assembled rows v h =
    let b : get_or (offsets_from 0 rows) v 0 ≡ before v rows =
      omega (arith, offset-before 0 v rows) in
    let n : get_or (offsets_from 0 rows) (suc v) 0 - before v rows ≡ length (get_or rows v []) =
      omega (arith, offset-before 0 (suc v) rows, before-suc v rows) in
    rw (b, n) (slice v rows)

-- Calls that all return give the list of what they return.
pub collect-ok {ℓ κ} :
    {A : Type ℓ} {B : Type κ} (f : A → Result B) (value : A → B) (xs : List A)
    → All (λ x. f x ≡ ok (value x)) xs
    → collect f xs ≡ ok (map value xs)
unfolding collect
collect-ok f value [] a = refl
collect-ok f value (x ∷ xs) a = rw (a.0, collect-ok f value xs a.1)
