-- ===== src/Dynamic/Update/Sums.antt =====
-- Sums of differences: what a sequence of changes adds to the vector of differences.
use cycle_enumeration_gpu.Prelude.{
  ℕ, zero, suc, ◌+◌, ◌≤◌, ◌<◌, ◌≡◌, refl, sym, ap, ◌∙◌, ◌&&◌, true, false, inl, inr, Bool-cases,
  List, [], ◌∷◌, ◌++◌, leb, ltb, ◌==◌, if◌then◌else◌, length, length-set, length-replicate,
  replicate, set, get_or, range_from, arith, Result, ok, for_each,
}
use mathlib.Core.List.{Permᴰ}
use cycle_enumeration_gpu.Prelude.Int.{ℤ, pos}
use cycle_enumeration_gpu.Dynamic.Update.{◌+ll◌}
use cycle_enumeration_gpu.Dynamic.Update.Words.{
  Held, zero-Held, sum-Held, +ll_assoc, +ll_comm, +ll-zero, zero-+ll, plus_zero,
}

-- One value added at each length from `a` on.
pub add_all : (ℕ → ℤ) → ℕ → ℕ → List ℤ → List ℤ
add_all f a zero delta = delta
add_all f a (suc n) delta = add_all f (suc a) n (set delta a (get_or delta a (pos 0) +ll f a))

pub length-add_all :
    (f : ℕ → ℤ) (a n : ℕ) (delta : List ℤ) → length (add_all f a n delta) ≡ length delta
unfolding add_all
length-add_all f a zero delta = refl
length-add_all f a (suc n) delta =
    length-add_all f (suc a) n (set delta a (get_or delta a (pos 0) +ll f a)) ∙ length-set delta a _

pub for_each-add_all :
    (step : ℕ → List ℤ → Result (List ℤ)) (f : ℕ → ℤ) (bound : ℕ)
    → ((k : ℕ) (delta : List ℤ)
        → k < bound
        → length delta ≡ bound
        → step k delta ≡ ok (set delta k (get_or delta k (pos 0) +ll f k)))
    → (a n : ℕ) (delta : List ℤ) → a + n ≤ bound
    → length delta ≡ bound
    → for_each step (range_from a n) delta ≡ ok (add_all f a n delta)
unfolding add_all
for_each-add_all step f bound steps a zero delta h l = refl
for_each-add_all step f bound steps a (suc n) delta h l = rw (steps a delta (omega arith) l) (
    for_each-add_all step f bound steps (suc a) n (set delta a (get_or delta a (pos 0) +ll f a))
      (omega arith) (length-set delta a _ ∙ l))

get_or-set :
    (xs : List ℤ) (i : ℕ) (x : ℤ) (j : ℕ)
    → i < length xs
    → get_or (set xs i x) j (pos 0) ≡ (if j == i then x else get_or xs j (pos 0))
get_or-set [] i x j h = absurd (omega arith)
get_or-set (y ∷ ys) zero x zero h = refl
get_or-set (y ∷ ys) zero x (suc j) h = ground arith
get_or-set (y ∷ ys) (suc i) x zero h = ground arith
get_or-set (y ∷ ys) (suc i) x (suc j) h = ground (arith, get_or-set ys i x j)

pub get-add_all :
    (f : ℕ → ℤ) (a n : ℕ) (delta : List ℤ) (j : ℕ)
    → a + n ≤ length delta
    → get_or (add_all f a n delta) j (pos 0) ≡ (
        if leb a j && ltb j (a + n) then get_or delta j (pos 0) +ll f j else get_or delta j (pos 0))
unfolding add_all
get-add_all f a zero delta j h =
    let none_in : (leb a j && ltb j (a + 0)) ≡ false = ground arith in rw none_in
get-add_all f a (suc n) delta j h =
    let x = get_or delta a (pos 0) +ll f a in
    let here = get_or-set delta a x j (omega arith) in
    let there = get-add_all f (suc a) n (set delta a x) j (omega (arith, length-set delta a x)) in
    elim (Bool-cases (j == a)) [
      | inl e ↦
          let same : j ≡ a = ground (arith, e) in
          let out : (leb (suc a) j && ltb j (suc a + n)) ≡ false = ground (arith, e) in
          let inn : (leb a j && ltb j (a + suc n)) ≡ true = ground (arith, e) in
          rw inn (
            (rw out at there)
            ∙ (rw e at here)
            ∙ ap (λ k. get_or delta k (pos 0) +ll f k) (sym same))
      | inr e ↦
          let agree : (leb (suc a) j && ltb j (suc a + n)) ≡ (leb a j && ltb j (a + suc n)) =
            ground (arith, e) in
          let old : get_or (set delta a x) j (pos 0) ≡ get_or delta j (pos 0) = rw e at here in
          rw (← agree) (rw old at there)
    ]

ext :
    (xs ys : List ℤ)
    → length xs ≡ length ys
    → ((j : ℕ) → get_or xs j (pos 0) ≡ get_or ys j (pos 0))
    → xs ≡ ys
ext [] [] l e = refl
ext [] (y ∷ ys) l e = absurd (omega (arith, l))
ext (x ∷ xs) [] l e = absurd (omega (arith, l))
ext (x ∷ xs) (y ∷ ys) l e = cc (e 0, ext xs ys (omega (arith, l)) (λ j. e (suc j)))

-- Two rounds of additions are one.
pub add_all-add_all :
    (f h : ℕ → ℤ) (a n : ℕ) (delta : List ℤ)
    → a + n ≤ length delta
    → add_all h a n (add_all f a n delta) ≡ add_all (λ j. f j +ll h j) a n delta
add_all-add_all f h a n delta room =
    let lf = length-add_all f a n delta in
    ext _ _
      (length-add_all h a n (add_all f a n delta)
        ∙ lf
        ∙ sym (length-add_all (λ j. f j +ll h j) a n delta))
      (λ j.
        let one = get-add_all f a n delta j room in
        let two = get-add_all h a n (add_all f a n delta) j (omega (arith, lf)) in
        let both = get-add_all (λ k. f k +ll h k) a n delta j room in
        elim (Bool-cases (leb a j && ltb j (a + n))) [
          | inl c ↦
              (rw c at two)
              ∙ ap (λ z. z +ll h j) (rw c at one)
              ∙ +ll_assoc _ _ _
              ∙ sym (rw c at both)
          | inr c ↦ (rw c at two) ∙ (rw c at one) ∙ sym (rw c at both)
        ])

get_or-zeros : (n j : ℕ) → get_or (replicate n (pos 0)) j (pos 0) ≡ pos 0
get_or-zeros zero j = refl
get_or-zeros (suc n) zero = refl
get_or-zeros (suc n) (suc j) = get_or-zeros n j

-- One bucket for each length below `bound`, each of type `long long`.
pub record Buckets (bound : ℕ) (delta : List ℤ) : Type 0 where
  pub size : length delta ≡ bound
  pub held : (j : ℕ) → Held (get_or delta j (pos 0))

pub zeros-Buckets : (bound : ℕ) → Buckets bound (replicate bound (pos 0))
zeros-Buckets bound = record {
  size = length-replicate bound (pos 0);
  held = λ j. rw (get_or-zeros bound j) zero-Held;
}

pub add_all-Buckets :
    (f : ℕ → ℤ) (a n bound : ℕ) (delta : List ℤ)
    → a + n ≤ bound
    → Buckets bound delta
    → Buckets bound (add_all f a n delta)
add_all-Buckets f a n bound delta room b = record {
  size = length-add_all f a n delta ∙ b.size;
  held = λ j.
      let one = get-add_all f a n delta j (omega (arith, room, b.size)) in
      elim (Bool-cases (leb a j && ltb j (a + n))) [
        | inl c ↦ rw (rw c at one) (sum-Held (get_or delta j (pos 0)) (f j))
        | inr c ↦ rw (rw c at one) (b.held j)
      ];
}

-- Adding zeros changes nothing.
pub add_all-zero :
    (a n bound : ℕ) (delta : List ℤ)
    → a + n ≤ bound
    → Buckets bound delta
    → add_all (λ k. pos 0) a n delta ≡ delta
add_all-zero a n bound delta room b = ext _ _ (length-add_all (λ k. pos 0) a n delta) (λ j.
    let one = get-add_all (λ k. pos 0) a n delta j (omega (arith, room, b.size)) in
    elim (Bool-cases (leb a j && ltb j (a + n))) [
      | inl c ↦ (rw c at one) ∙ +ll-zero _ (b.held j)
      | inr c ↦ rw c at one
    ])

-- Two functions that add the same at each of the lengths.
add_all-same :
    (f h : ℕ → ℤ) (a n : ℕ) (delta : List ℤ)
    → a + n ≤ length delta
    → ((j : ℕ) → a ≤ j → j < a + n → (z : ℤ) → z +ll f j ≡ z +ll h j)
    → add_all f a n delta ≡ add_all h a n delta
add_all-same f h a n delta room same =
    ext _ _ (length-add_all f a n delta ∙ sym (length-add_all h a n delta)) (λ j.
      let one = get-add_all f a n delta j room in
      let two = get-add_all h a n delta j room in
      elim (Bool-cases (leb a j && ltb j (a + n))) [
        | inl c ↦
            (rw c at one) ∙ same j (ground (arith, c)) (ground (arith, c)) _ ∙ sym (rw c at two)
        | inr c ↦ (rw c at one) ∙ sym (rw c at two)
      ])

-- What is added to zeros and then added on is added at once.
pub add_all-zeros :
    (f : ℕ → ℤ) (a n size : ℕ) (delta : List ℤ)
    → a + n ≤ size
    → length delta ≡ size
    → add_all (λ k. get_or (add_all f a n (replicate size (pos 0))) k (pos 0)) a n delta
      ≡ add_all f a n delta
add_all-zeros f a n size delta room l =
    add_all-same _ f a n delta (omega (arith, room, l)) (λ j lo hi z.
      let inn : (leb a j && ltb j (a + n)) ≡ true = ground arith in
      let at_j =
        get-add_all f a n (replicate size (pos 0)) j
          (omega (arith, length-replicate size (pos 0))) in
      ap (λ x. z +ll x) ((rw inn at at_j) ∙ ap (λ x. x +ll f j) (get_or-zeros size j))
      ∙ plus_zero z (f j))

-- The sum of a value over a list of ids.
unfoldable pub sum_of : (ℕ → ℤ) → List ℕ → ℤ
sum_of f [] = pos 0
sum_of f (i ∷ is) = f i +ll sum_of f is

sum_of-Held : (f : ℕ → ℤ) (is : List ℕ) → Held (sum_of f is)
unfolding sum_of
sum_of-Held f [] = zero-Held
sum_of-Held f (i ∷ is) = sum-Held (f i) (sum_of f is)

pub sum_of-append : (f : ℕ → ℤ) (xs ys : List ℕ) → sum_of f (xs ++ ys) ≡ sum_of f xs +ll sum_of f ys
unfolding sum_of
sum_of-append f [] ys = sym (zero-+ll (sum_of f ys) (sum_of-Held f ys))
sum_of-append f (x ∷ xs) ys =
    ap (λ z. f x +ll z) (sum_of-append f xs ys) ∙ sym (+ll_assoc (f x) (sum_of f xs) (sum_of f ys))

swap_sums : (a b c : ℤ) → a +ll (b +ll c) ≡ b +ll (a +ll c)
swap_sums a b c = sym (+ll_assoc a b c) ∙ ap (λ z. z +ll c) (+ll_comm a b) ∙ +ll_assoc b a c

-- The order in which the ids come does not matter.
pub sum_of-Permᴰ : (f : ℕ → ℤ) {xs ys : List ℕ} → Permᴰ xs ys → sum_of f xs ≡ sum_of f ys
unfolding sum_of
sum_of-Permᴰ f Permᴰ.nil = refl
sum_of-Permᴰ f (Permᴰ.cons {a} {b} e p) = cc (sum_of-Permᴰ f p, ap f e)
sum_of-Permᴰ f (Permᴰ.swap {a} {b} {a'} {b'} {l} e d) =
    swap_sums (f a) (f b) (sum_of f l) ∙ cc (ap f e, ap f d)
sum_of-Permᴰ f (Permᴰ.trans p q) = sum_of-Permᴰ f p ∙ sum_of-Permᴰ f q
