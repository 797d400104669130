-- ===== src/Dynamic/ThroughEdge/Counts.antt =====
-- The buckets of counts by length, and what a list of cycles adds to them.
use cycle_enumeration_gpu.Prelude.{
  ℕ, zero, suc, ◌+◌, ◌<◌, ◌%◌, ◌^◌, ◌≡◌, refl, ap, ◌∙◌, true, List, [], ◌∷◌, ◌++◌, ◌==◌,
  if◌then◌else◌, length, length-set, set, get_or, get_elem?-eq-get_or, All, arith, inl, inr,
  Bool-cases, ok,
}
use cycle_enumeration_gpu.Dynamic.ThroughEdge.{bump}

-- One more in the bucket, where 64 bits wrap round.
pub bumped : ℕ → List ℕ → List ℕ
bumped size counts = set counts size ((get_or counts size 0 + 1) % 2 ^ 64)

pub bump-bumped :
    (size : ℕ) (counts : List ℕ) → size < length counts → bump size counts ≡ ok (bumped size counts)
unfolding bumped
bump-bumped size counts h = rw (get_elem?-eq-get_or counts size 0 h)

-- One more for each cycle, in the bucket of its length.
unfoldable pub bump_all : List (List ℕ) → List ℕ → List ℕ
bump_all [] counts = counts
bump_all (c ∷ cs) counts = bump_all cs (bumped (length c) counts)

pub length-bump_all :
    (cs : List (List ℕ)) (counts : List ℕ) → length (bump_all cs counts) ≡ length counts
unfolding bump_all bumped
length-bump_all [] counts = refl
length-bump_all (c ∷ cs) counts =
    length-bump_all cs (bumped (length c) counts) ∙ length-set counts (length c) _

pub bump_all-append :
    (xs ys : List (List ℕ)) (counts : List ℕ)
    → bump_all (xs ++ ys) counts ≡ bump_all ys (bump_all xs counts)
unfolding bump_all
bump_all-append [] ys counts = refl
bump_all-append (x ∷ xs) ys counts = bump_all-append xs ys (bumped (length x) counts)

-- How many of the cycles have the length.
abbrev pub how_many : ℕ → List (List ℕ) → ℕ
how_many size [] = 0
how_many size (c ∷ cs) = (if size == length c then 1 else 0) + how_many size cs

get_or-set :
    (xs : List ℕ) (i x j : ℕ)
    → i < length xs
    → get_or (set xs i x) j 0 ≡ (if j == i then x else get_or xs j 0)
get_or-set [] i x j h = absurd (omega arith)
get_or-set (y ∷ ys) zero x zero h = refl
get_or-set (y ∷ ys) zero x (suc j) h = ground arith
get_or-set (y ∷ ys) (suc i) x zero h = ground arith
get_or-set (y ∷ ys) (suc i) x (suc j) h = ground (arith, get_or-set ys i x j)

get-bumped :
    (size j : ℕ) (counts : List ℕ)
    → size < length counts
    → get_or (bumped size counts) j 0
      ≡ (if j == size then (get_or counts size 0 + 1) % 2 ^ 64 else get_or counts j 0)
unfolding bumped
get-bumped size j counts h = get_or-set counts size _ j h

==-eq : (a b : ℕ) → (a == b) ≡ true → a ≡ b
==-eq a b e = ground (arith, e)

pub get-bump_all :
    (cs : List (List ℕ)) (counts : List ℕ) (j : ℕ)
    → All (λ c. length c < length counts) cs
    → get_or counts j 0 < 18446744073709551616
    → get_or (bump_all cs counts) j 0 ≡ (get_or counts j 0 + how_many j cs) % 18446744073709551616
unfolding bump_all
get-bump_all [] counts j a h = omega arith
get-bump_all (c ∷ cs) counts j a h =
    let one = get-bumped (length c) j counts a.0 in
    let size : length (bumped (length c) counts) ≡ length counts =
      unfold bumped in length-set counts (length c) _ in
    let more : All (λ d. length d < length (bumped (length c) counts)) cs = rw size a.1 in
    elim (Bool-cases (j == length c)) [
      | inl e ↦
          let same : get_or counts j 0 ≡ get_or counts (length c) 0 =
            ap (λ x. get_or counts x 0) (==-eq j (length c) e) in
          let here : get_or (bumped (length c) counts) j 0
              ≡ (get_or counts j 0 + 1) % 18446744073709551616 =
            rw (← same) at (rw e at one) in
          rw e (
            omega (
              arith,
              here,
              get-bump_all cs (bumped (length c) counts) j more (omega (arith, here)),
            ))
      | inr e ↦
          let here : get_or (bumped (length c) counts) j 0 ≡ get_or counts j 0 = rw e at one in
          rw e (
            omega (
              arith,
              here,
              get-bump_all cs (bumped (length c) counts) j more (omega (arith, here, h)),
            ))
    ]
