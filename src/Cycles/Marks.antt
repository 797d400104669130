-- ===== src/Cycles/Marks.antt =====
-- The `visited` flags of a search stand for the vertices of its path.
use cycle_enumeration_gpu.Prelude.{
  ℕ, zero, suc, ◌+◌, ◌≤◌, ◌<◌, ◌≡◌, refl, Bool, true, false, List, [], ◌∷◌, some, if◌then◌else◌,
  length, mem, get_elem?, set, replicate, arith,
}

marks_from : ℕ → ℕ → List ℕ → List Bool
marks_from i zero path = []
marks_from i (suc n) path = mem i path ∷ marks_from (suc i) n path

-- The flags of a graph with `n` vertices in which those on `path` are set.
pub marks : ℕ → List ℕ → List Bool
marks n path = marks_from 0 n path

length-marks_from : (i n : ℕ) (path : List ℕ) → length (marks_from i n path) ≡ n
unfolding marks_from
length-marks_from i zero path = refl
length-marks_from i (suc n) path = omega (arith, length-marks_from (suc i) n path)

pub length-marks : (n : ℕ) (path : List ℕ) → length (marks n path) ≡ n
unfolding marks
length-marks n path = length-marks_from 0 n path

marks_from-below :
    (i n v : ℕ) (path : List ℕ) → v < i → marks_from i n (v ∷ path) ≡ marks_from i n path
unfolding marks_from
marks_from-below i zero v path h = refl
marks_from-below i (suc n) v path h = ground (arith, marks_from-below (suc i) n v path)

get-marks_from :
    (i n j : ℕ) (path : List ℕ)
    → j < n
    → get_elem? (marks_from i n path) j ≡ some (mem (i + j) path)
unfolding marks_from
get-marks_from i zero j path h = absurd (omega arith)
get-marks_from i (suc n) zero path h = let e : i + 0 ≡ i = omega arith in rw e
get-marks_from i (suc n) (suc j) path h =
    let e : i + suc j ≡ suc i + j = omega arith in
    rw e (get-marks_from (suc i) n j path (omega arith))

set-marks_from :
    (i n j : ℕ) (path : List ℕ) → set (marks_from i n path) j true ≡ marks_from i n ((i + j) ∷ path)
unfolding marks_from
set-marks_from i zero j path = refl
set-marks_from i (suc n) zero path =
    let e : i + 0 ≡ i = omega arith in rw e (ground (arith, marks_from-below (suc i) n i path))
set-marks_from i (suc n) (suc j) path =
    let e : i + suc j ≡ suc i + j = omega arith in
    ground (arith, e, set-marks_from (suc i) n j path)

unset-marks_from :
    (i n j : ℕ) (path : List ℕ)
    → mem (i + j) path ≡ false
    → set (marks_from i n ((i + j) ∷ path)) j false ≡ marks_from i n path
unfolding marks_from
unset-marks_from i zero j path h = refl
unset-marks_from i (suc n) zero path h =
    let e : i + 0 ≡ i = omega arith in rw e (ground (arith, e, marks_from-below (suc i) n i path))
unset-marks_from i (suc n) (suc j) path h =
    let e : i + suc j ≡ suc i + j = omega arith in
    ground (arith, e, unset-marks_from (suc i) n j path)

pub get-marks : (n v : ℕ) (path : List ℕ) → v < n → get_elem? (marks n path) v ≡ some (mem v path)
unfolding marks
get-marks n v path h = let e : 0 + v ≡ v = omega arith in rw e at (get-marks_from 0 n v path h)

pub set-marks : (n v : ℕ) (path : List ℕ) → set (marks n path) v true ≡ marks n (v ∷ path)
unfolding marks
set-marks n v path = let e : 0 + v ≡ v = omega arith in rw e at (set-marks_from 0 n v path)

pub unset-marks :
    (n v : ℕ) (path : List ℕ) → mem v path ≡ false → set (marks n (v ∷ path)) v false ≡ marks n path
unfolding marks
unset-marks n v path h =
    let e : 0 + v ≡ v = omega arith in rw e at (unset-marks_from 0 n v path (rw e h))

replicate-marks_from : (i n : ℕ) → replicate n false ≡ marks_from i n []
unfolding marks_from
replicate-marks_from i zero = refl
replicate-marks_from i (suc n) = rw (replicate-marks_from (suc i) n)

pub replicate-marks : (n : ℕ) → replicate n false ≡ marks n []
unfolding marks
replicate-marks n = replicate-marks_from 0 n

-- How many vertices below `n` are not on the path: what bounds the depth of a search.
pub spare : ℕ → List ℕ → ℕ
spare zero path = 0
spare (suc n) path = (if mem n path then 0 else 1) + spare n path

spare-above : (n v : ℕ) (path : List ℕ) → n ≤ v → spare n (v ∷ path) ≡ spare n path
unfolding spare
spare-above zero v path h = refl
spare-above (suc n) v path h = ground (arith, spare-above n v path)

pub spare-cons :
    (n v : ℕ) (path : List ℕ) → v < n → mem v path ≡ false → suc (spare n (v ∷ path)) ≡ spare n path
unfolding spare
spare-cons zero v path h new = absurd (omega arith)
spare-cons (suc n) v path h new = ground (arith, spare-above n v path, spare-cons n v path)

pub spare-nil : (n : ℕ) → spare n [] ≡ n
unfolding spare
spare-nil zero = refl
spare-nil (suc n) = omega (arith, spare-nil n)

pub spare_le : (n v : ℕ) (p : List ℕ) → spare n (v ∷ p) ≤ spare n p
unfolding spare
spare_le zero v p = omega arith
spare_le (suc n) v p = ground (arith, spare_le n v p)
