-- ===== src/Dynamic/ThroughEdge/Buffer.antt =====
-- The buffer of flags, which every call leaves clear.
use cycle_enumeration_gpu.Prelude.{
  ℕ, zero, suc, ◌≤◌, ◌≡◌, refl, ap, Bool, true, false, List, [], ◌∷◌, ltb, length, length-replicate,
  set, replicate, arith, inl, inr, Bool-cases,
}
use cycle_enumeration_gpu.Cycles.Marks.{marks, set-marks, replicate-marks}
use cycle_enumeration_gpu.Dynamic.ThroughEdge.{grow}

-- A buffer in which no vertex is marked.
abbrev pub Clear : List Bool → Type 0
Clear flags = (size : ℕ) × (flags ≡ replicate size false)

set-set_self : (xs : List Bool) (i : ℕ) → set (set xs i true) i false ≡ set xs i false
set-set_self [] i = refl
set-set_self (x ∷ xs) zero = refl
set-set_self (x ∷ xs) (suc i) = ap (λ ys. x ∷ ys) (set-set_self xs i)

set-set_both :
    (xs : List Bool) (u v : ℕ)
    → set (set (set (set xs u true) v true) u false) v false ≡ set (set xs u false) v false
set-set_both [] u v = refl
set-set_both (x ∷ xs) zero zero = refl
set-set_both (x ∷ xs) zero (suc v) = ap (λ ys. false ∷ ys) (set-set_self xs v)
set-set_both (x ∷ xs) (suc u) zero = ap (λ ys. false ∷ ys) (set-set_self xs u)
set-set_both (x ∷ xs) (suc u) (suc v) = ap (λ ys. x ∷ ys) (set-set_both xs u v)

set-replicate : (n i : ℕ) → set (replicate n false) i false ≡ replicate n false
set-replicate zero i = refl
set-replicate (suc n) zero = refl
set-replicate (suc n) (suc i) = ap (λ ys. false ∷ ys) (set-replicate n i)

pub marked :
    (size u v : ℕ) → set (set (replicate size false) u true) v true ≡ marks size (v ∷ u ∷ [])
marked size u v = rw (replicate-marks size, set-marks size u [], set-marks size v (u ∷ []))

pub unmark_both :
    (size u v : ℕ) → set (set (marks size (v ∷ u ∷ [])) u false) v false ≡ replicate size false
unmark_both size u v = rw (
  ← marked size u v,
  set-set_both (replicate size false) u v,
  set-replicate size u,
  set-replicate size v,
)

pub grow-Clear :
    (n : ℕ) (flags : List Bool)
    → Clear flags
    → (size : ℕ) × (grow n flags ≡ replicate size false) × (n ≤ size)
grow-Clear n flags (size, e) = elim (Bool-cases (ltb (length flags) n)) [
  | inl h ↦ rw h (n, refl, omega arith)
  | inr h ↦ rw h (size, e, ground (arith, h, ap length e, length-replicate size false))
]
