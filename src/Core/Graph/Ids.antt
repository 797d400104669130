-- ===== src/Core/Graph/Ids.antt =====
-- The external and the compact ids of a graph.
use cycle_enumeration_gpu.Prelude.{
  ℕ, zero, suc, ◌+◌, ◌%◌, ◌≤◌, ◌≡◌, sym, ap, subst, ◌<◌, ◌∙◌, ◌↔◌, true, false, inl, inr,
  Bool-cases, List, [], ◌∷◌, some, leb, length, get_elem?, ◌∈◌, Distinct, arith, ok, at,
}
use cycle_enumeration_gpu.Prelude.Int.{ℤ, eqb_ℤ}
use cycle_enumeration_gpu.Core.Graph.{TemporalGraph, external_id, compact_id, find_id}

eq_of_eqb : (a b : ℤ) → eqb_ℤ a b ≡ true → a ≡ b
eq_of_eqb a b e = ground (arith, e)

eqb_refl : (a : ℤ) → eqb_ℤ a a ≡ true
eqb_refl a = ground arith

-- A position that is found holds the id.
find_id_sound :
    (ids : List ℤ) (x : ℤ) (i v : ℕ)
    → i + length ids ≤ 4294967296
    → find_id ids x i ≡ some v
    → (k : ℕ) × (v ≡ i + k) × (get_elem? ids k ≡ some x)
unfolding find_id
find_id_sound [] x i v low e = cc
find_id_sound (y ∷ ys) x i v low e = elim (Bool-cases (eqb_ℤ y x)) [
  | inl h ↦ (
    0,
    (let s : some (i % 4294967296) ≡ some v = rw h at e in
        let same : i % 4294967296 ≡ v = cc in omega (arith, same)),
    ap some (eq_of_eqb y x h),
  )
  | inr h ↦
      let (k, p, q) = find_id_sound ys x (suc i) v (omega (arith, low)) (rw h at e) in
      (suc k, omega (arith, p), q)
]

mem-get_elem? : (ids : List ℤ) (k : ℕ) (x : ℤ) → get_elem? ids k ≡ some x → x ∈ ids
mem-get_elem? [] k x e = cc
mem-get_elem? (y ∷ ys) zero x e = inl cc
mem-get_elem? (y ∷ ys) (suc k) x e = inr (mem-get_elem? ys k x e)

-- An id that stands once is found where it stands.
find_id_complete :
    (ids : List ℤ) (x : ℤ) (i k : ℕ)
    → i + length ids ≤ 4294967296
    → Distinct ids
    → get_elem? ids k ≡ some x
    → find_id ids x i ≡ some (i + k)
unfolding find_id
find_id_complete [] x i k low d e = cc
find_id_complete (y ∷ ys) x i zero low d e =
    let p : y ≡ x = cc in rw (p, eqb_refl x) (ap some (omega arith))
find_id_complete (y ∷ ys) x i (suc k) low d e = elim (Bool-cases (eqb_ℤ y x)) [
  | inl h ↦ absurd (d.0 (subst (λ z. z ∈ ys) (sym (eq_of_eqb y x h)) (mem-get_elem? ys k x e)))
  | inr h ↦
      rw h (find_id_complete ys x (suc i) k (omega (arith, low)) d.1 e ∙ ap some (omega arith))
]

get_elem?-lt : (ids : List ℤ) (v : ℕ) (x : ℤ) → get_elem? ids v ≡ some x → v < length ids
get_elem?-lt [] v x e = cc
get_elem?-lt (y ∷ ys) zero x e = omega arith
get_elem?-lt (y ∷ ys) (suc v) x e = omega (arith, get_elem?-lt ys v x e)

get_elem?-at : (ids : List ℤ) (v : ℕ) (x : ℤ) → at ids v ≡ ok x → get_elem? ids v ≡ some x
get_elem?-at [] v x e = cc
get_elem?-at (y ∷ ys) zero x e = let p : y ≡ x = cc in ap some p
get_elem?-at (y ∷ ys) (suc v) x e = get_elem?-at ys v x e

external_id-get :
    (g : TemporalGraph) (v : ℕ) (x : ℤ)
    → (external_id g v ≡ ok x) ↔ (get_elem? g.external_ids v ≡ some x)
unfolding external_id
external_id-get g v x = (
  λ e. elim (Bool-cases (leb (length g.external_ids) v)) [
    | inl h ↦ cc (rw h at e)
    | inr h ↦ get_elem?-at g.external_ids v x (rw h at e)
  ],
  λ e.
      let h : leb (length g.external_ids) v ≡ false =
        ground (arith, get_elem?-lt g.external_ids v x e) in
      rw (h, e),
)

-- Where there are at most 2^32 external ids and none stands twice, a vertex is the compact id of an external id exactly if that
-- is the external id of the vertex.
pub compact_id_iff :
    (g : TemporalGraph) (x : ℤ) (v : ℕ)
    → length g.external_ids ≤ 4294967296
    → Distinct g.external_ids
    → (compact_id g x ≡ some v) ↔ (external_id g v ≡ ok x)
unfolding compact_id
compact_id_iff g x v low d = (
  λ e.
      let (k, p, q) = find_id_sound g.external_ids x 0 v (omega (arith, low)) e in
      let same : v ≡ k = omega (arith, p) in (external_id-get g v x).1 (rw same q),
  λ e.
      find_id_complete g.external_ids x 0 v (omega (arith, low)) d ((external_id-get g v x).0 e)
      ∙ ap some (omega arith),
)
