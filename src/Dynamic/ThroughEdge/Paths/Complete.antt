-- ===== src/Dynamic/ThroughEdge/Paths/Complete.antt =====
-- The listing of the cycles through an edge has every such cycle and nothing else.
use cycle_enumeration_gpu.Prelude.{
  ℕ, zero, suc, ◌+◌, ◌≤◌, ◌<◌, ◌≡◌, refl, subst, ◌↔◌, ◌⊎◌, inl, inr, true, false, Bool, Bool-cases,
  ap, ◌-◌, List, [], ◌∷◌, ◌==◌, length, mem, ◌∈◌, arith, mem-flat_map, flat_map_cases,
}
use cycle_enumeration_gpu.Cycles.Marks.{spare, spare-cons, spare-nil, spare_le}
use cycle_enumeration_gpu.Dynamic.ThroughEdge.Paths.{
  paths_via, paths_from, Trail, first, further, IsThrough, back,
}

apart_of_mem : (w u : ℕ) (p : List ℕ) → mem u p ≡ true → mem w p ≡ false → (w == u) ≡ false
apart_of_mem w u p old new = elim (Bool-cases (w == u)) [
  | inl e ↦ let same : w ≡ u = ground (arith, e) in cc (old, new, ap (λ x. mem x p) same)
  | inr e ↦ e
]

module _ (next : ℕ → List ℕ) (forbidden : ℕ → ℕ → Bool) (u most : ℕ) where
  -- What one neighbour contributes: a closed walk, or what the deeper search lists.
  abbrev pub Via : (ℕ → List ℕ → List (List ℕ)) → ℕ → List ℕ → ℕ → List ℕ → Type 0
  Via deeper current path w c =
      (forbidden current w ≡ false)
      × ((w ≡ u) × (2 ≤ length path) × (length path ≤ most) × (c ≡ path)
          ⊎ (mem w path ≡ false) × (length path < most) × (c ∈ deeper w (w ∷ path)))

  pub paths_via_cases :
      (deeper : ℕ → List ℕ → List (List ℕ)) (current : ℕ) (path : List ℕ) (w : ℕ) (c : List ℕ)
      → c ∈ paths_via next forbidden u most deeper current path w
      → Via deeper current path w c
  paths_via_cases deeper current path w c h = ground arith

  via_deeper :
      (deeper : ℕ → List ℕ → List (List ℕ)) (current : ℕ) (path : List ℕ) (w : ℕ) (c : List ℕ)
      → forbidden current w ≡ false
      → (w == u) ≡ false
      → mem w path ≡ false
      → length path < most
      → c ∈ deeper w (w ∷ path)
      → c ∈ paths_via next forbidden u most deeper current path w
  via_deeper deeper current path w c a e b l h = ground arith

  closes_here :
      (deeper : ℕ → List ℕ → List (List ℕ)) (current : ℕ) (path : List ℕ)
      → forbidden current u ≡ false
      → 2 ≤ length path
      → length path ≤ most
      → path ∈ paths_via next forbidden u most deeper current path u
  closes_here deeper current path a l m = ground arith

  module _ (v : ℕ) where
    sound_from :
        (fuel c : ℕ) (p found : List ℕ)
        → Trail next forbidden u most v (c ∷ p)
        → found ∈ paths_from next forbidden u most fuel c (c ∷ p)
        → IsThrough next forbidden u most v found
    unfolding paths_from
    sound_from zero c p found t h = absurd h
    sound_from (suc fuel) c p found t h =
        let deeper = paths_from next forbidden u most fuel in
        let (w, edge, here) =
          flat_map_cases (paths_via next forbidden u most deeper c (c ∷ p)) found (next c) h in
        let (free, rest) = paths_via_cases deeper c (c ∷ p) w found here in
        elim rest [
          | inl (e, l, m, same) ↦ rw same (
              back t (subst (λ x. x ∈ next c) e edge) (subst (λ x. forbidden c x ≡ false) e free) m)
          | inr (new, short, more) ↦
              sound_from fuel w (c ∷ p) found (further t edge free new short) more
        ]

    -- A walk has at least two vertices, and its first is among them.
    Trail-has_first :
        {c : ℕ} {p : List ℕ}
        → Trail next forbidden u most v (c ∷ p)
        → (mem u (c ∷ p) ≡ true) × (2 ≤ length (c ∷ p))
    Trail-has_first first = (ground arith, omega arith)
    Trail-has_first (further t edge free new short) =
        let (old, l) = Trail-has_first t in (ground (arith, old), omega (arith, l))

    -- What a walk leads to is listed from the edge, with fuel for each of its vertices.
    complete_from :
        {c : ℕ} {p : List ℕ} (fuel k : ℕ) (found : List ℕ)
        → Trail next forbidden u most v (c ∷ p)
        → fuel + length (c ∷ p) ≡ suc (suc k)
        → found ∈ paths_from next forbidden u most fuel c (c ∷ p)
        → found ∈ paths_from next forbidden u most k v (v ∷ u ∷ [])
    complete_from fuel k found first e h = let e' : fuel ≡ k = omega arith in rw e' at h
    complete_from fuel k found (further {w} {c} {p} t edge free new short) e h =
        let apart : (w == u) ≡ false = apart_of_mem w u (c ∷ p) (Trail-has_first t).0 new in
        complete_from (suc fuel) k found t (omega arith) (
          unfold paths_from in
          mem-flat_map _ found w (next c) edge (
            via_deeper (paths_from next forbidden u most fuel) c (c ∷ p) w found free apart new
              short h))

module _ (next : ℕ → List ℕ) (forbidden : ℕ → ℕ → Bool) (u most n : ℕ)
    (bounded : (x y : ℕ) → x < n → y ∈ next x → y < n) (v : ℕ) (low : u < n) (lt : v < n) where
  Trail-spare :
      {c : ℕ} {p : List ℕ}
      → Trail next forbidden u most v (c ∷ p)
      → (c < n) × (spare n (c ∷ p) + length (c ∷ p) ≤ suc n)
  Trail-spare first =
      (lt, omega (arith, spare-cons n u [] low refl, spare-nil n, spare_le n v (u ∷ [])))
  Trail-spare (further {w} {c} {p} t edge free new short) =
      let (here, total) = Trail-spare t in
      let lt' = bounded c w here edge in (lt', omega (arith, spare-cons n w (c ∷ p) lt' new))

  complete :
      {c : List ℕ}
      → IsThrough next forbidden u most v c
      → c ∈ paths_from next forbidden u most n v (v ∷ u ∷ [])
  unfolding paths_from
  complete (back {c} {p} t edge free m) =
      let (here, total) = Trail-spare t in
      let deeper = paths_from next forbidden u most (n - length p) in
      let two = (Trail-has_first next forbidden u most v t).1 in
      complete_from next forbidden u most v (suc (n - length p)) n (c ∷ p) t (omega arith) (
        mem-flat_map (paths_via next forbidden u most deeper c (c ∷ p)) (c ∷ p) u (next c) edge
          (closes_here next forbidden u most deeper c (c ∷ p) free two m))

  -- The listing has exactly the cycles that begin with the edge and cross no forbidden one.
  pub paths_from_iff :
      (c : List ℕ)
      → (c ∈ paths_from next forbidden u most n v (v ∷ u ∷ []))
        ↔ IsThrough next forbidden u most v c
  paths_from_iff c = (sound_from next forbidden u most v n v (u ∷ []) c first, complete)

  -- Their lengths lie within the bounds.
  pub IsThrough-length :
      {c : List ℕ} → IsThrough next forbidden u most v c → (2 ≤ length c) × (length c ≤ most)
  IsThrough-length (back t edge free m) = ((Trail-has_first next forbidden u most v t).1, m)
