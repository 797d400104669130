-- ===== src/Cycles/Complete.antt =====
-- The listing of cycles has every cycle and nothing else.
use cycle_enumeration_gpu.Prelude.{
  ℕ, zero, suc, ◌+◌, ◌≤◌, ◌<◌, ◌≡◌, refl, subst, ◌↔◌, ◌⊎◌, inl, inr, false, List, [], ◌∷◌, Option,
  length, mem, range, ◌∈◌, arith, mem-flat_map, flat_map_cases, All-mem, All-range, mem-range,
}
use cycle_enumeration_gpu.Cycles.{
  at_limit, cycles_via, cycles_from, cycles_at, all_cycles, Walk, start, step, IsCycle, close,
}
use cycle_enumeration_gpu.Cycles.Marks.{spare, spare-cons, spare-nil}

module _ (next : ℕ → List ℕ) (limit : Option ℕ) (root : ℕ) where
  -- What one successor contributes: a closed walk, or what the deeper search lists behind the guards.
  abbrev pub Via : (ℕ → List ℕ → List (List ℕ)) → List ℕ → ℕ → List ℕ → Type 0
  Via deeper path v c =
      (v ≡ root) × (2 ≤ length path) × (c ≡ path)
      ⊎ (root < v)
        × (mem v path ≡ false)
        × (at_limit limit (length path) ≡ false)
        × (c ∈ deeper v (v ∷ path))

  pub cycles_via_cases :
      (deeper : ℕ → List ℕ → List (List ℕ)) (path : List ℕ) (v : ℕ) (c : List ℕ)
      → c ∈ cycles_via next limit root deeper path v
      → Via deeper path v c
  cycles_via_cases deeper path v c h = ground arith

  closing :
      (u : ℕ) (p c : List ℕ)
      → Walk next limit root (u ∷ p)
      → root ∈ next u
      → 2 ≤ length (u ∷ p)
      → c ≡ u ∷ p
      → IsCycle next limit root c
  closing u [] c w e l h = absurd (omega arith)
  closing u (v ∷ p) c w e l h = rw h (close w e)

  sound_from :
      (fuel u : ℕ) (p c : List ℕ)
      → Walk next limit root (u ∷ p)
      → c ∈ cycles_from next limit root fuel u (u ∷ p)
      → IsCycle next limit root c
  unfolding cycles_from
  sound_from zero u p c w h = absurd h
  sound_from (suc fuel) u p c w h =
      let deeper = cycles_from next limit root fuel in
      let (v, edge, found) =
        flat_map_cases (cycles_via next limit root deeper (u ∷ p)) c (next u) h in
      elim (cycles_via_cases deeper (u ∷ p) v c found) [
        | inl (e, l, same) ↦ closing u p c w (subst (λ x. x ∈ next u) e edge) l same
        | inr (above, new, short, more) ↦
            sound_from fuel v (u ∷ p) c (step w edge above new short) more
      ]

  via_deeper :
      (deeper : ℕ → List ℕ → List (List ℕ)) (path : List ℕ) (v : ℕ) (c : List ℕ)
      → root < v
      → mem v path ≡ false
      → at_limit limit (length path) ≡ false
      → c ∈ deeper v (v ∷ path)
      → c ∈ cycles_via next limit root deeper path v
  via_deeper deeper path v c a b l h = ground arith

  closes_here :
      (deeper : ℕ → List ℕ → List (List ℕ)) (path : List ℕ)
      → 2 ≤ length path
      → path ∈ cycles_via next limit root deeper path root
  closes_here deeper path h = ground arith

  -- What a walk leads to is listed from the root, with fuel for each of its vertices.
  complete_from :
      {u : ℕ} {p : List ℕ} (fuel k : ℕ) (c : List ℕ)
      → Walk next limit root (u ∷ p)
      → fuel + length p ≡ k
      → c ∈ cycles_from next limit root fuel u (u ∷ p)
      → c ∈ cycles_from next limit root k root (root ∷ [])
  complete_from fuel k c start e h = let e' : fuel ≡ k = omega arith in rw e' at h
  complete_from fuel k c (step {v} {u} {p} w edge above new short) e h =
      complete_from (suc fuel) k c w (omega arith) (
        unfold cycles_from in
        mem-flat_map _ c v (next u) edge
          (via_deeper (cycles_from next limit root fuel) (u ∷ p) v c above new short h))

module _ (next : ℕ → List ℕ) (limit : Option ℕ) (n : ℕ)
    (bounded : (u v : ℕ) → u < n → v ∈ next u → v < n) (root : ℕ) (low : root < n) where
  Walk-spare :
      {u : ℕ} {p : List ℕ}
      → Walk next limit root (u ∷ p)
      → (u < n) × (spare n (u ∷ p) + length (u ∷ p) ≡ n)
  Walk-spare start = (low, omega (arith, spare-cons n root [] low refl, spare-nil n))
  Walk-spare (step {v} {u} {p} w edge above new short) =
      let (lt, total) = Walk-spare w in
      let lt' = bounded u v lt edge in (lt', omega (arith, spare-cons n v (u ∷ p) lt' new))

  complete : {c : List ℕ} → IsCycle next limit root c → c ∈ cycles_at next limit n root
  unfolding cycles_at cycles_from
  complete (close {u} {v} {p} w edge) =
      let c = u ∷ v ∷ p in
      let (lt, total) = Walk-spare w in
      let deeper = cycles_from next limit root (spare n c) in
      complete_from next limit root (suc (spare n c)) n c w (omega arith) (
        mem-flat_map (cycles_via next limit root deeper c) c root (next u) edge
          (closes_here next limit root deeper c (omega arith)))

  -- `cycles_at` lists exactly the simple cycles whose least vertex is the root and whose length
  -- keeps to the limit.
  pub cycles_at_iff : (c : List ℕ) → (c ∈ cycles_at next limit n root) ↔ IsCycle next limit root c
  unfolding cycles_at
  cycles_at_iff c = (sound_from next limit root n root [] c start, complete)

-- `all_cycles` lists exactly the simple cycles through vertices below `n`, each from its least
-- vertex, whose length keeps to the limit.
pub all_cycles_iff :
    (next : ℕ → List ℕ) (limit : Option ℕ) (n : ℕ)
    → ((u v : ℕ) → u < n → v ∈ next u → v < n)
    → (c : List ℕ)
    → (c ∈ all_cycles next limit n) ↔ ((root : ℕ) × (root < n) × IsCycle next limit root c)
unfolding all_cycles
all_cycles_iff next limit n bounded c = (
  λ h.
      let (root, low, found) = flat_map_cases (cycles_at next limit n) c (range n) h in
      let lt = All-mem (λ v. v < n) (range n) root (All-range n) low in
      (root, lt, (cycles_at_iff next limit n bounded root lt c).0 found),
  λ (root, lt, cycle).
      mem-flat_map (cycles_at next limit n) c root (range n) (mem-range root n lt)
        ((cycles_at_iff next limit n bounded root lt c).1 cycle),
)

-- A cycle has at least two vertices, and at most as many as there are.
pub IsCycle-length :
    (next : ℕ → List ℕ) (limit : Option ℕ) (n : ℕ)
    → ((u v : ℕ) → u < n → v ∈ next u → v < n)
    → (root : ℕ) → root < n
    → {c : List ℕ} → IsCycle next limit root c
    → (2 ≤ length c) × (length c ≤ n)
IsCycle-length next limit n bounded root lt (close w edge) =
    let (low, total) = Walk-spare next limit n bounded root lt w in (omega arith, omega arith)
