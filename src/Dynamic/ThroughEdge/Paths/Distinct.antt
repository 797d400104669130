-- ===== src/Dynamic/ThroughEdge/Paths/Distinct.antt =====
-- No cycle through the edge is listed twice.
use cycle_enumeration_gpu.Prelude.{
  ℕ, zero, suc, ◌≡◌, sym, ap, ◌∙◌, ◌⊎◌, inl, inr, Bool, List, [], ◌∷◌, ◌++◌, append_assoc, length,
  length-append, ◌∈◌, arith, flat_map_cases, Distinct, Distinct-flat_map,
}
use cycle_enumeration_gpu.Cycles.Distinct.{EndsIn, suffix_head}
use cycle_enumeration_gpu.Dynamic.ThroughEdge.Paths.{paths_via, paths_from}
use cycle_enumeration_gpu.Dynamic.ThroughEdge.Paths.Complete.{paths_via_cases}

module _ (next : ℕ → List ℕ) (forbidden : ℕ → ℕ → Bool) (u most : ℕ) where
  via_EndsIn :
      (deeper : ℕ → List ℕ → List (List ℕ)) (current : ℕ) (path : List ℕ)
      → ((w : ℕ) (c : List ℕ) → c ∈ deeper w (w ∷ path) → EndsIn (w ∷ path) c)
      → (w : ℕ) (c : List ℕ) → c ∈ paths_via next forbidden u most deeper current path w
      → (c ≡ path) × (w ≡ u) ⊎ EndsIn (w ∷ path) c
  via_EndsIn deeper current path ends w c h =
      elim (paths_via_cases next forbidden u most deeper current path w c h).1 [
        | inl (e, l, m, same) ↦ inl (same, e)
        | inr (a, b, more) ↦ inr (ends w c more)
      ]

  paths_from-EndsIn :
      (fuel current : ℕ) (path c : List ℕ)
      → c ∈ paths_from next forbidden u most fuel current path
      → EndsIn path c
  unfolding paths_from
  paths_from-EndsIn zero current path c h = absurd h
  paths_from-EndsIn (suc fuel) current path c h =
      let deeper = paths_from next forbidden u most fuel in
      let (w, edge, found) =
        flat_map_cases (paths_via next forbidden u most deeper current path) c (next current) h in
      elim (via_EndsIn deeper current path (λ x. paths_from-EndsIn fuel x (x ∷ path)) w c found) [
        | inl (same, e) ↦ ([], same)
        | inr (pre, e) ↦ (pre ++ w ∷ [], e ∙ sym (append_assoc pre (w ∷ []) path))
      ]

  -- A cycle that ends in the path behind one more vertex is longer than the path.
  longer : (path pre c : List ℕ) (w : ℕ) → c ≡ path → c ≡ pre ++ w ∷ path → ⊥
  longer path pre c w same e =
      absurd (omega (arith, ap length same, ap length e, length-append pre (w ∷ path)))

  via_apart :
      (fuel current : ℕ) (path : List ℕ) (w x : ℕ) (c : List ℕ)
      → c ∈ paths_via next forbidden u most (paths_from next forbidden u most fuel) current path w
      → c ∈ paths_via next forbidden u most (paths_from next forbidden u most fuel) current path x
      → w ≡ x
  via_apart fuel current path w x c h k =
      let deeper = paths_from next forbidden u most fuel in
      let ends = λ (y : ℕ). paths_from-EndsIn fuel y (y ∷ path) in
      elim (via_EndsIn deeper current path ends w c h) [
        | inl (same, e) ↦ elim (via_EndsIn deeper current path ends x c k) [
          | inl (same', e') ↦ e ∙ sym e'
          | inr (pre, p) ↦ absurd (longer path pre c x same p)
        ]
        | inr (pre, p) ↦ elim (via_EndsIn deeper current path ends x c k) [
          | inl (same, e) ↦ absurd (longer path pre c w same p)
          | inr (pre', p') ↦ suffix_head pre pre' path w x (sym p ∙ p')
        ]
      ]

  via_Distinct :
      (deeper : ℕ → List ℕ → List (List ℕ)) (current : ℕ) (path : List ℕ) (w : ℕ)
      → Distinct (deeper w (w ∷ path))
      → Distinct (paths_via next forbidden u most deeper current path w)
  via_Distinct deeper current path w h = ground arith

  -- Where no vertex has the same neighbour twice, no cycle is listed twice.
  pub Distinct-paths_from :
      ((x : ℕ) → Distinct (next x))
      → (fuel current : ℕ) (path : List ℕ)
      → Distinct (paths_from next forbidden u most fuel current path)
  unfolding paths_from
  Distinct-paths_from simple zero current path = tt
  Distinct-paths_from simple (suc fuel) current path =
      let deeper = paths_from next forbidden u most fuel in
      Distinct-flat_map (paths_via next forbidden u most deeper current path) (next current)
        (simple current)
        (λ w. via_Distinct deeper current path w (Distinct-paths_from simple fuel w (w ∷ path)))
        (via_apart fuel current path)
