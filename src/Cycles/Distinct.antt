-- ===== src/Cycles/Distinct.antt =====
-- No cycle is listed twice.
use cycle_enumeration_gpu.Prelude.{
  ℕ, zero, suc, ◌≡◌, sym, ap, ◌∙◌, ◌⊎◌, inl, inr, List, [], ◌∷◌, ◌++◌, append_assoc, Option, length,
  length-append, range, ◌∈◌, arith, flat_map_cases, Distinct, Distinct-flat_map, Distinct-range,
}
use cycle_enumeration_gpu.Cycles.{cycles_via, cycles_from, cycles_at, all_cycles}
use cycle_enumeration_gpu.Cycles.Complete.{cycles_via_cases}

-- Two lists that end in the same one, and in it behind one more element, have that element alike.
pub suffix_head : (pre pre' path : List ℕ) (u u' : ℕ) → pre ++ u ∷ path ≡ pre' ++ u' ∷ path → u ≡ u'
suffix_head [] [] path u u' e = cc
suffix_head [] (y ∷ pre') path u u' e =
    absurd (omega (arith, ap length e, length-append pre' (u' ∷ path)))
suffix_head (x ∷ pre) [] path u u' e =
    absurd (omega (arith, ap length e, length-append pre (u ∷ path)))
suffix_head (x ∷ pre) (y ∷ pre') path u u' e = suffix_head pre pre' path u u' (cc)

-- The list ends in `path`.
abbrev pub EndsIn : List ℕ → List ℕ → Type 0
EndsIn path c = (pre : List ℕ) × (c ≡ pre ++ path)

module _ (next : ℕ → List ℕ) (limit : Option ℕ) (root : ℕ) where
  via_EndsIn :
      (deeper : ℕ → List ℕ → List (List ℕ)) (path : List ℕ)
      → ((v : ℕ) (c : List ℕ) → c ∈ deeper v (v ∷ path) → EndsIn (v ∷ path) c)
      → (v : ℕ) (c : List ℕ) → c ∈ cycles_via next limit root deeper path v
      → (c ≡ path) × (v ≡ root) ⊎ EndsIn (v ∷ path) c
  via_EndsIn deeper path ends v c h = elim (cycles_via_cases next limit root deeper path v c h) [
    | inl (e, l, same) ↦ inl (same, e)
    | inr (a, b, l, more) ↦ inr (ends v c more)
  ]

  cycles_from-EndsIn :
      (fuel v : ℕ) (path c : List ℕ) → c ∈ cycles_from next limit root fuel v path → EndsIn path c
  unfolding cycles_from
  cycles_from-EndsIn zero v path c h = absurd h
  cycles_from-EndsIn (suc fuel) v path c h =
      let deeper = cycles_from next limit root fuel in
      let (u, edge, found) = flat_map_cases (cycles_via next limit root deeper path) c (next v) h in
      elim (via_EndsIn deeper path (λ w. cycles_from-EndsIn fuel w (w ∷ path)) u c found) [
        | inl (same, e) ↦ ([], same)
        | inr (pre, e) ↦ (pre ++ u ∷ [], e ∙ sym (append_assoc pre (u ∷ []) path))
      ]

  via_apart :
      (fuel : ℕ) (path : List ℕ) (u v : ℕ) (c : List ℕ)
      → c ∈ cycles_via next limit root (cycles_from next limit root fuel) path u
      → c ∈ cycles_via next limit root (cycles_from next limit root fuel) path v
      → u ≡ v
  via_apart fuel path u v c h k =
      let ends = λ (w : ℕ). cycles_from-EndsIn fuel w (w ∷ path) in
      elim (via_EndsIn (cycles_from next limit root fuel) path ends u c h) [
        | inl (same, e) ↦ elim (via_EndsIn (cycles_from next limit root fuel) path ends v c k) [
          | inl (same', e') ↦ e ∙ sym e'
          | inr (pre, p) ↦
              absurd (omega (arith, ap length same, ap length p, length-append pre (v ∷ path)))
        ]
        | inr (pre, p) ↦ elim (via_EndsIn (cycles_from next limit root fuel) path ends v c k) [
          | inl (same, e) ↦
              absurd (omega (arith, ap length same, ap length p, length-append pre (u ∷ path)))
          | inr (pre', p') ↦ suffix_head pre pre' path u v (sym p ∙ p')
        ]
      ]

  via_Distinct :
      (deeper : ℕ → List ℕ → List (List ℕ)) (path : List ℕ) (v : ℕ)
      → Distinct (deeper v (v ∷ path))
      → Distinct (cycles_via next limit root deeper path v)
  via_Distinct deeper path v h = ground arith

  Distinct-cycles_from :
      ((v : ℕ) → Distinct (next v))
      → (fuel v : ℕ) (path : List ℕ) → Distinct (cycles_from next limit root fuel v path)
  unfolding cycles_from
  Distinct-cycles_from simple zero v path = tt
  Distinct-cycles_from simple (suc fuel) v path =
      let deeper = cycles_from next limit root fuel in
      Distinct-flat_map (cycles_via next limit root deeper path) (next v) (simple v)
        (λ u. via_Distinct deeper path u (Distinct-cycles_from simple fuel u (u ∷ path)))
        (via_apart fuel path)

-- Where no vertex has the same successor twice, no cycle is listed twice.
pub Distinct-all_cycles :
    (next : ℕ → List ℕ) (limit : Option ℕ) (n : ℕ)
    → ((v : ℕ) → Distinct (next v))
    → Distinct (all_cycles next limit n)
unfolding all_cycles cycles_at
Distinct-all_cycles next limit n simple =
    Distinct-flat_map (cycles_at next limit n) (range n) (Distinct-range n)
      (λ root. Distinct-cycles_from next limit root simple n root (root ∷ []))
      (λ r r' c h k.
        let (pre, e) = cycles_from-EndsIn next limit r n r (r ∷ []) c h in
        let (pre', e') = cycles_from-EndsIn next limit r' n r' (r' ∷ []) c k in
        suffix_head pre pre' [] r r' (sym e ∙ e'))
