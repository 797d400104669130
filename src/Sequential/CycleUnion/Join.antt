-- ===== src/Sequential/CycleUnion/Join.antt =====
-- The loop that joins the two searches.
use cycle_enumeration_gpu.Prelude.{
  ℕ, ◌<◌, ◌≡◌, refl, sym, subst, Bool, true, false, ◌&&◌, List, [], ◌∷◌, leb, if◌then◌else◌, length,
  mem, inl, inr, Bool-cases, arith, ◌∈◌, ◌↔◌, All, ok, for_each,
}
use mathlib.Core.Logic.{◌⊎◌}
use cycle_enumeration_gpu.Cycles.Marks.{marks, length-marks, get-marks, set-marks}
use cycle_enumeration_gpu.Sequential.CycleUnion.{CycleUnion, include, include_if_both}
use cycle_enumeration_gpu.Sequential.CycleUnion.Queue.{mem-true, mem-∈}

both_left : (a b : Bool) → (a && b) ≡ true → a ≡ true
both_left true b e = refl
both_left false b e = absurd (cc e)

both_right : (a b : Bool) → (a && b) ≡ true → b ≡ true
both_right true b e = e
both_right false b e = absurd (cc e)

-- A union that includes the vertices of a list.
abbrev pub union_of : ℕ → List ℕ → CycleUnion
union_of n inc = record { included = marks n inc; included_count = length inc }

abbrev pub join : List ℕ → List ℕ → ℕ → List ℕ → List ℕ
join forward reverse v inc =
    if mem v forward && mem v reverse then (if mem v inc then inc else v ∷ inc) else inc

abbrev pub join_all : List ℕ → List ℕ → List ℕ → List ℕ → List ℕ
join_all forward reverse [] inc = inc
join_all forward reverse (v ∷ vs) inc = join_all forward reverse vs (join forward reverse v inc)

module _ (n : ℕ) (forward reverse : List ℕ) where
  include_if_both_lem :
      (v : ℕ) (inc : List ℕ)
      → v < n
      → include_if_both (marks n forward) (marks n reverse) v (union_of n inc)
        ≡ ok (union_of n (join forward reverse v inc))
  unfolding include_if_both include
  include_if_both_lem v inc lt =
      let inside : leb (length (marks n inc)) v ≡ false = ground (arith, length-marks n inc) in
      rw (get-marks n v forward lt, get-marks n v reverse lt)
        (elim (Bool-cases (mem v forward && mem v reverse)) [
          | inl both ↦
              rw (both, inside, get-marks n v inc lt)
                (elim (Bool-cases (mem v inc)) [
                  | inl old ↦ rw old refl
                  | inr fresh ↦ rw (fresh, set-marks n v inc) refl
                ])
          | inr one ↦ rw one refl
        ])

  pub join_all_lem :
      (vs inc : List ℕ)
      → All (λ v. v < n) vs
      → for_each (include_if_both (marks n forward) (marks n reverse)) vs (union_of n inc)
        ≡ ok (union_of n (join_all forward reverse vs inc))
  join_all_lem [] inc a = refl
  join_all_lem (v ∷ vs) inc a =
      rw (include_if_both_lem v inc a.0) (join_all_lem vs (join forward reverse v inc) a.1)

  -- What becomes of one vertex.
  unfoldable pub Joined : List ℕ → List ℕ → ℕ → Type 0
  Joined vs inc w = (w ∈ inc) ⊎ ((w ∈ vs) × (w ∈ forward) × (w ∈ reverse))

  join-∈ : (v : ℕ) (inc : List ℕ) (w : ℕ) → (w ∈ join forward reverse v inc) ↔ Joined (v ∷ []) inc w
  unfolding Joined
  join-∈ v inc w = elim (Bool-cases (mem v forward && mem v reverse)) [
    | inl both ↦
        let f : v ∈ forward = mem-true v forward (both_left (mem v forward) (mem v reverse) both) in
        let r : v ∈ reverse =
          mem-true v reverse (both_right (mem v forward) (mem v reverse) both) in
        rw both (elim (Bool-cases (mem v inc)) [
          | inl old ↦ rw old (
            (λ m. inl m),
            λ m. elim m [
              | inl a ↦ a
              | inr b ↦ elim b.0 [
                | inl e ↦ subst (λ x. x ∈ inc) (sym e) (mem-true v inc old)
                | inr x ↦ absurd x
              ]
            ],
          )
          | inr fresh ↦ rw fresh (
            (λ m. elim m [
              | inl e ↦
                  inr
                    (inl e, subst (λ x. x ∈ forward) (sym e) f, subst (λ x. x ∈ reverse) (sym e) r)
              | inr a ↦ inl a
            ]),
            λ m. elim m [ inl a ↦ inr a | inr b ↦ elim b.0 [ inl e ↦ inl e | inr x ↦ absurd x ] ],
          )
        ])
    | inr one ↦ rw one (
      (λ m. inl m),
      λ m. elim m [
        | inl a ↦ a
        | inr b ↦ elim b.0 [
          | inl e ↦
              let f = mem-∈ v forward (subst (λ x. x ∈ forward) e b.1) in
              let r = mem-∈ v reverse (subst (λ x. x ∈ reverse) e b.2) in
              absurd (cc (rw (f, r) at one))
          | inr x ↦ absurd x
        ]
      ],
    )
  ]

  -- A vertex is included exactly if both searches found it.
  pub join_all-∈ :
      (vs inc : List ℕ) (w : ℕ) → (w ∈ join_all forward reverse vs inc) ↔ Joined vs inc w
  unfolding Joined
  join_all-∈ [] inc w = ((λ m. inl m), λ m. elim m [ inl a ↦ a | inr b ↦ absurd b.0 ])
  join_all-∈ (v ∷ vs) inc w =
      let one = join-∈ v inc w in
      let rest = join_all-∈ vs (join forward reverse v inc) w in
      (
        (λ m. elim (rest.0 m) [
          | inl a ↦ elim (one.0 a) [
            | inl old ↦ inl old
            | inr b ↦ inr (elim b.0 [ inl e ↦ inl e | inr x ↦ absurd x ], b.1, b.2)
          ]
          | inr b ↦ inr (inr b.0, b.1, b.2)
        ]),
        λ m. rest.1 (elim m [
          | inl old ↦ inl (one.1 (inl old))
          | inr b ↦ elim b.0 [
            | inl e ↦ inl (one.1 (inr (inl e, b.1, b.2)))
            | inr x ↦ inr (x, b.1, b.2)
          ]
        ]),
      )
