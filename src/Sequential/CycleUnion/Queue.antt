-- ===== src/Sequential/CycleUnion/Queue.antt =====
-- A breadth-first search, on lists: the vertices seen, and those of them that wait in the queue.
use cycle_enumeration_gpu.Prelude.{
  ℕ, zero, suc, ◌+◌, ◌≤◌, ◌<◌, ◌≡◌, refl, sym, ap, ◌∙◌, subst, true, List, [], ◌∷◌, ◌++◌, ◌==◌,
  if◌then◌else◌, length, mem, inl, inr, Bool-cases, arith, ◌∈◌, ◌↔◌, All, length-append,
  mem-append_left, mem-append_right, append_cases,
}
use mathlib.Core.Logic.{◌⊎◌}
use cycle_enumeration_gpu.Cycles.Marks.{spare, spare-cons, spare-nil}

-- The vertices seen, and the queue.
abbrev pub Front : Type 0
Front = List ℕ × List ℕ

abbrev pub meet : ℕ → Front → Front
meet v (seen, queue) = if mem v seen then (seen, queue) else (v ∷ seen, queue ++ v ∷ [])

abbrev pub meet_all : List ℕ → Front → Front
meet_all [] f = f
meet_all (v ∷ vs) f = meet_all vs (meet v f)

pub mem-true : (v : ℕ) (xs : List ℕ) → mem v xs ≡ true → v ∈ xs
mem-true v [] e = absurd (cc e)
mem-true v (x ∷ xs) e = elim (Bool-cases (v == x)) [
  | inl same ↦ inl (ground (arith, same))
  | inr other ↦ inr (mem-true v xs (rw other at e))
]

pub mem-∈ : (v : ℕ) (xs : List ℕ) → v ∈ xs → mem v xs ≡ true
mem-∈ v [] m = absurd m
mem-∈ v (x ∷ xs) (inl e) = ground (arith, e)
mem-∈ v (x ∷ xs) (inr m) = ground (arith, mem-∈ v xs m)

-- What meeting some vertices does to a front.
pub record Met (vs : List ℕ) (f f' : Front) : Type 0 where
  pub keeps : (w : ℕ) → w ∈ f.0 → w ∈ f'.0
  pub holds : (w : ℕ) → w ∈ vs → w ∈ f'.0
  pub only : (w : ℕ) → w ∈ f'.0 → (w ∈ f.0) ⊎ (w ∈ vs)
  pub waits : (w : ℕ) → w ∈ f.1 → w ∈ f'.1
  pub newly : (w : ℕ) → w ∈ f'.0 → (w ∈ f.0) ⊎ (w ∈ f'.1)
  pub queued : (w : ℕ) → w ∈ f'.1 → (w ∈ f.1) ⊎ (w ∈ f'.0)

Met-nil : (f : Front) → Met [] f f
Met-nil f = record {
  keeps = λ w m. m;
  holds = λ w m. absurd m;
  only = λ w m. inl m;
  waits = λ w m. m;
  newly = λ w m. inl m;
  queued = λ w m. inl m;
}

Met-old : (v : ℕ) (vs : List ℕ) (f f' : Front) → v ∈ f.0 → Met vs f f' → Met (v ∷ vs) f f'
Met-old v vs f f' old met = record {
  keeps = met.keeps;
  holds = λ w m. elim m [
    | inl e ↦ met.keeps w (subst (λ x. x ∈ f.0) (sym e) old)
    | inr r ↦ met.holds w r
  ];
  only = λ w m. elim (met.only w m) [ inl a ↦ inl a | inr b ↦ inr (inr b) ];
  waits = met.waits;
  newly = met.newly;
  queued = met.queued;
}

Met-new :
    (v : ℕ) (vs seen queue : List ℕ) (f' : Front)
    → Met vs (v ∷ seen, queue ++ v ∷ []) f'
    → Met (v ∷ vs) (seen, queue) f'
Met-new v vs seen queue f' met = record {
  keeps = λ w m. met.keeps w (inr m);
  holds = λ w m. elim m [ inl e ↦ met.keeps w (inl e) | inr r ↦ met.holds w r ];
  only = λ w m. elim (met.only w m) [
    | inl a ↦ elim a [ inl e ↦ inr (inl e) | inr old ↦ inl old ]
    | inr b ↦ inr (inr b)
  ];
  waits = λ w m. met.waits w (mem-append_left w queue (v ∷ []) m);
  newly = λ w m. elim (met.newly w m) [
    | inl a ↦ elim a [
      | inl e ↦ inr (met.waits w (mem-append_right w queue (v ∷ []) (inl e)))
      | inr old ↦ inl old
    ]
    | inr b ↦ inr b
  ];
  queued = λ w m. elim (met.queued w m) [
    | inl a ↦ elim (append_cases w queue (v ∷ []) a) [
      | inl q ↦ inl q
      | inr last ↦ inr (met.keeps w (elim last [ inl e ↦ inl e | inr none ↦ absurd none ]))
    ]
    | inr b ↦ inr b
  ];
}

pub meet_all-Met : (vs : List ℕ) (f : Front) → Met vs f (meet_all vs f)
meet_all-Met [] f = Met-nil f
meet_all-Met (v ∷ vs) (seen, queue) = elim (Bool-cases (mem v seen)) [
  | inl old ↦
      rw old (Met-old v vs (seen, queue) _ (mem-true v seen old) (meet_all-Met vs (seen, queue)))
  | inr new ↦ rw new (Met-new v vs seen queue _ (meet_all-Met vs (v ∷ seen, queue ++ v ∷ [])))
]

-- Every vertex that is queued was not seen before.
pub meet_all-spare :
    (n : ℕ) (vs : List ℕ) (f : Front)
    → All (λ v. v < n) vs
    → length (meet_all vs f).1 + spare n (meet_all vs f).0 ≡ length f.1 + spare n f.0
meet_all-spare n [] f a = refl
meet_all-spare n (v ∷ vs) (seen, queue) a = elim (Bool-cases (mem v seen)) [
  | inl old ↦
      let same : meet v (seen, queue) ≡ (seen, queue) = rw old in
      ap (λ f. length (meet_all vs f).1 + spare n (meet_all vs f).0) same
      ∙ meet_all-spare n vs (seen, queue) a.1
  | inr new ↦
      let more : meet v (seen, queue) ≡ (v ∷ seen, queue ++ v ∷ []) = rw new in
      ap (λ f. length (meet_all vs f).1 + spare n (meet_all vs f).0) more
      ∙ omega (
        arith,
        meet_all-spare n vs (v ∷ seen, queue ++ v ∷ []) a.1,
        length-append queue (v ∷ []),
        spare-cons n v seen a.0 new,
      )
]

module _ (ahead : ℕ → List ℕ) (start : ℕ) where
  -- The vertices that the search is to find.
  pub data Reaches : ℕ → Type 0 where
    here : Reaches start
    step : {u v : ℕ} → Reaches u → v ∈ ahead u → Reaches v

  abbrev pub bfs : ℕ → Front → List ℕ
  bfs zero (seen, queue) = seen
  bfs (suc fuel) (seen, []) = seen
  bfs (suc fuel) (seen, c ∷ rest) = bfs fuel (meet_all (ahead c) (seen, rest))

  -- What holds between two rounds.
  pub record Good (f : Front) : Type 0 where
    pub starts : start ∈ f.0
    pub sound : (w : ℕ) → w ∈ f.0 → Reaches w
    pub waiting : (w : ℕ) → w ∈ f.1 → w ∈ f.0
    pub done : (w : ℕ) → w ∈ f.0 → (w ∈ f.1) ⊎ ((x : ℕ) → x ∈ ahead w → x ∈ f.0)

  pub Good-start : Good (start ∷ [], start ∷ [])
  Good-start = record {
    starts = inl refl;
    sound = λ w m. elim m [ inl e ↦ subst Reaches (sym e) here | inr r ↦ absurd r ];
    waiting = λ w m. m;
    done = λ w m. inl m;
  }

  Good-round :
      (seen rest : List ℕ) (c : ℕ) → Good (seen, c ∷ rest) → Good (meet_all (ahead c) (seen, rest))
  Good-round seen rest c good =
      let met = meet_all-Met (ahead c) (seen, rest) in
      record {
        starts = met.keeps start good.starts;
        sound = λ w m. elim (met.only w m) [
          | inl old ↦ good.sound w old
          | inr new ↦ step (good.sound c (good.waiting c (inl refl))) new
        ];
        waiting = λ w m. elim (met.queued w m) [
          | inl old ↦ met.keeps w (good.waiting w (inr old))
          | inr new ↦ new
        ];
        done = λ w m. elim (met.newly w m) [
          | inl old ↦ elim (good.done w old) [
            | inl q ↦ elim q [
              | inl e ↦ inr (λ x b. met.holds x (subst (λ y. x ∈ ahead y) e b))
              | inr r ↦ inl (met.waits w r)
            ]
            | inr closed ↦ inr (λ x b. met.keeps x (closed x b))
          ]
          | inr new ↦ inl new
        ];
      }

  pub bfs-Good :
      (n fuel : ℕ) (f : Front)
      → ((v : ℕ) → All (λ w. w < n) (ahead v))
      → length f.1 + spare n f.0 ≤ fuel
      → Good f
      → Good (bfs fuel f, [])
  bfs-Good n zero (seen, []) bounded enough good = good
  bfs-Good n zero (seen, c ∷ rest) bounded enough good = absurd (omega arith)
  bfs-Good n (suc fuel) (seen, []) bounded enough good = good
  bfs-Good n (suc fuel) (seen, c ∷ rest) bounded enough good =
      bfs-Good n fuel (meet_all (ahead c) (seen, rest)) bounded
        (omega (arith, meet_all-spare n (ahead c) (seen, rest) (bounded c)))
        (Good-round seen rest c good)

  Good-Reaches : (seen : List ℕ) → Good (seen, []) → (w : ℕ) → Reaches w → w ∈ seen
  Good-Reaches seen good w here = good.starts
  Good-Reaches seen good w (step {u} r m) = elim (good.done u (Good-Reaches seen good u r)) [
    | inl q ↦ absurd q
    | inr closed ↦ closed w m
  ]

  -- The search finds exactly what it is to find, with one round for each vertex.
  pub bfs-Reaches :
      (n : ℕ)
      → ((v : ℕ) → All (λ w. w < n) (ahead v))
      → start < n
      → (w : ℕ) → (w ∈ bfs n (start ∷ [], start ∷ [])) ↔ Reaches w
  bfs-Reaches n bounded lt w =
      let good =
        bfs-Good n n (start ∷ [], start ∷ []) bounded
          (omega (arith, spare-cons n start [] lt refl, spare-nil n)) Good-start in
      (good.sound w, Good-Reaches _ good w)
