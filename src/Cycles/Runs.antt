-- ===== src/Cycles/Runs.antt =====
-- A search as a sequence of increments: when each round of a loop only adds entries to the
-- histogram, so does the loop.
use cycle_enumeration_gpu.Prelude.{
  ℕ, ◌≡◌, refl, sym, ap, ◌∙◌, fun_ext, inl, inr, Result-cases, List, [], ◌∷◌, ◌++◌, Result, ok, err,
  ◌>>=◌, for_each, All, flat_map, map,
}
use cycle_enumeration_gpu.Core.Histogram.{Entries, CycleHistogram, increment_all}
use cycle_enumeration_gpu.Core.Histogram.Laws.{increment_all-nil, increment_all-append}
use cycle_enumeration_gpu.Cycles.{tally}

-- A component of the state that each round may change, after a whole list.
abbrev pub after_all : {A C : Type 0} → (A → C → C) → List A → C → C
after_all after [] c = c
after_all after (x ∷ xs) c = after_all after xs (after x c)

module _ {A S C : Type 0} (step : A → S → Result S) (adds : A → Entries)
    (state : CycleHistogram → C → S) (after : A → C → C) where
  pub for_each-Runs :
      (P : A → Type 0)
      → ((x : A) (h : CycleHistogram) (c : C)
          → P x
          → step x (state h c) ≡ (increment_all (adds x) h >>= λ h'. ok (state h' (after x c))))
      → (xs : List A) (h : CycleHistogram) (c : C) → All P xs
      → for_each step xs (state h c)
        ≡ (increment_all (flat_map adds xs) h >>= λ h'. ok (state h' (after_all after xs c)))
  for_each-Runs P runs [] h c a = rw (increment_all-nil h)
  for_each-Runs P runs (x ∷ xs) h c a =
      rw (runs x h c a.0, increment_all-append (adds x) (flat_map adds xs) h)
        (elim (increment_all (adds x) h)
          as (λ r. (r >>= (λ h'. ok (state h' (after x c))) >>= for_each step xs) ≡ (
            r >>= increment_all (flat_map adds xs) >>= λ h'.
            ok (state h' (after_all after xs (after x c))))) [
              | ok h' ↦ for_each-Runs P runs xs h' (after x c) a.1
              | err e ↦ refl
            ])

-- A step that follows a search and only changes what its state is.
pub then_Runs :
    {S T : Type 0} (r : Result CycleHistogram) (state : CycleHistogram → S) (k : S → Result T)
    (state' : CycleHistogram → T)
    → ((h : CycleHistogram) → k (state h) ≡ ok (state' h))
    → (r >>= (λ h. ok (state h)) >>= k) ≡ (r >>= λ h. ok (state' h))
then_Runs (ok h) state k state' e = e h
then_Runs (err x) state k state' e = refl

-- A search that only adds to its histogram, and then returns it.
pub returned_histogram :
    {S : Type 0} (r : Result CycleHistogram) (state : CycleHistogram → S) (get : S → CycleHistogram)
    → ((h : CycleHistogram) → get (state h) ≡ h)
    → (r >>= (λ h. ok (state h)) >>= λ t. ok (get t)) ≡ r
returned_histogram (ok h) state get e = rw (e h)
returned_histogram (err x) state get e = refl

pub tally-append : (xs ys : List (List ℕ)) → tally (xs ++ ys) ≡ tally xs ++ tally ys
tally-append [] ys = refl
tally-append (c ∷ xs) ys = rw (tally-append xs ys)

pub tally-flat_map :
    {A : Type 0} (f : A → List (List ℕ)) (xs : List A)
    → tally (flat_map f xs) ≡ flat_map (λ x. tally (f x)) xs
tally-flat_map f [] = refl
tally-flat_map f (x ∷ xs) = rw (tally-append (f x) (flat_map f xs), tally-flat_map f xs)

pub flat_map-map :
    {A B D : Type 0} (f : B → List D) (g : A → B) (xs : List A)
    → flat_map f (map g xs) ≡ flat_map (λ x. f (g x)) xs
flat_map-map f g [] = refl
flat_map-map f g (x ∷ xs) = rw (flat_map-map f g xs)

module _ {A S C : Type 0} (step : A → S → Result S)
    (does : A → CycleHistogram → Result CycleHistogram) (state : CycleHistogram → C → S)
    (Keeps : C → Type 0) where
  -- A step that does to the histogram what `does` says, and leaves some component as it should be.
  pub for_each-Keeps :
      (P : A → Type 0)
      → ((x : A) (h : CycleHistogram) (c : C)
          → P x
          → Keeps c
          → (c' : C) × Keeps c' × (step x (state h c) ≡ (does x h >>= λ h'. ok (state h' c'))))
      → (xs : List A) (h : CycleHistogram) (c : C) → All P xs
      → Keeps c
      → (c' : C) × Keeps c'
        × (for_each step xs (state h c) ≡ (for_each does xs h >>= λ h'. ok (state h' c')))
  for_each-Keeps P runs [] h c a k = (c, k, refl)
  for_each-Keeps P runs (x ∷ xs) h c a k =
      let (d, kd, run) = runs x h c a.0 k in
      elim (Result-cases (does x h)) [
        | inl (h', e) ↦
            let (c', k', rest) = for_each-Keeps P runs xs h' d a.1 kd in (c', k', rw (run, e) rest)
        | inr (x', e) ↦ (c, k, rw (run, e) refl)
      ]

pub increment_all-flat_map :
    {A : Type 0} (adds : A → Entries) (xs : List A) (h : CycleHistogram)
    → increment_all (flat_map adds xs) h ≡ for_each (λ x. increment_all (adds x)) xs h
increment_all-flat_map adds [] h = increment_all-nil h
increment_all-flat_map adds (x ∷ xs) h =
    increment_all-append (adds x) (flat_map adds xs) h
    ∙ ap (λ k. increment_all (adds x) h >>= k) (fun_ext (increment_all-flat_map adds xs))

module _ {S C : Type 0} (state : CycleHistogram → C → S) (Keeps : C → Type 0) where
  -- A call that only adds the entries to the histogram, and leaves some component as it should be.
  abbrev pub Adds : Result S → Entries → CycleHistogram → Type 0
  Adds r adds h = (c' : C) × Keeps c' × (r ≡ (increment_all adds h >>= λ h'. ok (state h' c')))

  pub for_each-Adds :
      {A : Type 0} (step : A → S → Result S) (adds : A → Entries) (xs : List A) (h : CycleHistogram)
      (c : C)
      → All
          (λ x. (h' : CycleHistogram) (c' : C) → Keeps c' → Adds (step x (state h' c')) (adds x) h')
          xs
      → Keeps c
      → Adds (for_each step xs (state h c)) (flat_map adds xs) h
  for_each-Adds step adds xs h c a k =
      let (c', k', run) =
        for_each-Keeps step (λ x. increment_all (adds x)) state Keeps
          (λ x. (h' : CycleHistogram) (c' : C) → Keeps c' → Adds (step x (state h' c')) (adds x) h')
          (λ x h' c' p. p h' c') xs h c a k in
      (
        c',
        k',
        run ∙ ap (λ r. r >>= λ h'. ok (state h' c')) (sym (increment_all-flat_map adds xs h)),
      )
