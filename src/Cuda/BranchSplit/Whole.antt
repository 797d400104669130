-- ===== src/Cuda/BranchSplit/Whole.antt =====
-- A split search lists the cycles of the search that is not split: each closes before the cut, or
-- goes on from exactly one prefix.
use cycle_enumeration_gpu.Prelude.{
  ℕ, zero, suc, ◌+◌, ◌-◌, ◌≤◌, ◌≡◌, refl, sym, ap, ◌∙◌, Bool, true, false, ◌&&◌, ◌||◌, List, [],
  ◌∷◌, ◌++◌, Option, leb, ◌==◌, length, mem, flat_map, append_assoc, range, inl, inr, Bool-cases,
  arith,
}
use cycle_enumeration_gpu.Cycles.{at_limit, cycles_via, cycles_from, cycles_at, all_cycles}
use cycle_enumeration_gpu.Sequential.Bruteforce.Count.{how_many}
use cycle_enumeration_gpu.Cuda.BranchSplit.Parts.{
  back, front, cycles_beyond, goes_on, goes_on_any, closed_from, prefixes_via, prefixes_from,
  closed_all, prefixes_all,
}

how_many-append :
    (size : ℕ) (xs ys : List (List ℕ))
    → how_many size (xs ++ ys) ≡ how_many size xs + how_many size ys
how_many-append size [] ys = omega arith
how_many-append size (x ∷ xs) ys = omega (arith, how_many-append size xs ys)

flat_map-append :
    {A B : Type 0} (f : A → List B) (xs ys : List A)
    → flat_map f (xs ++ ys) ≡ flat_map f xs ++ flat_map f ys
flat_map-append f [] ys = refl
flat_map-append f (x ∷ xs) ys =
    ap (λ zs. f x ++ zs) (flat_map-append f xs ys)
    ∙ sym (append_assoc (f x) (flat_map f xs) (flat_map f ys))

-- Counts that add up for each element add up for the list.
pub parts_add_up :
    (size : ℕ) (beyond : List ℕ → List (List ℕ)) (all closed prefixes : ℕ → List (List ℕ))
    (vs : List ℕ)
    → ((v : ℕ)
        → how_many size (all v)
          ≡ how_many size (closed v) + how_many size (flat_map beyond (prefixes v)))
    → how_many size (flat_map all vs)
      ≡ how_many size (flat_map closed vs) + how_many size (flat_map beyond (flat_map prefixes vs))
parts_add_up size beyond all closed prefixes [] each = omega arith
parts_add_up size beyond all closed prefixes (v ∷ vs) each = omega (
  arith,
  each v,
  parts_add_up size beyond all closed prefixes vs each,
  how_many-append size (all v) (flat_map all vs),
  how_many-append size (closed v) (flat_map closed vs),
  ap (how_many size) (flat_map-append beyond (prefixes v) (flat_map prefixes vs)),
  how_many-append size (flat_map beyond (prefixes v)) (flat_map beyond (flat_map prefixes vs)),
)

neither : (a b : Bool) → (a || b) ≡ false → (a ≡ false) × (b ≡ false)
neither true b e = absurd (cc e)
neither false b e = (refl, e)

front-cons : (v : ℕ) (path : List ℕ) → 1 ≤ length path → front (v ∷ path) ≡ front path
front-cons v [] h = absurd (omega arith)
front-cons v (u ∷ path) h = refl

module _ (next : ℕ → List ℕ) (limit : Option ℕ) (cutoff n root size : ℕ) where
  nothing_via :
      (deeper : ℕ → List ℕ → List (List ℕ)) (path : List ℕ) (v : ℕ)
      → goes_on next limit cutoff root path v ≡ false
      → cycles_via next limit root deeper path v ≡ []
  nothing_via deeper path v e = ground (arith, e)

  nothing_on :
      (deeper : ℕ → List ℕ → List (List ℕ)) (path vs : List ℕ)
      → goes_on_any next limit cutoff root path vs ≡ false
      → flat_map (cycles_via next limit root deeper path) vs ≡ []
  nothing_on deeper path [] e = refl
  nothing_on deeper path (v ∷ vs) e =
      let (here, there) =
        neither (goes_on next limit cutoff root path v) (goes_on_any next limit cutoff root path vs)
          e in
      rw (nothing_via deeper path v here) (nothing_on deeper path vs there)

  -- What the lists count, for one vertex at the end of a path.
  abbrev IsSplit : ℕ → ℕ → List ℕ → Type 0
  IsSplit fuel v path =
      how_many size (cycles_from next limit root fuel v path)
      ≡ how_many size (closed_from next limit cutoff root fuel v path)
        + how_many size (
            flat_map (cycles_beyond next limit cutoff n)
              (prefixes_from next limit cutoff root fuel v path))

  one_prefix :
      (fuel v : ℕ) (path : List ℕ)
      → suc fuel + length path ≡ suc n
      → length path ≡ cutoff
      → back path ≡ v
      → front path ≡ root
      → how_many size (cycles_from next limit root (suc fuel) v path)
        ≡ 0 + how_many size (flat_map (cycles_beyond next limit cutoff n) (path ∷ []))
  unfolding cycles_beyond
  one_prefix fuel v path f cut b r =
      let rest : suc n - cutoff ≡ suc fuel = omega (arith, cut) in
      let same : cycles_beyond next limit cutoff n path
          ≡ cycles_from next limit root (suc fuel) v path =
        ap (λ u. cycles_from next limit (front path) (suc n - cutoff) u path) b
        ∙ ap (λ k. cycles_from next limit (front path) k v path) rest
        ∙ ap (λ u. cycles_from next limit u (suc fuel) v path) r in
      omega (
        arith,
        ap (how_many size) same,
        how_many-append size (cycles_beyond next limit cutoff n path) [],
      )

  parts_via :
      (fuel : ℕ) (path : List ℕ)
      → ((v : ℕ) → IsSplit fuel v (v ∷ path))
      → (v : ℕ)
      → how_many size (cycles_via next limit root (cycles_from next limit root fuel) path v)
        ≡ how_many size
            (cycles_via next limit root (closed_from next limit cutoff root fuel) path v)
          + how_many size (
              flat_map (cycles_beyond next limit cutoff n) (
                prefixes_via next limit cutoff root
                  (prefixes_from next limit cutoff root fuel)
                  path
                  v))
  parts_via fuel path deeper v = elim (Bool-cases (v == root && leb 2 (length path))) [
    | inl closes ↦ rw closes (omega arith)
    | inr open_ ↦ rw open_ (elim (Bool-cases (leb v root || mem v path)) [
      | inl old ↦ rw old refl
      | inr new ↦ rw new (elim (Bool-cases (at_limit limit (length path))) [
        | inl far ↦ rw far refl
        | inr near ↦ rw near (deeper v)
      ])
    ])
  ]

  pub parts_from :
      (fuel v : ℕ) (path : List ℕ)
      → fuel + length path ≡ suc n
      → length path ≤ cutoff
      → 1 ≤ length path
      → back path ≡ v
      → front path ≡ root
      → IsSplit fuel v path
  unfolding cycles_from closed_from prefixes_from cycles_beyond
  parts_from zero v path f short one b r = refl
  parts_from (suc fuel) v path f short one b r = elim (Bool-cases (length path == cutoff)) [
    | inl cut ↦ rw cut (elim (Bool-cases (goes_on_any next limit cutoff root path (next v))) [
      | inl on ↦ rw on (unfold cycles_from in one_prefix fuel v path f (ground (arith, cut)) b r)
      | inr off ↦ rw (off, nothing_on (cycles_from next limit root fuel) path (next v) off)
    ])
    | inr uncut ↦ rw uncut (
        parts_add_up size (cycles_beyond next limit cutoff n) _ _ _ (next v) (
          parts_via fuel path (λ w.
            parts_from fuel w (w ∷ path) (omega arith) (ground (arith, uncut)) (omega arith) refl
              (front-cons w path one ∙ r))))
  ]

-- At every length the cycles that close before the cut and those beyond the prefixes are all cycles.
pub all_cycles_split :
    (next : ℕ → List ℕ) (limit : Option ℕ) (cutoff n size : ℕ)
    → 1 ≤ cutoff
    → how_many size (all_cycles next limit n)
      ≡ how_many size (closed_all next limit cutoff n)
        + how_many size
            (flat_map (cycles_beyond next limit cutoff n) (prefixes_all next limit cutoff n))
unfolding all_cycles cycles_at closed_all prefixes_all
all_cycles_split next limit cutoff n size long =
    parts_add_up size (cycles_beyond next limit cutoff n) _ _ _ (range n) (λ root.
      parts_from next limit cutoff n root size n root (root ∷ []) (omega arith) (omega arith)
        (omega arith) refl refl)
