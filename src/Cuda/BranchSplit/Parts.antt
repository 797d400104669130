-- ===== src/Cuda/BranchSplit/Parts.antt =====
-- The specification of a split search: the cycles that close before the cut, the prefixes that the
-- cut leaves, and the cycles that go on from a prefix.
use cycle_enumeration_gpu.Prelude.{
  ℕ, zero, suc, ◌-◌, Bool, true, false, ◌&&◌, ◌||◌, List, [], ◌∷◌, Option, leb, ◌==◌, if◌then◌else◌,
  length, mem, flat_map, range,
}
use cycle_enumeration_gpu.Cycles.{at_limit, cycles_via, cycles_from}

-- The last vertex of a path, and its first.
abbrev pub back : List ℕ → ℕ
back [] = 0
back (v ∷ p) = v

abbrev pub front : List ℕ → ℕ
front [] = 0
front (v ∷ []) = v
front (v ∷ u ∷ p) = front (u ∷ p)

module _ (next : ℕ → List ℕ) (limit : Option ℕ) (cutoff : ℕ) where
  -- The cycles through vertices below `n` that go on from a prefix.
  unfoldable pub cycles_beyond : ℕ → List ℕ → List (List ℕ)
  unfolding cycles_from
  cycles_beyond n p = cycles_from next limit (front p) (suc n - cutoff) (back p) p

  module _ (root : ℕ) where
    -- Whether a search at the end of `path` goes over an edge to `v`.
    abbrev pub goes_on : List ℕ → ℕ → Bool
    goes_on path v =
        if v == root && leb 2 (length path)
        then true
        else if (leb v root || mem v path) || at_limit limit (length path)
        then false
        else true

    abbrev pub goes_on_any : List ℕ → List ℕ → Bool
    goes_on_any path [] = false
    goes_on_any path (v ∷ vs) = goes_on path v || goes_on_any path vs

    -- The cycles that close on a path shorter than the cut.
    unfoldable pub closed_from : ℕ → ℕ → List ℕ → List (List ℕ)
    closed_from zero v path = []
    closed_from (suc fuel) v path =
        let deeper = closed_from fuel in
        if length path == cutoff
        then []
        else flat_map (cycles_via next limit root deeper path) (next v)

    abbrev pub prefixes_via : (ℕ → List ℕ → List (List ℕ)) → List ℕ → ℕ → List (List ℕ)
    prefixes_via deeper path v =
        if v == root && leb 2 (length path)
        then []
        else if leb v root || mem v path
        then []
        else if at_limit limit (length path)
        then []
        else deeper v (v ∷ path)

    -- The paths as long as the cut from which the search goes on.
    unfoldable pub prefixes_from : ℕ → ℕ → List ℕ → List (List ℕ)
    prefixes_from zero v path = []
    prefixes_from (suc fuel) v path =
        let deeper = prefixes_from fuel in
        if length path == cutoff
        then (if goes_on_any path (next v) then path ∷ [] else [])
        else flat_map (prefixes_via deeper path) (next v)

  -- The same for every root below `n`.
  unfoldable pub closed_all : ℕ → List (List ℕ)
  unfolding closed_from
  closed_all n = flat_map (λ root. closed_from root n root (root ∷ [])) (range n)

  unfoldable pub prefixes_all : ℕ → List (List ℕ)
  unfolding prefixes_from
  prefixes_all n = flat_map (λ root. prefixes_from root n root (root ∷ [])) (range n)
