-- ===== src/Dynamic/ThroughEdge/Paths.antt =====
-- The specification of the search through one changed edge: the cycles that begin with the edge
-- `u → v` and cross no forbidden edge. A walk is a list with its last vertex at the head.
pub mod Complete
pub mod Distinct
pub mod Simple
use cycle_enumeration_gpu.Prelude.{
  ℕ, zero, suc, ◌≤◌, ◌<◌, ◌≡◌, false, Bool, ◌&&◌, List, [], ◌∷◌, leb, ltb, ◌==◌, if◌then◌else◌,
  length, mem, flat_map, ◌∈◌,
}

module _ (next : ℕ → List ℕ) (forbidden : ℕ → ℕ → Bool) (u most : ℕ) where
  -- The cycles that go on from the walk `path`, which ends in `current`, to the vertex `w`;
  -- `deeper` lists those through a new vertex.
  abbrev pub paths_via : (ℕ → List ℕ → List (List ℕ)) → ℕ → List ℕ → ℕ → List (List ℕ)
  paths_via deeper current path w =
      if forbidden current w
      then []
      else if w == u
      then (if leb 2 (length path) && leb (length path) most then path ∷ [] else [])
      else if mem w path
      then []
      else if ltb (length path) most
      then deeper w (w ∷ path)
      else []

  -- The cycles that extend the walk `path`, which ends in `current`, by less than `fuel` vertices.
  unfoldable pub paths_from : ℕ → ℕ → List ℕ → List (List ℕ)
  paths_from zero current path = []
  paths_from (suc fuel) current path =
      flat_map (paths_via (paths_from fuel) current path) (next current)

  module _ (v : ℕ) where
    -- Simple walks that begin with the edge and cross no forbidden edge after it.
    pub data Trail : List ℕ → Type 0 where
      first : Trail (v ∷ u ∷ [])
      further :
          {w c : ℕ} {p : List ℕ}
          → Trail (c ∷ p)
          → w ∈ next c
          → forbidden c w ≡ false
          → mem w (c ∷ p) ≡ false
          → length (c ∷ p) < most
          → Trail (w ∷ c ∷ p)

    -- A cycle is such a walk with an edge back to its first vertex that is not forbidden.
    pub data IsThrough : List ℕ → Type 0 where
      back :
          {c : ℕ} {p : List ℕ}
          → Trail (c ∷ p)
          → u ∈ next c
          → forbidden c u ≡ false
          → length (c ∷ p) ≤ most
          → IsThrough (c ∷ p)
