-- ===== src/Cycles.antt =====
-- The specification of cycle enumeration: which closed walks count, and a search that lists them.
-- It knows of a graph only the successors of each vertex.
pub mod Marks
pub mod Complete
pub mod Distinct
pub mod Runs
pub mod Views
use cycle_enumeration_gpu.Prelude.{
  ℕ, zero, suc, ◌%◌, ◌^◌, ◌<◌, ◌≤◌, ◌≡◌, Bool, true, false, ◌&&◌, ◌||◌, List, [], ◌∷◌, Option, none,
  some, leb, ◌==◌, if◌then◌else◌, length, mem, flat_map, range, map, ◌∈◌,
}
use cycle_enumeration_gpu.Core.Histogram.{Entries}

-- `max_cycle_length.has_value() && path.size() >= *max_cycle_length`
abbrev pub at_limit : Option ℕ → ℕ → Bool
at_limit none size = false
at_limit (some most) size = leb most size

-- A walk is a list with its last vertex at the head.
module _ (next : ℕ → List ℕ) (limit : Option ℕ) (root : ℕ) where
  -- The cycles that go on from the walk `path` to the vertex `v`; `deeper` lists those through a
  -- new vertex.
  abbrev pub cycles_via : (ℕ → List ℕ → List (List ℕ)) → List ℕ → ℕ → List (List ℕ)
  cycles_via deeper path v =
      if v == root && leb 2 (length path)
      then path ∷ []
      else if leb v root || mem v path
      then []
      else if at_limit limit (length path)
      then []
      else deeper v (v ∷ path)

  -- The cycles that extend the walk `path`, which ends in `v`, by less than `fuel` vertices.
  unfoldable pub cycles_from : ℕ → ℕ → List ℕ → List (List ℕ)
  cycles_from zero v path = []
  cycles_from (suc fuel) v path = flat_map (cycles_via (cycles_from fuel) path) (next v)

  -- Simple walks from `root` whose other vertices lie above it, and which keep to the limit.
  pub data Walk : List ℕ → Type 0 where
    start : Walk (root ∷ [])
    step :
        {v u : ℕ} {p : List ℕ}
        → Walk (u ∷ p)
        → v ∈ next u
        → root < v
        → mem v (u ∷ p) ≡ false
        → at_limit limit (length (u ∷ p)) ≡ false
        → Walk (v ∷ u ∷ p)

  -- A cycle is such a walk with an edge from its end back to the root.
  pub data IsCycle : List ℕ → Type 0 where
    close : {u v : ℕ} {p : List ℕ} → Walk (u ∷ v ∷ p) → root ∈ next u → IsCycle (u ∷ v ∷ p)

module _ (next : ℕ → List ℕ) (limit : Option ℕ) (n : ℕ) where
  -- The cycles through vertices below `n`, listed under their least vertex.
  unfoldable pub cycles_at : ℕ → List (List ℕ)
  cycles_at root = cycles_from next limit root n root (root ∷ [])

  unfoldable pub all_cycles : List (List ℕ)
  unfolding cycles_at
  all_cycles = flat_map cycles_at (range n)

-- `static_cast<Length>(path.size())`
abbrev pub cycle_length : List ℕ → ℕ
cycle_length c = length c % 2 ^ 32

-- One increment for each cycle, at its length.
abbrev pub tally : List (List ℕ) → Entries
tally [] = []
tally (c ∷ cs) = (cycle_length c, 1) ∷ tally cs
