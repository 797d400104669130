-- ===== src/Dynamic/UpdateOpenmp/Differences.antt =====
-- What an update hands to the last step: for each length, how many walks the changes own.
use cycle_enumeration_gpu.Prelude.{ℕ, ◌+◌, List, [], ◌∷◌, length, get_or, range}
use cycle_enumeration_gpu.Dynamic.EdgeChange.{EdgeChange}
use cycle_enumeration_gpu.Dynamic.DirectedGraph.{DirectedGraph}
use cycle_enumeration_gpu.Dynamic.ThroughEdge.{index_of}
use cycle_enumeration_gpu.Dynamic.ThroughEdge.Counts.{how_many}
use cycle_enumeration_gpu.Dynamic.ThroughEdge.Owned.{counted}
use cycle_enumeration_gpu.Dynamic.UpdateOpenmp.Phases.{no_change}

-- The cycles that the change with an id owns.
abbrev pub owned_by : DirectedGraph → List EdgeChange → ℕ → ℕ → List (List ℕ)
owned_by g changes most owner =
    let c = get_or changes owner no_change in
    counted g c.source c.target owner (index_of changes) most

-- How many walks of a length the changes with these ids own together.
unfoldable pub owned_in_all : DirectedGraph → List EdgeChange → ℕ → ℕ → List ℕ → ℕ
owned_in_all g changes most k [] = 0
owned_in_all g changes most k (owner ∷ owners) =
    how_many k (owned_by g changes most owner) + owned_in_all g changes most k owners

-- How many walks of a length the changes of a phase own together.
abbrev pub owned_in_phase : DirectedGraph → List EdgeChange → ℕ → ℕ → ℕ
owned_in_phase g changes most k = owned_in_all g changes most k (range (length changes))
