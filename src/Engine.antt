-- ===== src/Engine.antt =====
-- The entry points for recomputation and update (src/engine/histogram_engine.cpp,
-- include/cycle_enum/engine/histogram_engine.hpp). The CUDA update is a parameter, and so is what the
-- OpenMP runtime decides.
use cycle_enumeration_gpu.Prelude.{ℕ, Bool, List, Option, Result}
use cycle_enumeration_gpu.Prelude.Int.{ℤ}
use cycle_enumeration_gpu.Core.Histogram.{CycleHistogram}
use cycle_enumeration_gpu.Core.GraphView.{GraphView}
use cycle_enumeration_gpu.Dynamic.DirectedGraph.{DirectedGraph}
use cycle_enumeration_gpu.Dynamic.EdgeChange.{EdgeBatch}
use cycle_enumeration_gpu.Dynamic.Update.{update_static_histogram}
use cycle_enumeration_gpu.Dynamic.UpdateOpenmp.{update_static_histogram_openmp}
use cycle_enumeration_gpu.Sequential.Johnson.{count_simple_cycles_johnson}

unfoldable pub count_histogram : GraphView → Option ℕ → Result CycleHistogram
unfolding count_simple_cycles_johnson
count_histogram g limit = count_simple_cycles_johnson g limit

pub data UpdateBackend : Type 0 where
  sequential openmp cuda : UpdateBackend

-- Any other backend, which is a logic error of the source, is not a value of the type.
unfoldable pub update_histogram :
    (cuda_update : DirectedGraph → CycleHistogram → EdgeBatch → ℕ → ℤ → Result CycleHistogram)
    (available : Bool) (first second : List (List ℕ))
    → UpdateBackend
    → DirectedGraph
    → CycleHistogram
    → EdgeBatch
    → ℕ
    → ℤ
    → ℤ
    → Result CycleHistogram
unfolding update_static_histogram update_static_histogram_openmp
update_histogram cuda_update available first second backend g prior batch most threads device =
    elim backend [
      | sequential ↦ update_static_histogram g prior batch most
      | openmp ↦ update_static_histogram_openmp available first second g prior batch most threads
      | cuda ↦ cuda_update g prior batch most device
    ]
