-- ===== src/Sequential/Johnson.antt =====
-- Johnson's search for static cycles (src/sequential/johnson.cpp, class JohnsonSearch). The back of
-- `path` and of each list of dependents is at the head of its list. The recursions take fuel: the
-- bounded search one unit for each vertex that it can put on its path, and `unblock` one for each
-- blocked vertex and one more. That a unit for each vertex is enough for the unbounded `circuit`
-- is not shown.
pub mod Bounded
pub mod TimeWindow
use cycle_enumeration_gpu.Prelude.{
  ℕ, zero, suc, Bool, true, false, ◌&&◌, ◌||◌, List, [], ◌∷◌, Option, none, some, leb, ◌==◌,
  if◌then◌else◌, length, mem, tail, set, replicate, range, Result, ok, err, ◌>>=◌, ◌>>◌, at,
  for_each, out_of_fuel,
}
use cycle_enumeration_gpu.Core.Histogram.{CycleHistogram, no_cycles, increment}
use cycle_enumeration_gpu.Core.GraphView.{AdjacencyEntry, GraphView, outgoing_row}
use cycle_enumeration_gpu.Cycles.{at_limit, cycle_length}
use cycle_enumeration_gpu.Sequential.Bruteforce.{validate_max_cycle_length}

pub record Johnson : Type 0 where
  pub histogram : CycleHistogram
  pub blocked : List Bool
  pub blocked_list : List (List ℕ)
  pub path : List ℕ

abbrev pub push : ℕ → Johnson → Johnson
push v s = record s { path = v ∷ s.path; blocked = set s.blocked v true }

abbrev pub record_cycle : Johnson → Result Johnson
record_cycle s = do
  h ← increment (cycle_length s.path) 1 s.histogram
  ok (record s { histogram = h })

-- A vertex that is not entered: not above the root, or blocked.
abbrev pub is_closed : ℕ → ℕ → Johnson → Result Bool
is_closed root next s = if leb next root then ok true else at s.blocked next

-- The loop that empties the list of dependents of `v`, which has at most `rounds` of them.
unfoldable pub release : (ℕ → Johnson → Result Johnson) → ℕ → ℕ → Johnson → Result Johnson
release call zero v s = do
  dependents ← at s.blocked_list v
  elim dependents [ [] ↦ ok s | _ ∷ _ ↦ err out_of_fuel ]
release call (suc rounds) v s = do
  dependents ← at s.blocked_list v
  elim dependents [
    | [] ↦ ok s
    | d ∷ rest ↦ (do
      let popped = record s { blocked_list = set s.blocked_list v rest }
      still ← at s.blocked d
      t ← if still then call d popped else ok popped
      release call rounds v t)
  ]

unfoldable pub unblock : ℕ → ℕ → Johnson → Result Johnson
unfolding release
unblock zero v s = err out_of_fuel
unblock (suc fuel) v s = do
  dependents ← at s.blocked_list v
  release (unblock fuel) (length dependents) v (record s { blocked = set s.blocked v false })

-- `vertex` waits for `next` to be unblocked.
abbrev pub depend : ℕ → ℕ → Johnson → Result Johnson
depend vertex next s = do
  dependents ← at s.blocked_list next
  if mem vertex dependents
      then ok s
      else ok (record s { blocked_list = set s.blocked_list next (vertex ∷ dependents) })

module _ (g : GraphView) (root : ℕ) where
  add_to_blocked_lists : ℕ → Johnson → Result Johnson
  add_to_blocked_lists vertex s = do
    edges ← outgoing_row g vertex
    for_each
        (λ (e : AdjacencyEntry) s. if leb e.vertex root then ok s else depend vertex e.vertex s)
        edges s

  -- The loop of `circuit_bounded`; the second component is `found_cycle`.
  bounded_edge :
      (ℕ → Johnson → Result (Johnson × Bool))
      → ℕ
      → AdjacencyEntry
      → Johnson × Bool
      → Result (Johnson × Bool)
  bounded_edge call most edge (s, found) =
      let next = edge.vertex in
      if next == root && leb 2 (length s.path) then (do t ← record_cycle s; ok (t, true)) else (do
        closed ← is_closed root next s
        if closed || leb most (length s.path)
            then ok (s, found)
            else (do (t, hit) ← call next s; ok (t, hit || found)))

  circuit_bounded : ℕ → ℕ → ℕ → Johnson → Result (Johnson × Bool)
  unfolding bounded_edge
  circuit_bounded most zero vertex s = err out_of_fuel
  circuit_bounded most (suc fuel) vertex s = do
    edges ← outgoing_row g vertex
    (t, found) ←
        for_each (bounded_edge (circuit_bounded most fuel) most) edges (push vertex s, false)
    ok (record t { blocked = set t.blocked vertex false; path = tail t.path }, found)

  -- The loop of `circuit`, which `run` enters only without a limit.
  circuit_edge :
      (ℕ → Johnson → Result (Johnson × Bool))
      → Option ℕ
      → AdjacencyEntry
      → Johnson × Bool
      → Result (Johnson × Bool)
  circuit_edge call limit edge (s, found) =
      let next = edge.vertex in
      if next == root && leb 2 (length s.path) then (do t ← record_cycle s; ok (t, true)) else (do
        closed ← is_closed root next s
        if closed || at_limit limit (length s.path)
            then ok (s, found)
            else (do (t, hit) ← call next s; ok (t, hit || found)))

  circuit : Option ℕ → ℕ → ℕ → Johnson → Result (Johnson × Bool)
  unfolding circuit_edge add_to_blocked_lists unblock
  circuit limit zero vertex s = err out_of_fuel
  circuit limit (suc fuel) vertex s = do
    edges ← outgoing_row g vertex
    (t, found) ← for_each (circuit_edge (circuit limit fuel) limit) edges (push vertex s, false)
    u ← if found then unblock (suc g.vertex_count) vertex t else add_to_blocked_lists vertex t
    ok (record u { path = tail u.path }, found)

module _ (g : GraphView) (limit : Option ℕ) where
  -- One root of `run`.
  run_root : ℕ → Johnson → Result Johnson
  unfolding circuit_bounded circuit
  run_root root s = do
    let clean = record s {
      blocked = replicate g.vertex_count false;
      blocked_list = replicate g.vertex_count [];
      path = [];
    }
    (t, found) ← elim limit [
      | none ↦ circuit g root none g.vertex_count root clean
      | some most ↦ circuit_bounded g root most g.vertex_count root clean
    ]
    ok t

  unfoldable pub count_simple_cycles_johnson : Result CycleHistogram
  unfolding run_root validate_max_cycle_length
  count_simple_cycles_johnson = do
    validate_max_cycle_length limit
    t ← for_each run_root (range g.vertex_count) (record {
      histogram = no_cycles;
      blocked = replicate g.vertex_count false;
      blocked_list = replicate g.vertex_count [];
      path = [];
    })
    ok t.histogram
