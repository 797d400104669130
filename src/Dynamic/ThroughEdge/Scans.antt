-- ===== src/Dynamic/ThroughEdge/Scans.antt =====
-- The search through one changed edge against its specification: it returns, adds one to the
-- bucket of each cycle's length, and leaves the buffer of flags as it was.
use cycle_enumeration_gpu.Prelude.{
  ℕ, zero, suc, ◌≤◌, ◌<◌, ◌≡◌, refl, sym, ap, ◌∙◌, Bool, true, false, ◌&&◌, List, [], ◌∷◌, leb, ltb,
  ◌==◌, if◌then◌else◌, length, mem, set, flat_map, All, arith, inl, inr, Bool-cases, Result, ok,
  ◌>>=◌, at, for_each,
}
use cycle_enumeration_gpu.Core.GraphView.Rows.{IsCsr, row_of, row_lem, row_of-All}
use cycle_enumeration_gpu.Cycles.Marks.{marks, get-marks, set-marks, unset-marks, spare, spare-cons}
use cycle_enumeration_gpu.Dynamic.DirectedGraph.{DirectedGraph, row_at}
use cycle_enumeration_gpu.Dynamic.ThroughEdge.{
  ChangedEdgeIndex, Scan, bump, forbidden_before, search_edge, search,
}
use cycle_enumeration_gpu.Dynamic.ThroughEdge.Counts.{
  bumped, bump-bumped, bump_all, length-bump_all, bump_all-append,
}
use cycle_enumeration_gpu.Dynamic.ThroughEdge.Paths.{paths_via, paths_from}

-- The state of a search whose walk is `path`, in a buffer of `size` flags.
abbrev pub scanning : ℕ → List ℕ → List ℕ → Scan
scanning size path counts = record { visited = marks size path; counts = counts }

-- A loop over the neighbours, each of which adds its cycles.
for_each-Scans :
    (step : ℕ → Scan → Result Scan) (adds : ℕ → List (List ℕ)) (size : ℕ) (path : List ℕ) (most : ℕ)
    (P : ℕ → Type 0)
    → ((w : ℕ) (counts : List ℕ)
        → P w
        → length counts ≡ suc most
        → step w (scanning size path counts) ≡ ok (scanning size path (bump_all (adds w) counts)))
    → (ws : List ℕ) (counts : List ℕ) → All P ws
    → length counts ≡ suc most
    → for_each step ws (scanning size path counts)
      ≡ ok (scanning size path (bump_all (flat_map adds ws) counts))
unfolding bump_all
for_each-Scans step adds size path most P scans [] counts a l = refl
for_each-Scans step adds size path most P scans (w ∷ ws) counts a l =
    rw (scans w counts a.0 l, bump_all-append (adds w) (flat_map adds ws) counts)
      (for_each-Scans step adds size path most P scans ws (bump_all (adds w) counts) a.1
        (length-bump_all (adds w) counts ∙ l))

-- The neighbours of a vertex.
abbrev pub neighbors_of : DirectedGraph → ℕ → List ℕ
neighbors_of g x = row_of g.offsets g.neighbors x

module _ (g : DirectedGraph) (u v owner : ℕ) (index : ChangedEdgeIndex) (most size : ℕ)
    (room : g.vertex_count ≤ size) where
  abbrev pub forbidden : ℕ → ℕ → Bool
  forbidden x y = forbidden_before index x y owner

  -- What the recursive call is to do at a new vertex.
  abbrev Explores :
      (ℕ → ℕ → Scan → Result Scan) → (ℕ → List ℕ → List (List ℕ)) → ℕ → List ℕ → Type 0
  Explores call deeper k path =
      (w : ℕ) (counts : List ℕ)
      → w < g.vertex_count
      → mem w path ≡ false
      → length counts ≡ suc most
      → call w (suc k) (scanning size (w ∷ path) counts)
        ≡ ok (scanning size (w ∷ path) (bump_all (deeper w (w ∷ path)) counts))

  closes_Scans :
      (path counts : List ℕ) (k : ℕ)
      → length path ≡ suc k
      → length counts ≡ suc most
      → (if leb 2 (suc k) && leb (suc k) most
          then (bump (suc k) counts >>= λ c. ok (scanning size path c))
          else ok (scanning size path counts))
        ≡ ok (
            scanning size path (
              bump_all
                (if leb 2 (length path) && leb (length path) most then path ∷ [] else [])
                counts))
  unfolding bump_all
  closes_Scans path counts k e l = elim (Bool-cases (leb 2 (suc k) && leb (suc k) most)) [
    | inl h ↦
        let low : suc k < length counts = ground (arith, h, l) in
        rw (e, h, bump-bumped (suc k) counts low)
          (ap (λ x. ok (scanning size path (bumped x counts))) (sym e))
    | inr h ↦ rw (e, h)
  ]

  call_returns :
      (call : ℕ → ℕ → Scan → Result Scan) (deeper : ℕ → List ℕ → List (List ℕ)) (k : ℕ)
      (path : List ℕ)
      → Explores call deeper k path
      → (w : ℕ) (counts : List ℕ) → w < g.vertex_count
      → mem w path ≡ false
      → length counts ≡ suc most
      → (call w
            (suc k)
            (record (scanning size path counts) { visited = set (marks size path) w true })
          >>= λ t. ok (record t { visited = set t.visited w false }))
        ≡ ok (scanning size path (bump_all (deeper w (w ∷ path)) counts))
  call_returns call deeper k path calls w counts lt new l =
      rw (set-marks size w path, calls w counts lt new l, unset-marks size w path new)

  mem_same : (w : ℕ) (path : List ℕ) → mem v path ≡ true → (w == v) ≡ true → mem w path ≡ true
  mem_same w path on e = let same : w ≡ v = ground (arith, e) in rw same on

  -- What the test of a neighbour answers: the anchored target is on the path.
  seen_lem :
      (w : ℕ) (path : List ℕ)
      → mem v path ≡ true
      → w < g.vertex_count
      → (if w == v then ok true else at (marks size path) w) ≡ ok (mem w path)
  seen_lem w path on lt = elim (Bool-cases (w == v)) [
    | inl same ↦ rw (same, mem_same w path on same)
    | inr other ↦ rw (other, get-marks size w path (omega (arith, room)))
  ]

  search_edge-Scans :
      (call : ℕ → ℕ → Scan → Result Scan) (deeper : ℕ → List ℕ → List (List ℕ)) (current k : ℕ)
      (path : List ℕ)
      → Explores call deeper k path
      → length path ≡ suc k
      → mem v path ≡ true
      → (w : ℕ) (counts : List ℕ) → w < g.vertex_count
      → length counts ≡ suc most
      → search_edge g u v owner index most call current k w (scanning size path counts)
        ≡ ok (
            scanning size path
              (bump_all (paths_via (neighbors_of g) forbidden u most deeper current path w) counts))
  unfolding search_edge bump_all
  search_edge-Scans call deeper current k path calls e on w counts lt l =
      elim (Bool-cases (forbidden current w)) [
        | inl taken ↦ rw taken
        | inr free ↦ rw free (elim (Bool-cases (w == u)) [
          | inl closes ↦ rw closes (closes_Scans path counts k e l)
          | inr goes_on ↦
              rw (goes_on, seen_lem w path on lt)
                (elim (Bool-cases (mem w path)) [
                  | inl seen ↦ rw seen
                  | inr new ↦
                      rw (new, e)
                        (elim (Bool-cases (ltb (suc k) most)) [
                          | inl short ↦
                              rw short (call_returns call deeper k path calls w counts lt new l)
                          | inr long ↦ rw long
                        ])
                ])
        ])
      ]

  module _ (csr : IsCsr g.vertex_count g.offsets g.neighbors)
      (closed : All (λ x. x < g.vertex_count) g.neighbors) where
    pub search-Scans :
        (fuel current k : ℕ) (path counts : List ℕ)
        → current < g.vertex_count
        → spare g.vertex_count path < fuel
        → length path ≡ suc k
        → mem v path ≡ true
        → length counts ≡ suc most
        → search g u v owner index most fuel current k (scanning size path counts)
          ≡ ok (
              scanning size path
                (bump_all (paths_from (neighbors_of g) forbidden u most fuel current path) counts))
    unfolding search paths_from
    search-Scans zero current k path counts lt f e on l = absurd (omega arith)
    search-Scans (suc fuel) current k path counts lt f e on l =
        let deeper = paths_from (neighbors_of g) forbidden u most fuel in
        let calls : Explores (search g u v owner index most fuel) deeper k path = λ w cs ltw new lc.
          search-Scans fuel w (suc k) (w ∷ path) cs ltw
            (omega (arith, spare-cons g.vertex_count w path ltw new)) (ap suc e)
            (ground (arith, on)) lc in
        let here : row_at g current ≡ ok (neighbors_of g current) =
          unfold row_at in row_lem csr current lt in
        rw here (
          for_each-Scans
            (search_edge g u v owner index most (search g u v owner index most fuel) current k)
            (paths_via (neighbors_of g) forbidden u most deeper current path) size path most
            (λ w. w < g.vertex_count)
            (λ w cs ltw lc.
              search_edge-Scans (search g u v owner index most fuel) deeper current k path calls e
                on w cs ltw lc)
            (neighbors_of g current) counts (row_of-All _ g.offsets g.neighbors current closed) l)
