-- ===== src/Core/GraphView/Rows.antt =====
-- What a well-formed pair of offset and entry arrays is, and the row that a vertex has in it.
use cycle_enumeration_gpu.Prelude.{
  ℕ, zero, suc, ◌+◌, ◌-◌, ◌≤◌, ◌<◌, ◌≡◌, refl, ◌∙◌, List, [], ◌∷◌, ok, length, get_or, All, take,
  drop, arith, get_elem?-eq-get_or,
}
use cycle_enumeration_gpu.Core.GraphView.{AdjacencyEntry, GraphView, read_range, row}

-- One offset more than there are vertices, ascending, and none beyond the end of the entries.
pub record IsCsr {ℓ} {A : Type ℓ} (n : ℕ) (offsets : List ℕ) (entries : List A) : Type 0 where
  pub size : length offsets ≡ suc n
  pub ascending : (v : ℕ) → v < n → get_or offsets v 0 ≤ get_or offsets (suc v) 0
  pub inside : (v : ℕ) → v < n → get_or offsets (suc v) 0 ≤ length entries

-- The entries of a vertex.
unfoldable pub row_of {ℓ} : {A : Type ℓ} → List ℕ → List A → ℕ → List A
row_of offsets entries v =
    let begin = get_or offsets v 0 in take (get_or offsets (suc v) 0 - begin) (drop begin entries)

read_range-cons {ℓ} :
    {A : Type ℓ} (x : A) (xs : List A) (b n : ℕ) → read_range (x ∷ xs) (suc b) n ≡ read_range xs b n
unfolding read_range
read_range-cons x xs b zero = refl
read_range-cons x xs b (suc n) = rw (read_range-cons x xs (suc b) n)

read_range-zero {ℓ} : {A : Type ℓ} (xs : List A) (b : ℕ) → read_range xs b 0 ≡ ok []
unfolding read_range
read_range-zero xs b = refl

read_range-suc {ℓ} :
    {A : Type ℓ} (x : A) (xs ys : List A) (n : ℕ)
    → read_range xs 0 n ≡ ok ys
    → read_range (x ∷ xs) 0 (suc n) ≡ ok (x ∷ ys)
unfolding read_range
read_range-suc x xs ys n h = rw (read_range-cons x xs 0 n, h)

read_range_lem {ℓ} :
    {A : Type ℓ} (xs : List A) (b n : ℕ)
    → b + n ≤ length xs
    → read_range xs b n ≡ ok (take n (drop b xs))
read_range_lem xs b zero h = read_range-zero xs b
read_range_lem [] b (suc n) h = absurd (omega arith)
read_range_lem (x ∷ xs) zero (suc n) h =
    read_range-suc x xs (take n xs) n (read_range_lem xs 0 n (omega arith))
read_range_lem (x ∷ xs) (suc b) (suc n) h =
    read_range-cons x xs b (suc n) ∙ read_range_lem xs b (suc n) (omega arith)

pub row_lem {ℓ} :
    {A : Type ℓ} {n : ℕ} {offsets : List ℕ} {entries : List A}
    → IsCsr n offsets entries
    → (v : ℕ) → v < n
    → row offsets entries v ≡ ok (row_of offsets entries v)
unfolding row row_of
row_lem {offsets} {entries} c v h =
    let up = c.ascending v h in
    let top = c.inside v h in
    rw
      (
        get_elem?-eq-get_or offsets v 0 (omega (arith, c.size)),
        get_elem?-eq-get_or offsets (suc v) 0 (omega (arith, c.size)),
      )
      (read_range_lem entries _ _ (omega arith))

pub All-take {ℓ κ} :
    {A : Type ℓ} (P : A → Type κ) (n : ℕ) (xs : List A) → All P xs → All P (take n xs)
All-take P zero xs a = tt
All-take P (suc n) [] a = tt
All-take P (suc n) (x ∷ xs) a = (a.0, All-take P n xs a.1)

pub All-drop {ℓ κ} :
    {A : Type ℓ} (P : A → Type κ) (n : ℕ) (xs : List A) → All P xs → All P (drop n xs)
All-drop P zero xs a = a
All-drop P (suc n) [] a = tt
All-drop P (suc n) (x ∷ xs) a = All-drop P n xs a.1

pub row_of-All {ℓ κ} :
    {A : Type ℓ} (P : A → Type κ) (offsets : List ℕ) (entries : List A) (v : ℕ)
    → All P entries
    → All P (row_of offsets entries v)
unfolding row_of
row_of-All P offsets entries v a = All-take P _ _ (All-drop P _ entries a)

-- A view whose two pairs of arrays are well formed, with every neighbour a vertex.
pub record IsValid (g : GraphView) : Type 0 where
  pub outgoing : IsCsr g.vertex_count g.outgoing_offsets g.outgoing_edges
  pub incoming : IsCsr g.vertex_count g.incoming_offsets g.incoming_edges
  pub targets : All (λ (e : AdjacencyEntry). e.vertex < g.vertex_count) g.outgoing_edges
  pub sources : All (λ (e : AdjacencyEntry). e.vertex < g.vertex_count) g.incoming_edges

-- The entries out of a vertex.
abbrev pub outgoing_of : GraphView → ℕ → List AdjacencyEntry
outgoing_of g v = row_of g.outgoing_offsets g.outgoing_edges v

abbrev pub incoming_of : GraphView → ℕ → List AdjacencyEntry
incoming_of g v = row_of g.incoming_offsets g.incoming_edges v
