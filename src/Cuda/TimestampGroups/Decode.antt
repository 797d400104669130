-- ===== src/Cuda/TimestampGroups/Decode.antt =====
-- The groups of an edge stand for its timestamps.
use cycle_enumeration_gpu.Prelude.{
  ℕ, zero, suc, ◌+◌, ◌-◌, ◌≤◌, ◌<◌, ◌≡◌, refl, sym, ap, ◌∙◌, true, false, List, [], ◌∷◌, ◌++◌,
  append_assoc, append-nil, ltb, length, replicate, map, range_from, get_elem?-eq-get_or, inl, inr,
  Bool-cases, arith, All, ok,
}
use cycle_enumeration_gpu.Prelude.Int.{ℤ, pos, eqb_ℤ, eq_of_parts}
use cycle_enumeration_gpu.Core.GraphView.{AdjacencyEntry}
use cycle_enumeration_gpu.Core.Timestamp.{value_at}
use cycle_enumeration_gpu.Cuda.TimestampGroups.{TimestampGroups, equal_run, group_loop, group_edge}

-- A group: a value, and how often it stands.
abbrev pub Group : Type 0
Group = ℤ × ℕ

-- What groups stand for.
abbrev pub ungroup : List Group → List ℤ
ungroup [] = []
ungroup ((v, c) ∷ gs) = replicate c v ++ ungroup gs

-- The `n` timestamps from an offset on.
abbrev pub slice : List ℤ → ℕ → ℕ → List ℤ
slice ts a n = map (value_at ts) (range_from a n)

abbrev pub timestamps_of : List ℤ → AdjacencyEntry → List ℤ
timestamps_of ts e = slice ts e.timestamp_begin (e.timestamp_end - e.timestamp_begin)

slice-add : (ts : List ℤ) (a n m : ℕ) → slice ts a (n + m) ≡ slice ts a n ++ slice ts (a + n) m
slice-add ts a zero m =
    let e : a + 0 ≡ a = omega arith in let e' : 0 + m ≡ m = omega arith in rw (e, e') refl
slice-add ts a (suc n) m =
    let e : suc n + m ≡ suc (n + m) = omega arith in
    let e' : a + suc n ≡ suc a + n = omega arith in
    rw (e, e') (ap (λ xs. value_at ts a ∷ xs) (slice-add ts (suc a) n m))

eqb_true : (a b : ℤ) → eqb_ℤ a b ≡ true → a ≡ b
eqb_true a b e = eq_of_parts a b (ground (arith, e))

eqb_refl : (a : ℤ) → eqb_ℤ a a ≡ true
eqb_refl a = ground arith

-- Values that differ from one group to the next, after a value `p` or from the first group on.
abbrev ApartFrom : ℤ → List Group → Type 0
ApartFrom p [] = Unit {0}
ApartFrom p ((v, c) ∷ gs) = (eqb_ℤ v p ≡ false) × ApartFrom v gs

abbrev pub Apart : List Group → Type 0
Apart [] = Unit {0}
Apart ((v, c) ∷ gs) = ApartFrom v gs

-- A row of groups for timestamps: it expands to them, no group is empty, and each is as large as it
-- can be.
pub record Groups (row : List Group) (stamps : List ℤ) : Type 0 where
  pub expands : ungroup row ≡ stamps
  pub positive : All (λ (v, c). 1 ≤ c) row
  pub apart : Apart row

module _ (ts : List ℤ) where
  equal_run_lem :
      (value : ℤ) (offset n : ℕ)
      → offset + n ≤ length ts
      → (c : ℕ) × (equal_run ts value offset n ≡ ok c)
        × (c ≤ n)
        × (slice ts offset c ≡ replicate c value)
        × (c < n → eqb_ℤ (value_at ts (offset + c)) value ≡ false)
  unfolding equal_run
  equal_run_lem value offset zero h = (0, refl, omega arith, refl, λ less. absurd (omega arith))
  equal_run_lem value offset (suc n) h =
      let found = get_elem?-eq-get_or ts offset (pos 0) (omega arith) in
      let (c, run, le, same, stop) = equal_run_lem value (suc offset) n (omega arith) in
      elim (Bool-cases (eqb_ℤ (value_at ts offset) value)) [
        | inl e ↦ (
          suc c,
          rw (found, e, run) refl,
          omega arith,
          ap (λ x. x ∷ slice ts (suc offset) c) (eqb_true (value_at ts offset) value e)
              ∙ ap (λ xs. value ∷ xs) same,
          λ less. ap (λ i. eqb_ℤ (value_at ts i) value) (omega arith) ∙ stop (omega arith),
        )
        | inr e ↦ (
          0,
          rw (found, e) refl,
          omega arith,
          refl,
          λ less. ap (λ i. eqb_ℤ (value_at ts i) value) (omega arith) ∙ e,
        )
      ]

  -- The run that begins with its own value is not empty.
  first_run_lem :
      (offset n : ℕ)
      → offset + suc n ≤ length ts
      → (c : ℕ) × (equal_run ts (value_at ts offset) offset (suc n) ≡ ok (suc c))
        × (c ≤ n)
        × (slice ts offset (suc c) ≡ replicate (suc c) (value_at ts offset))
        × (c < n → eqb_ℤ (value_at ts (offset + suc c)) (value_at ts offset) ≡ false)
  unfolding equal_run
  first_run_lem offset n h =
      let value = value_at ts offset in
      let found = get_elem?-eq-get_or ts offset (pos 0) (omega arith) in
      let (c, run, le, same, stop) = equal_run_lem value (suc offset) n (omega arith) in
      (
        c,
        rw (found, eqb_refl value, run) refl,
        le,
        ap (λ xs. value ∷ xs) same,
        λ less. ap (λ i. eqb_ℤ (value_at ts i) value) (omega arith) ∙ stop less,
      )

  -- A row of groups appended to those there are.
  abbrev pub with_row : TimestampGroups → List Group → TimestampGroups
  with_row groups row = record groups {
    group_values = groups.group_values ++ map (λ (g : Group). g.0) row;
    group_counts = groups.group_counts ++ map (λ (g : Group). g.1) row;
  }

  with_row-cons :
      (groups : TimestampGroups) (v : ℤ) (c : ℕ) (row : List Group)
      → with_row
          (record groups {
            group_values = groups.group_values ++ v ∷ [];
            group_counts = groups.group_counts ++ c ∷ [];
          })
          row
        ≡ with_row groups ((v, c) ∷ row)
  with_row-cons groups v c row =
      rw
        (
          append_assoc groups.group_values (v ∷ []) (map (λ (g : Group). g.0) row),
          append_assoc groups.group_counts (c ∷ []) (map (λ (g : Group). g.1) row),
        )
        refl

  -- A round of the loop, for what its inner loop counts.
  one_group :
      (fuel offset end c : ℕ) (groups : TimestampGroups)
      → offset < end
      → end ≤ length ts
      → equal_run ts (value_at ts offset) offset (end - offset) ≡ ok (suc c)
      → group_loop ts (suc fuel) offset end groups
        ≡ group_loop ts fuel (offset + suc c) end (record groups {
          group_values = groups.group_values ++ value_at ts offset ∷ [];
          group_counts = groups.group_counts ++ suc c ∷ [];
        })
  unfolding group_loop
  one_group fuel offset end c groups there l run =
      let go : ltb offset end ≡ true = ground arith in
      rw (go, get_elem?-eq-get_or ts offset (pos 0) (omega arith), run) refl

  group_expands :
      (offset end c : ℕ) (row : List Group)
      → offset + suc c ≤ end
      → slice ts offset (suc c) ≡ replicate (suc c) (value_at ts offset)
      → ungroup row ≡ slice ts (offset + suc c) (end - (offset + suc c))
      → ungroup ((value_at ts offset, suc c) ∷ row) ≡ slice ts offset (end - offset)
  group_expands offset end c row le same rest =
      let m = end - (offset + suc c) in
      let parts : end - offset ≡ suc c + m = omega arith in
      ap (λ xs. replicate (suc c) (value_at ts offset) ++ xs) rest
      ∙ ap (λ xs. xs ++ slice ts (offset + suc c) m) (sym same)
      ∙ sym (slice-add ts offset (suc c) m)
      ∙ ap (slice ts offset) (sym parts)

  nothing_left :
      (offset end : ℕ) (groups : TimestampGroups)
      → ltb offset end ≡ false
      → (row : List Group) × (ok groups ≡ ok (with_row groups row))
        × Groups row (slice ts offset (end - offset))
        × ((p : ℤ) → (offset < end → eqb_ℤ (value_at ts offset) p ≡ false) → ApartFrom p row)
  nothing_left offset end groups stop =
      let none : end - offset ≡ 0 = ground (arith, stop) in
      (
        [],
        rw (append-nil groups.group_values, append-nil groups.group_counts) refl,
        record { expands = ap (slice ts offset) (sym none); positive = tt; apart = tt },
        λ p differs. tt,
      )

  group_loop_lem :
      (fuel offset end : ℕ) (groups : TimestampGroups)
      → end ≤ length ts
      → end - offset ≤ fuel
      → (row : List Group) × (group_loop ts fuel offset end groups ≡ ok (with_row groups row))
        × Groups row (slice ts offset (end - offset))
        × ((p : ℤ) → (offset < end → eqb_ℤ (value_at ts offset) p ≡ false) → ApartFrom p row)
  unfolding group_loop
  group_loop_lem zero offset end groups l enough =
      let stop : ltb offset end ≡ false = ground arith in
      rw stop (nothing_left offset end groups stop)
  group_loop_lem (suc fuel) offset end groups l enough = elim (Bool-cases (ltb offset end)) [
    | inl go ↦
        let n = end - suc offset in
        let v = value_at ts offset in
        let there : offset < end = ground (arith, go) in
        let whole : end - offset ≡ suc n = omega arith in
        let (c, run, le, same, stop) = first_run_lem offset n (omega arith) in
        let grown : TimestampGroups = record groups {
          group_values = groups.group_values ++ v ∷ [];
          group_counts = groups.group_counts ++ suc c ∷ [];
        } in
        let (row, rest, good, from) =
          group_loop_lem fuel (offset + suc c) end grown l (omega arith) in
        let there' : offset + suc c ≤ end = omega arith in
        let apart : ApartFrom v row = from v (λ more. stop (omega arith)) in
        (
          (v, suc c) ∷ row,
          one_group fuel offset end c groups there (omega arith)
                (ap (equal_run ts v offset) whole ∙ run)
              ∙ rest
              ∙ ap ok (with_row-cons groups v (suc c) row),
          record {
            expands = group_expands offset end c row there' same good.expands;
            positive = (omega arith, good.positive);
            apart = apart;
          },
          λ p differs. (differs there, apart),
        )
    | inr stop ↦ rw stop (nothing_left offset end groups stop)
  ]

  -- The row of groups of an edge, and the offset behind it.
  pub group_edge_lem :
      (e : AdjacencyEntry) (groups : TimestampGroups)
      → e.timestamp_end ≤ length ts
      → (row : List Group) × (group_edge ts e groups
          ≡ ok (record (with_row groups row) {
            edge_group_offsets =
                groups.edge_group_offsets
                ++ length (groups.group_values ++ map (λ (g : Group). g.0) row) ∷ [];
          }))
        × Groups row (timestamps_of ts e)
  unfolding group_edge
  group_edge_lem e groups l =
      let (row, run, good, _) =
        group_loop_lem (e.timestamp_end - e.timestamp_begin) e.timestamp_begin e.timestamp_end
          groups l (omega arith) in
      (row, rw run refl, good)
