-- ===== src/Dynamic/Update/Delta.antt =====
-- What adding signed differences does to a histogram.
use cycle_enumeration_gpu.Prelude.{
  ℕ, zero, suc, ◌+◌, ◌-◌, ◌%◌, ◌<◌, ◌≤◌, ◌≡◌, refl, sym, ap, subst, ◌∙◌, Bool, true, false, ◌&&◌,
  inl, inr, Bool-cases, List, [], ◌∷◌, leb, ltb, ◌==◌, if◌then◌else◌, length, range_from, min,
  get_or, arith, Result, ok, at, for_each, Result-cases,
}
use native.Mathlib.Nat.{mod-eq_of_lt}
use cycle_enumeration_gpu.Prelude.Int.{ℤ, pos, negsuc, ◌+ℤ◌}
use cycle_enumeration_gpu.Core.Histogram.{CycleHistogram, Entries, no_cycles, count}
use cycle_enumeration_gpu.Core.Histogram.Laws.{
  Ascends, IsValid, count-increment, increment-IsValid, count-no_cycles, weight, weight-entries,
  count-le,
}
use cycle_enumeration_gpu.Dynamic.Update.{
  Totals, word, totals_of, add_total, add_difference, settle, apply_histogram_delta,
}
use cycle_enumeration_gpu.Dynamic.Update.Words.{
  word-zero, word-pos, word-+ll, word-+ℤ, word-to_long_long,
}

-- The sum of the totals at the length `j`, as words.
sum_at : ℕ → Totals → ℕ
sum_at j [] = 0
sum_at j ((k, t) ∷ m) = (if j == k then word t else 0) + sum_at j m

add_total_lem :
    (k : ℕ) (d : ℤ) (m : Totals) (j : ℕ)
    → sum_at j (add_total k d m) % 18446744073709551616
      ≡ (sum_at j m + (if j == k then word d else 0)) % 18446744073709551616
unfolding add_total sum_at
add_total_lem k d [] j = ap (λ n. n % 18446744073709551616) (omega arith)
add_total_lem k d ((i, t) ∷ m) j =
    let rest = add_total_lem k d m j in
    elim (Bool-cases (ltb k i)) [
      | inl lo ↦ rw lo (ap (λ n. n % 18446744073709551616) (omega arith))
      | inr hi ↦ elim (Bool-cases (k == i)) [
        | inl same ↦
            let e : k ≡ i = ground (arith, same) in
            rw (hi, same) (rw e (ground (arith, word-+ll t d)))
        | inr other ↦ rw (hi, other) (ground (arith, rest))
      ]
    ]

-- The difference at a length.
abbrev pub difference : List ℤ → ℕ → ℤ
difference delta k = get_or delta k (pos 0)

get_or-at : (xs : List ℤ) (i : ℕ) (d : ℤ) → at xs i ≡ ok d → get_or xs i (pos 0) ≡ d
get_or-at [] i d e = cc
get_or-at (x ∷ xs) zero d e = cc
get_or-at (x ∷ xs) (suc i) d e = get_or-at xs i d e

-- The totals with one difference, which the source leaves out where it is zero.
with_difference : ℕ → ℤ → Totals → Totals
with_difference k d m = elim d [
  | pos n ↦ if n == 0 then m else add_total (k % 4294967296) (pos n) m
  | negsuc n ↦ add_total (k % 4294967296) (negsuc n) m
]

with_difference_lem :
    (k : ℕ) (d : ℤ) (m : Totals) (j : ℕ)
    → k < 4294967296
    → sum_at j (with_difference k d m) % 18446744073709551616
      ≡ (sum_at j m + (if j == k then word d else 0)) % 18446744073709551616
unfolding with_difference
with_difference_lem k (pos n) m j lt =
    let same : k % 4294967296 ≡ k = mod-eq_of_lt lt in
    elim (Bool-cases (n == 0)) [
      | inl none ↦
          let z : n ≡ 0 = ground (arith, none) in rw none (rw z (ground (arith, word-zero)))
      | inr some_ ↦ rw (some_, same) (add_total_lem k (pos n) m j)
    ]
with_difference_lem k (negsuc n) m j lt =
    let same : k % 4294967296 ≡ k = mod-eq_of_lt lt in rw same (add_total_lem k (negsuc n) m j)

add_difference_lem :
    (delta : List ℤ) (k : ℕ) (m m' : Totals) (j : ℕ)
    → k < 4294967296
    → add_difference delta k m ≡ ok m'
    → sum_at j m' % 18446744073709551616
      ≡ (sum_at j m + (if j == k then word (difference delta k) else 0)) % 18446744073709551616
unfolding add_difference with_difference
add_difference_lem delta k m m' j lt e = elim (Result-cases (at delta k)) [
  | inl (d, ed) ↦
      let same : with_difference k d m ≡ m' = cc (rw ed at e) in
      rw (get_or-at delta k d ed, sym same) (with_difference_lem k d m j lt)
  | inr (x, ex) ↦ cc (rw ex at e)
]

add_differences :
    (delta : List ℤ) (a n : ℕ) (m m' : Totals) (j : ℕ)
    → a + n ≤ 4294967296
    → for_each (add_difference delta) (range_from a n) m ≡ ok m'
    → sum_at j m' % 18446744073709551616
      ≡ (sum_at j m + (if leb a j && ltb j (a + n) then word (difference delta j) else 0))
        % 18446744073709551616
add_differences delta a zero m m' j low e =
    let same : m ≡ m' = cc in
    let none : (leb a j && ltb j (a + 0)) ≡ false = ground arith in
    rw (sym same, none) (ap (λ n. n % 18446744073709551616) (omega arith))
add_differences delta a (suc n) m m' j low e = elim (Result-cases (add_difference delta a m)) [
  | inl (t, et) ↦
      let one = add_difference_lem delta a m t j (omega arith) et in
      let rest = add_differences delta (suc a) n t m' j (omega arith) (rw et at e) in
      elim (Bool-cases (j == a)) [
        | inl p ↦
            let j≡a : j ≡ a = ground (arith, p) in
            let d : word (difference delta j) ≡ word (difference delta a) =
              ap (λ k. word (difference delta k)) j≡a in
            ground (arith, one, rest, p, j≡a, d)
        | inr p ↦ ground (arith, one, rest, p)
      ]
  | inr (x, ex) ↦ cc (rw ex at e)
]

take_else : (b : Bool) (x y : Result CycleHistogram) → b ≡ false → (if b then x else y) ≡ y
take_else b x y z = rw z

settle_lem :
    (k : ℕ) (t : ℤ) (h h' : CycleHistogram) (j : ℕ)
    → settle (k, t) h ≡ ok h'
    → count h' j % 18446744073709551616
      ≡ (count h j + (if j == k then word t else 0)) % 18446744073709551616
unfolding settle
settle_lem k (pos n) h h' j e =
    let bits = word-pos n in
    elim (Bool-cases (n == 0)) [
      | inl z ↦ let same : h ≡ h' = cc (rw z at e) in rw (sym same) (ground (arith, z, bits))
      | inr z ↦
          let adds = count-increment k n h h' j (sym (take_else _ _ _ z) ∙ e) in
          ground (arith, adds, bits)
    ]
settle_lem k (negsuc n) h h' j e = cc

settle_IsValid :
    (k : ℕ) (t : ℤ) (h h' : CycleHistogram) → IsValid h → settle (k, t) h ≡ ok h' → IsValid h'
unfolding settle
settle_IsValid k (pos n) h h' v e = elim (Bool-cases (n == 0)) [
  | inl z ↦ let same : h ≡ h' = cc (rw z at e) in subst IsValid same v
  | inr z ↦ increment-IsValid k n h h' v (sym (take_else _ _ _ z) ∙ e)
]
settle_IsValid k (negsuc n) h h' v e = cc

settle_all :
    (m : Totals) (h h' : CycleHistogram) (j : ℕ)
    → IsValid h
    → for_each settle m h ≡ ok h'
    → (count h' j % 18446744073709551616 ≡ (count h j + sum_at j m) % 18446744073709551616)
      × IsValid h'
unfolding sum_at
settle_all [] h h' j v e =
    let same : h ≡ h' = cc in
    (rw (sym same) (ap (λ n. n % 18446744073709551616) (omega arith)), subst IsValid same v)
settle_all ((k, t) ∷ m) h h' j v e = elim (Result-cases (settle (k, t) h)) [
  | inl (u, eu) ↦
      let one = settle_lem k t h u j eu in
      let rest = settle_all m u h' j (settle_IsValid k t h u v eu) (rw eu at e) in
      (ground (arith, one, rest.0), rest.1)
  | inr (x, ex) ↦ cc (rw ex at e)
]

totals_of_lem : (lo : ℕ) (m : Entries) (j : ℕ) → Ascends lo m → sum_at j (totals_of m) ≡ weight j m
unfolding sum_at totals_of
totals_of_lem lo [] j a = refl
totals_of_lem lo ((k, c) ∷ m) j a =
    let fits : c < 18446744073709551616 = omega (arith, a.2) in
    let rest = totals_of_lem (suc k) m j a.3 in
    let bits = word-to_long_long c fits in cc (bits, rest)

word-if : (b : Bool) (x : ℤ) → word (if b then x else pos 0) ≡ (if b then word x else 0)
word-if true x = refl
word-if false x = word-zero

-- The difference that is applied at a length: none below 2, above the limit or beyond the vector.
abbrev pub applied : List ℤ → ℕ → ℕ → ℤ
applied delta most j =
    if leb 2 j && leb j most && ltb j (length delta) then difference delta j else pos 0

-- Where the differences, at most 2^32 of them, applied to a valid histogram return a histogram, its
-- count at every length is, as 64 bits, the count before plus the difference applied at that length.
pub count-apply_histogram_delta :
    (base : CycleHistogram) (delta : List ℤ) (most : ℕ) (h : CycleHistogram)
    → IsValid base
    → length delta ≤ 4294967296
    → apply_histogram_delta base delta most ≡ ok h
    → (j : ℕ) → count h j ≡ word (pos (count base j) +ℤ applied delta most j)
unfolding apply_histogram_delta
count-apply_histogram_delta base delta most h v low e j =
    let k = min most (length delta - 1) - 1 in
    elim (Result-cases
      (for_each (add_difference delta) (range_from 2 k) (totals_of base.entries))) [
        | inl (m, em) ↦
            let before = totals_of_lem 2 base.entries j v ∙ weight-entries j base v in
            let added = add_differences delta 2 k (totals_of base.entries) m j (omega arith) em in
            let settled = settle_all m no_cycles h j tt (rw em at e) in
            let range : (leb 2 j && leb j most && ltb j (length delta))
                ≡ (leb 2 j && ltb j (2 + k)) =
              ground arith in
            let x = applied delta most j in
            let bits : word x
                ≡ (if leb 2 j && ltb j (2 + k) then word (difference delta j) else 0) =
              rw range (word-if (leb 2 j && ltb j (2 + k)) (difference delta j)) in
            let most_ = count-le j h settled.1 in
            omega (
              arith,
              bits,
              before,
              added,
              settled.0,
              count-no_cycles j,
              most_,
              word-+ℤ (pos (count base j)) x,
              word-pos (count base j),
            )
        | inr (x, ex) ↦ cc (rw ex at e)
      ]
