-- ===== src/Core/Histogram/Laws.antt =====
-- Laws of the histogram: its invariant, what each operation does to the counts, and that the
-- counts determine it.
use cycle_enumeration_gpu.Prelude.{
  ℕ, zero, suc, ◌+◌, ◌≤◌, ◌<◌, ◌≡◌, refl, ap, true, [], ◌∷◌, ◌++◌, ◌==◌, if◌then◌else◌, ok, err,
  ◌>>=◌, for_each, All, arith, inl, inr, ◌>>◌, leb, ◌↔◌, Result-cases, >>=-ok, for_each-append,
  overflow_error,
}
use cycle_enumeration_gpu.Core.Histogram.{
  max_count, Entries, CycleHistogram, no_cycles, find_count, put, increment, increment_all, merge,
  count, total, ensure_addition_safe, same_entries,
}

-- The keys ascend from `lo` on, and each count is positive and fits in 64 bits.
abbrev pub Ascends : ℕ → Entries → Type 0
Ascends lo [] = Unit {0}
Ascends lo ((k, c) ∷ m) = (lo ≤ k) × (0 < c) × (c ≤ max_count) × Ascends (suc k) m

-- What every histogram of the program satisfies: ordered lengths from 2 on, positive counts.
abbrev pub IsValid : CycleHistogram → Type 0
IsValid h = Ascends 2 h.entries

Ascends-weaken : (lo lo' : ℕ) (m : Entries) → lo ≤ lo' → Ascends lo' m → Ascends lo m
Ascends-weaken lo lo' [] h a = tt
Ascends-weaken lo lo' ((k, c) ∷ m) h a = (omega arith, a.1, a.2, a.3)

put-Ascends :
    (lo k v : ℕ) (m : Entries)
    → lo ≤ k
    → 0 < v
    → v ≤ max_count
    → Ascends lo m
    → Ascends lo (put k v m)
put-Ascends lo k v [] h p q a = (h, p, q, tt)
put-Ascends lo k v ((j, w) ∷ m) h p q a = ground (arith, put-Ascends (suc j) k v m)

find_count-put :
    (j k v : ℕ) (m : Entries) → find_count j (put k v m) ≡ (if j == k then v else find_count j m)
find_count-put j k v [] = refl
find_count-put j k v ((i, w) ∷ m) = ground (arith, find_count-put j k v m)

find_count-below : (j lo : ℕ) (m : Entries) → j < lo → Ascends lo m → find_count j m ≡ 0
find_count-below j lo [] h a = refl
find_count-below j lo ((k, c) ∷ m) h a = ground (arith, find_count-below j (suc k) m)

find_count-le : (j lo : ℕ) (m : Entries) → Ascends lo m → find_count j m ≤ max_count
find_count-le j lo [] a = omega arith
find_count-le j lo ((k, c) ∷ m) a = ground (arith, find_count-le j (suc k) m)

-- Adding to a length keeps the histogram ordered and its counts positive and within 64 bits.
pub increment-IsValid :
    (k c : ℕ) (h h' : CycleHistogram) → IsValid h → increment k c h ≡ ok h' → IsValid h'
unfolding increment
increment-IsValid k c h h' v e =
    ground (arith, put-Ascends 2 k (find_count k h.entries + c) h.entries)

-- `increment` adds the count to its own length and leaves every other length alone.
pub count-increment :
    (k c : ℕ) (h h' : CycleHistogram) (j : ℕ)
    → increment k c h ≡ ok h'
    → count h' j ≡ count h j + (if j == k then c else 0)
unfolding increment count
count-increment k c h h' j e =
    ground (arith, find_count-put j k (find_count k h.entries + c) h.entries)

-- `increment` succeeds when the length is at least 2 and the new count fits in 64 bits.
pub increment_returns :
    (k c : ℕ) (h : CycleHistogram)
    → 2 ≤ k
    → count h k + c ≤ max_count
    → (h' : CycleHistogram) × (increment k c h ≡ ok h')
unfolding increment count
increment_returns k zero h p q = (h, ground arith)
increment_returns k (suc c) h p q =
    (record { entries = put k (find_count k h.entries + suc c) h.entries }, ground arith)

pub count-no_cycles : (k : ℕ) → count no_cycles k ≡ 0
unfolding count
count-no_cycles k = refl

-- What a sequence of increments adds to the length `j`.
abbrev pub weight : ℕ → Entries → ℕ
weight j [] = 0
weight j ((k, c) ∷ ls) = (if j == k then c else 0) + weight j ls

pub weight-append : (j : ℕ) (xs ys : Entries) → weight j (xs ++ ys) ≡ weight j xs + weight j ys
weight-append j [] ys = omega arith
weight-append j ((k, c) ∷ xs) ys = omega (arith, weight-append j xs ys)

pub increment_all-nil : (h : CycleHistogram) → increment_all [] h ≡ ok h
unfolding increment_all
increment_all-nil h = refl

pub increment_all-one :
    (k c : ℕ) (h : CycleHistogram) → increment_all ((k, c) ∷ []) h ≡ increment k c h
unfolding increment_all
increment_all-one k c h = >>=-ok (increment k c h)

pub increment_all-append :
    (xs ys : Entries) (h : CycleHistogram)
    → increment_all (xs ++ ys) h ≡ (increment_all xs h >>= increment_all ys)
unfolding increment_all
increment_all-append xs ys h = for_each-append _ xs ys h

pub increment_all-IsValid :
    (ls : Entries) (h h' : CycleHistogram) → IsValid h → increment_all ls h ≡ ok h' → IsValid h'
unfolding increment_all
increment_all-IsValid [] h h' v e = ground arith
increment_all-IsValid ((k, c) ∷ ls) h h' v e = elim (Result-cases (increment k c h)) [
  | inl (t, et) ↦ increment_all-IsValid ls t h' (increment-IsValid k c h t v et) (rw et at e)
  | inr (x, ex) ↦ cc (rw ex at e)
]

-- A sequence of increments adds to each length the sum of its counts.
pub count-increment_all :
    (ls : Entries) (h h' : CycleHistogram) (j : ℕ)
    → increment_all ls h ≡ ok h'
    → count h' j ≡ count h j + weight j ls
unfolding increment_all
count-increment_all [] h h' j e = ground arith
count-increment_all ((k, c) ∷ ls) h h' j e = elim (Result-cases (increment k c h)) [
  | inl (t, et) ↦
      omega (arith, count-increment_all ls t h' j (rw et at e), count-increment k c h t j et)
  | inr (x, ex) ↦ cc (rw ex at e)
]

-- It succeeds when every length is at least 2 and every final count fits in 64 bits.
pub increment_all_returns :
    (ls : Entries) (h : CycleHistogram)
    → All (λ (k, c). 2 ≤ k) ls
    → ((j : ℕ) → count h j + weight j ls ≤ max_count)
    → (h' : CycleHistogram) × (increment_all ls h ≡ ok h')
unfolding increment_all
increment_all_returns [] h a fits = (h, refl)
increment_all_returns ((k, c) ∷ ls) h a fits =
    let (t, et) = increment_returns k c h a.0 (ground (arith, fits k)) in
    let (h', e) =
      increment_all_returns ls t a.1 (λ j. omega (arith, fits j, count-increment k c h t j et)) in
    (h', rw et e)

same_counts :
    (lo : ℕ) (m n : Entries)
    → Ascends lo m
    → Ascends lo n
    → ((j : ℕ) → find_count j m ≡ find_count j n)
    → m ≡ n
same_counts lo [] [] a b f = refl
same_counts lo [] ((k, c) ∷ n) a b f = absurd (ground (arith, f k))
same_counts lo ((k, c) ∷ m) [] a b f = absurd (ground (arith, f k))
same_counts lo ((k, c) ∷ m) ((j, d) ∷ n) a b f =
    let below_n = find_count-below k (suc j) n in
    let below_m = find_count-below j (suc k) m in
    let keys : k ≡ j = ground (arith, f k, f j, below_n, below_m) in
    let values : c ≡ d = ground (arith, f k, keys) in
    let same = same_counts (suc k) m n a.3 (rw keys b.3) (λ i. rest i keys) in
    ground (arith, keys, values, same)
  where
    rest : (i : ℕ) → k ≡ j → find_count i m ≡ find_count i n
    rest i e = ground (arith, f i, e, find_count-below i (suc k) m, find_count-below i (suc j) n)

-- Two valid histograms with the same count at every length are equal.
pub eq_of_counts :
    (h h' : CycleHistogram) → IsValid h → IsValid h' → ((j : ℕ) → count h j ≡ count h' j) → h ≡ h'
unfolding count
eq_of_counts h h' v v' f =
    ap {A = Entries} {B = CycleHistogram} (λ m. record { entries = m })
      (same_counts 2 h.entries h'.entries v v' f)

-- Whether two histograms are equal by the test of the source is whether they are equal.
pub same_entries_iff : (m n : Entries) → (same_entries m n ≡ true) ↔ (m ≡ n)
unfolding same_entries
same_entries_iff [] [] = (λ _. refl, λ _. refl)
same_entries_iff [] (x ∷ n) = (λ h. cc, λ h. cc)
same_entries_iff (x ∷ m) [] = (λ h. cc, λ h. cc)
same_entries_iff ((j, v) ∷ m) ((k, w) ∷ n) = ground (arith, same_entries_iff m n)

-- The source's test of equality holds of two valid histograms exactly if they count the same at every
-- length.
pub same_entries_counts :
    (h h' : CycleHistogram)
    → IsValid h
    → IsValid h'
    → (same_entries h.entries h'.entries ≡ true) ↔ ((j : ℕ) → count h j ≡ count h' j)
same_entries_counts h h' v v' = (
  λ e j.
      ap {A = Entries} {B = ℕ} (λ m. count (record { entries = m }) j)
        ((same_entries_iff h.entries h'.entries).0 e),
  λ f.
      (same_entries_iff h.entries h'.entries).1
        (ap (λ (k : CycleHistogram). k.entries) (eq_of_counts h h' v v' f)),
)

abbrev pub sum_counts : Entries → ℕ
sum_counts [] = 0
sum_counts ((k, c) ∷ m) = c + sum_counts m

add_totals :
    (m : Entries) (sum : ℕ)
    → sum ≤ max_count
    → for_each (λ (k, c) s. ensure_addition_safe s c >> ok (s + c)) m sum
      ≡ (if leb (sum + sum_counts m) max_count then ok (sum + sum_counts m) else err overflow_error)
unfolding ensure_addition_safe
add_totals [] sum h = ground arith
add_totals ((k, c) ∷ m) sum h = ground (arith, add_totals m (sum + c))

-- `total` is the sum of the counts, and an overflow error exactly when that exceeds 64 bits.
pub total_lem :
    (h : CycleHistogram)
    → total h ≡ (
        if leb (sum_counts h.entries) max_count
        then ok (sum_counts h.entries)
        else err overflow_error)
unfolding total
total_lem h = ground (arith, add_totals h.entries 0)

-- The entries of a valid histogram, taken as increments, add its counts.
entries-weight : (lo j : ℕ) (m : Entries) → Ascends lo m → weight j m ≡ find_count j m
entries-weight lo j [] a = refl
entries-weight lo j ((k, c) ∷ m) a =
    ground (arith, entries-weight (suc k) j m, find_count-below j (suc k) m)

pub weight-entries : (j : ℕ) (h : CycleHistogram) → IsValid h → weight j h.entries ≡ count h j
unfolding count
weight-entries j h v = entries-weight 2 j h.entries v

pub count-le : (j : ℕ) (h : CycleHistogram) → IsValid h → count h j ≤ max_count
unfolding count
count-le j h v = find_count-le j 2 h.entries v

increment-length : (k c : ℕ) (h h' : CycleHistogram) → increment k c h ≡ ok h' → 2 ≤ k
unfolding increment
increment-length k c h h' e = ground arith

-- Increments that succeed are of lengths from 2 on.
pub increment_all-lengths :
    (ls : Entries) (h h' : CycleHistogram) → increment_all ls h ≡ ok h' → All (λ (k, c). 2 ≤ k) ls
unfolding increment_all
increment_all-lengths [] h h' e = tt
increment_all-lengths ((k, c) ∷ ls) h h' e = elim (Result-cases (increment k c h)) [
  | inl (t, et) ↦ (increment-length k c h t et, increment_all-lengths ls t h' (rw et at e))
  | inr (x, ex) ↦ cc (rw ex at e)
]

keys-ge : (lo : ℕ) (m : Entries) → 2 ≤ lo → Ascends lo m → All (λ (k, c). 2 ≤ k) m
keys-ge lo [] h a = tt
keys-ge lo ((k, c) ∷ m) h a = (omega arith, keys-ge (suc k) m (omega arith) a.3)

-- `merge` succeeds when the sums fit in 64 bits, and adds the counts of the other histogram.
pub merge_returns :
    (h other : CycleHistogram)
    → IsValid h
    → IsValid other
    → ((j : ℕ) → count h j + count other j ≤ max_count)
    → (h' : CycleHistogram) × (merge h other ≡ ok h')
      × IsValid h'
      × ((j : ℕ) → count h' j ≡ count h j + count other j)
unfolding merge
merge_returns h other v w fits =
    let (h', e) =
      increment_all_returns other.entries h (keys-ge 2 other.entries (omega arith) w)
        (λ j. omega (arith, fits j, weight-entries j other w)) in
    (
      h',
      e,
      increment_all-IsValid other.entries h h' v e,
      λ j. omega (arith, count-increment_all other.entries h h' j e, weight-entries j other w),
    )
