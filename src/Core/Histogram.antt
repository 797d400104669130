-- ===== src/Core/Histogram.antt =====
-- The histogram of cycle lengths (src/core/histogram.cpp). The ordered map is an association list
-- with its keys in ascending order. A method that can throw returns a `Result`; the state that an
-- exception leaves behind is not modelled, since every caller lets it escape.
pub mod Laws
use cycle_enumeration_gpu.Prelude.{
  ℕ, zero, suc, ◌+◌, ◌-◌, ◌^◌, Bool, true, false, ◌&&◌, List, [], ◌∷◌, ltb, ◌==◌, if◌then◌else◌,
  Result, ok, err, ◌>>=◌, ◌>>◌, throw_if, for_each, invalid_argument, overflow_error,
}

-- std::numeric_limits<Count>::max()
abbrev pub max_count : ℕ
max_count = 18446744073709551615

abbrev pub Entries : Type 0
Entries = List (ℕ × ℕ)

pub record CycleHistogram : Type 0 where
  pub entries : Entries

-- A default-constructed histogram.
abbrev pub no_cycles : CycleHistogram
no_cycles = record { entries = [] }

-- `entries_.find(length)`, with 0 for a missing key.
abbrev pub find_count : ℕ → Entries → ℕ
find_count k [] = 0
find_count k ((j, w) ∷ m) = if k == j then w else find_count k m

-- `entries_[length] = v`
abbrev pub put : ℕ → ℕ → Entries → Entries
put k v [] = (k, v) ∷ []
put k v ((j, w) ∷ m) =
    if ltb k j then (k, v) ∷ (j, w) ∷ m else if k == j then (k, v) ∷ m else (j, w) ∷ put k v m

ensure_valid_length : ℕ → Result (Unit {0})
ensure_valid_length k = throw_if (ltb k 2) invalid_argument

ensure_addition_safe : ℕ → ℕ → Result (Unit {0})
ensure_addition_safe lhs rhs = throw_if (ltb (max_count - lhs) rhs) overflow_error

unfoldable pub increment : ℕ → ℕ → CycleHistogram → Result CycleHistogram
unfolding ensure_valid_length ensure_addition_safe
increment k c h = do
  ensure_valid_length k
  let current = find_count k h.entries
  if c == 0 then ok h else (do
    ensure_addition_safe current c
    ok (record { entries = put k (current + c) h.entries }))

-- `increment` over a sequence of lengths with their counts.
unfoldable pub increment_all : Entries → CycleHistogram → Result CycleHistogram
increment_all = for_each (λ (k, c). increment k c)

pub merge : CycleHistogram → CycleHistogram → Result CycleHistogram
unfolding increment_all
merge h other = increment_all other.entries h

unfoldable pub count : CycleHistogram → ℕ → ℕ
count h k = find_count k h.entries

unfoldable pub total : CycleHistogram → Result ℕ
unfolding ensure_addition_safe
total h = for_each (λ (k, c) sum. ensure_addition_safe sum c >> ok (sum + c)) h.entries 0

pub empty : CycleHistogram → Bool
empty h = elim h.entries [ [] ↦ true | _ ∷ _ ↦ false ]

pub clear : CycleHistogram → CycleHistogram
clear h = no_cycles

pub same_entries : Entries → Entries → Bool
same_entries [] [] = true
same_entries ((j, v) ∷ m) ((k, w) ∷ n) = j == k && v == w && same_entries m n
same_entries _ _ = false
