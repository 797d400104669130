-- ===== src/Sequential/TemporalReadTarjan/Agree.antt =====
-- The pruned search returns what the baseline returns.
use cycle_enumeration_gpu.Prelude.{
  ℕ, zero, suc, ◌<◌, ◌≡◌, refl, sym, ◌∙◌, Bool, false, List, [], ◌∷◌, Option, none, some,
  length-replicate, get_elem?, replicate, range, All-range, All, arith, inl, inr, Bool-cases,
  Result, ok, err, invalid_argument, ◌>>=◌, >>=_assoc, ◌>>◌, for_each, Result-cases,
}
use cycle_enumeration_gpu.Prelude.Int.{+ℤ_parts, ℤ, pos, ◌≤ℤ◌}
use cycle_enumeration_gpu.Core.Histogram.{CycleHistogram, no_cycles}
use cycle_enumeration_gpu.Core.GraphView.{GraphView}
use cycle_enumeration_gpu.Core.GraphView.Rows.{IsValid}
use cycle_enumeration_gpu.Core.Timestamp.{value_at, checked_window_end}
use cycle_enumeration_gpu.Cycles.Marks.{
  marks, set-marks, replicate-marks, spare-cons, spare-nil, spare_le,
}
use cycle_enumeration_gpu.Cycles.Runs.{for_each-Keeps, returned_histogram}
use cycle_enumeration_gpu.Sequential.CycleUnion.Search.{IsTimed}
use cycle_enumeration_gpu.Sequential.Closing.{Closing}
use cycle_enumeration_gpu.Sequential.Closing.Walks.{Remembers}
use cycle_enumeration_gpu.Sequential.Bruteforce.{validate_max_cycle_length}
use cycle_enumeration_gpu.Sequential.Bruteforce.TimeWindow.{validate_window_width}
use cycle_enumeration_gpu.Sequential.Bruteforce.Temporal.{count_temporal_cycles}
use cycle_enumeration_gpu.Sequential.Bruteforce.Temporal.Starts.{
  each_start-Keeps, does_start, does_root, count_temporal_cycles_lem,
}
use cycle_enumeration_gpu.Sequential.TemporalReadTarjan.{
  Worker, Counters, start, run_root, new_search, no_counters, count_temporal_cycles_read_tarjan,
}
use cycle_enumeration_gpu.Sequential.TemporalReadTarjan.Runs.{extend-Adds}
use cycle_enumeration_gpu.Sequential.CycleUnion.Correct.{AllTimed}
use cycle_enumeration_gpu.Core.Timestamp.{max_timestamp}
use cycle_enumeration_gpu.Prelude.Int.{ltb_ℤ}
use cycle_enumeration_gpu.Core.Timestamp.Window.{FitsWindow, checked_window_end_returns}

get-replicate : {A : Type 0} (n v : ℕ) (a b : A) → get_elem? (replicate n a) v ≡ some b → b ≡ a
get-replicate zero v a b e = absurd (cc e)
get-replicate (suc n) zero a b e = cc e
get-replicate (suc n) (suc v) a b e = get-replicate n v a b e

-- Where nothing is closed, nothing is promised.
pub open-Remembers :
    (g : GraphView) (root : ℕ) (last : ℤ) → Remembers g root last (replicate g.vertex_count none)
open-Remembers g root last = record {
  size = length-replicate g.vertex_count none;
  closed = λ v t e walk. cc (get-replicate g.vertex_count v none (some t) e);
}

-- What is left of a search between two starts, besides the histogram.
pub record Left (Work : Type 0) : Type 0 where
  pub flags : List Bool
  pub path : List ℕ
  pub closing : Closing
  pub work : Work

abbrev pub between : {Work : Type 0} → CycleHistogram → Left Work → Worker Work
between h c = record {
  search = record { histogram = h; visited = c.flags; path = c.path };
  closing_after = c.closing;
  work = c.work;
}

abbrev pub AnyLeft : {Work : Type 0} → Left Work → Type 0
AnyLeft c = Unit {0}

module _ {Work : Type 0} (counters : Counters Work) (g : GraphView) (width : ℤ) (limit : Option ℕ)
    (valid : IsValid g) (timed : All (IsTimed g.timestamps) g.outgoing_edges) where
  start-Keeps :
      (root first i : ℕ) (h : CycleHistogram) (c : Left Work)
      → root < g.vertex_count
      → first < g.vertex_count
      → let time = value_at g.timestamps i in
        (c' : Left Work) × AnyLeft c'
        × (start counters g width limit root first time (between h c)
            ≡ (does_start g width limit root first time h >>= λ h'. ok (between h' c')))
  unfolding start
  start-Keeps root first i h c lt ltf =
      let n = g.vertex_count in
      let time = value_at g.timestamps i in
      elim (Result-cases (checked_window_end time width)) [
        | inl (last, e) ↦
            let (c', k', run) =
              extend-Adds counters g width limit root last valid timed n first time
                (first ∷ root ∷ []) h (replicate n none, c.work) ltf
                (omega
                  (arith, spare_le n first (root ∷ []), spare-cons n root [] lt refl, spare-nil n))
                (open-Remembers g root last) in
            (
              record {
                flags = marks n (first ∷ root ∷ []);
                path = first ∷ root ∷ [];
                closing = c'.0;
                work = c'.1;
              },
              tt,
              rw (e, replicate-marks n, set-marks n root [], set-marks n first (root ∷ [])) run,
            )
        | inr (x, e) ↦ (c, tt, rw e refl)
      ]

  pub run_roots-Keeps :
      (roots : List ℕ) (h : CycleHistogram) (c : Left Work)
      → All (λ v. v < g.vertex_count) roots
      → (c' : Left Work) × AnyLeft c'
        × (for_each (run_root counters g width limit) roots (between h c)
            ≡ (for_each (does_root g width limit) roots h >>= λ h'. ok (between h' c')))
  unfolding run_root
  run_roots-Keeps roots h c low =
      for_each-Keeps (run_root counters g width limit) (does_root g width limit) between AnyLeft
        (λ v. v < g.vertex_count)
        (λ root h' c' lt k.
          each_start-Keeps g (start counters g width limit root) (does_start g width limit root)
            between AnyLeft root valid timed lt
            (λ first i h'' c'' ltf inside k'. start-Keeps root first i h'' c'' lt ltf) h' c' tt)
        roots h c low tt

pub zero_window : (width : ℤ) → pos 0 ≤ℤ width → width ≤ℤ max_timestamp → FitsWindow (pos 0) width
zero_window width positive fits = (positive, omega (arith, +ℤ_parts (pos 0) width))

-- The check of the width in the constructor refuses what the check of the baseline refuses.
pub width_checks_agree :
    {A : Type 0} (width : ℤ) (rest : Result A)
    → width ≤ℤ max_timestamp
    → (checked_window_end (pos 0) width >>= λ checked. rest) ≡ (validate_window_width width >> rest)
width_checks_agree width rest fits = elim (Bool-cases (ltb_ℤ width (pos 0))) [
  | inl negative ↦
      let refused : checked_window_end (pos 0) width ≡ err invalid_argument =
        unfold checked_window_end in rw negative refl in
      rw (refused, negative) refl
  | inr positive ↦
      rw
        (
          checked_window_end_returns (pos 0) width
              (zero_window width (ground (arith, positive)) fits),
          positive,
        )
        refl
]

-- The state of a search that has been constructed.
abbrev pub unsearched : {Work : Type 0} → GraphView → Work → Left Work
unsearched g work = record {
  flags = replicate g.vertex_count false;
  path = [];
  closing = [];
  work = work;
}

pub then-new_search :
    {Work A : Type 0} (counters : Counters Work) (g : GraphView) (width : ℤ) (limit : Option ℕ)
    (work : Work) (rest : Worker Work → Result A)
    → width ≤ℤ max_timestamp
    → (new_search counters g width limit work >>= rest) ≡ (
        validate_max_cycle_length limit
        >> (validate_window_width width >> rest (between no_cycles (unsearched g work))))
unfolding new_search
then-new_search counters g width limit work rest fits =
    let s = between no_cycles (unsearched g work) in
    elim (Result-cases (validate_max_cycle_length limit)) [
      | inl (u, e) ↦ rw e (
          >>=_assoc (checked_window_end (pos 0) width) (λ checked. ok s) rest
          ∙ width_checks_agree width (rest s) fits)
      | inr (x, e) ↦ rw e refl
    ]

-- On a valid view with sorted timestamps, for a width of 64 bits, the temporal Read-Tarjan search
-- returns what the baseline returns: the same histogram or the same error. The branches that it
-- prunes hold no temporal cycle.
pub count_temporal_cycles_read_tarjan_agrees :
    (g : GraphView) (width : ℤ) (limit : Option ℕ)
    → IsValid g
    → AllTimed g
    → width ≤ℤ max_timestamp
    → count_temporal_cycles_read_tarjan g width limit ≡ count_temporal_cycles g width limit
unfolding count_temporal_cycles_read_tarjan
count_temporal_cycles_read_tarjan_agrees g width limit valid timed fits =
    let n = g.vertex_count in
    let (c, _, run) =
      run_roots-Keeps no_counters g width limit valid timed.0 (range n) no_cycles (unsearched g tt)
        (All-range n) in
    rw
      (
        then-new_search no_counters g width limit tt
            (λ s. for_each (run_root no_counters g width limit) (range n) s >>= λ t.
              ok t.search.histogram)
            fits,
        run,
        returned_histogram (for_each (does_root g width limit) (range n) no_cycles)
            (λ h. between h c) (λ (t : Worker (Unit {0})). t.search.histogram) (λ h. refl),
      )
      (sym (count_temporal_cycles_lem g width limit valid timed.0))
