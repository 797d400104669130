-- ===== src/Core/Options.antt =====
-- The options of a counting run and their validation (src/core/options.cpp,
-- include/cycle_enum/core/options.hpp). A message of the source is a constructor of `OptionError`.
use cycle_enumeration_gpu.Prelude.{
  ℕ, ◌≤◌, ◌≡◌, refl, Bool, true, false, not, ◌&&◌, List, [], ◌∷◌, ◌++◌, Option, none, some, ltb,
  if◌then◌else◌, ◌↔◌, arith,
}
use cycle_enumeration_gpu.Prelude.Int.{ℤ, pos, ltb_ℤ, ◌≤ℤ◌, ◌<ℤ◌}

pub data CycleMode : Type 0 where
  simple simple_time_window temporal : CycleMode

pub data AlgorithmFamily : Type 0 where
  johnson read_tarjan brute_force : AlgorithmFamily

pub data ExecutionPolicy : Type 0 where
  sequential openmp cuda : ExecutionPolicy

pub record CycleEnumerationOptions : Type 0 where
  pub algorithm : AlgorithmFamily
  pub execution : ExecutionPolicy
  pub mode : CycleMode
  pub time_window : Option ℤ
  pub max_cycle_length : Option ℕ
  pub openmp_threads : ℤ
  pub cuda_device_id : ℤ
  pub use_cycle_union : Bool
  pub validate_results : Bool

pub data OptionError : Type 0 where
  window_required window_positive window_positive_when_provided : OptionError
  length_at_least_two threads_positive device_non_negative union_only_temporal : OptionError

abbrev pub default_options : CycleEnumerationOptions
default_options = record {
  algorithm = johnson;
  execution = sequential;
  mode = simple;
  time_window = none;
  max_cycle_length = none;
  openmp_threads = pos 1;
  cuda_device_id = pos 0;
  use_cycle_union = false;
  validate_results = false;
}

abbrev pub requires_time_window : CycleMode → Bool
requires_time_window simple = false
requires_time_window simple_time_window = true
requires_time_window temporal = true

abbrev pub is_temporal : CycleMode → Bool
is_temporal simple = false
is_temporal simple_time_window = false
is_temporal temporal = true

-- `if (test) { errors.emplace_back(e); }`
abbrev pub note_if : Bool → OptionError → List OptionError
note_if test e = if test then e ∷ [] else []

-- The tests of the window in a mode that requires one.
abbrev pub window_errors : Option ℤ → List OptionError
window_errors none = window_required ∷ []
window_errors (some w) = note_if (not (ltb_ℤ (pos 0) w)) window_positive

abbrev pub not_positive : Option ℤ → Bool
not_positive none = false
not_positive (some w) = not (ltb_ℤ (pos 0) w)

abbrev pub too_short : Option ℕ → Bool
too_short none = false
too_short (some most) = ltb most 2

unfoldable pub validate_options : CycleEnumerationOptions → List OptionError
validate_options o =
    (if requires_time_window o.mode then window_errors o.time_window else [])
    ++ (note_if (not_positive o.time_window) window_positive_when_provided
        ++ (note_if (too_short o.max_cycle_length) length_at_least_two
            ++ (note_if (not (ltb_ℤ (pos 0) o.openmp_threads)) threads_positive
                ++ (note_if (ltb_ℤ o.cuda_device_id (pos 0)) device_non_negative
                    ++ note_if (o.use_cycle_union && not (is_temporal o.mode))
                        union_only_temporal))))

-- What is asked of a window that is given, and of a window that is required.
abbrev pub FitsTimeWindow : CycleMode → Option ℤ → Type 0
FitsTimeWindow simple none = Unit {0}
FitsTimeWindow simple_time_window none = ⊥
FitsTimeWindow temporal none = ⊥
FitsTimeWindow mode (some w) = pos 0 <ℤ w

abbrev pub FitsMaxLength : Option ℕ → Type 0
FitsMaxLength none = Unit {0}
FitsMaxLength (some most) = 2 ≤ most

-- The options that are accepted.
pub record IsAccepted (o : CycleEnumerationOptions) : Type 0 where
  pub window : FitsTimeWindow o.mode o.time_window
  pub limit : FitsMaxLength o.max_cycle_length
  pub threads : pos 0 <ℤ o.openmp_threads
  pub device : pos 0 ≤ℤ o.cuda_device_id
  pub union : o.use_cycle_union ≡ true → o.mode ≡ temporal

both_empty : (xs ys : List OptionError) → (xs ++ ys ≡ []) → (xs ≡ []) × (ys ≡ [])
both_empty [] ys e = (refl, e)
both_empty (x ∷ xs) ys e = absurd (cc e)

not_noted : (b : Bool) (x : OptionError) → note_if b x ≡ [] → b ≡ false
not_noted true x e = absurd (cc e)
not_noted false x e = refl

window_fits :
    (mode : CycleMode) (w : Option ℤ)
    → (if requires_time_window mode then window_errors w else []) ≡ []
    → not_positive w ≡ false
    → FitsTimeWindow mode w
window_fits simple none e p = tt
window_fits simple_time_window none e p = absurd (cc e)
window_fits temporal none e p = absurd (cc e)
window_fits simple (some w) e p = ground (arith, p)
window_fits simple_time_window (some w) e p = ground (arith, p)
window_fits temporal (some w) e p = ground (arith, p)

window_passes :
    (mode : CycleMode) (w : Option ℤ)
    → FitsTimeWindow mode w
    → ((if requires_time_window mode then window_errors w else []) ≡ []) × (not_positive w ≡ false)
window_passes simple none f = (refl, refl)
window_passes simple_time_window none f = absurd f
window_passes temporal none f = absurd f
window_passes simple (some w) f = (refl, ground arith)
window_passes simple_time_window (some w) f = (ground arith, ground arith)
window_passes temporal (some w) f = (ground arith, ground arith)

limit_fits : (limit : Option ℕ) → too_short limit ≡ false → FitsMaxLength limit
limit_fits none e = tt
limit_fits (some most) e = ground (arith, e)

limit_passes : (limit : Option ℕ) → FitsMaxLength limit → too_short limit ≡ false
limit_passes none f = refl
limit_passes (some most) f = ground arith

union_fits :
    (union : Bool) (mode : CycleMode)
    → (union && not (is_temporal mode)) ≡ false
    → union ≡ true
    → mode ≡ temporal
union_fits true simple e u = absurd (cc e)
union_fits true simple_time_window e u = absurd (cc e)
union_fits true temporal e u = refl
union_fits false mode e u = absurd (cc u)

union_passes :
    (union : Bool) (mode : CycleMode)
    → (union ≡ true → mode ≡ temporal)
    → (union && not (is_temporal mode)) ≡ false
union_passes true mode f = let e : mode ≡ temporal = f refl in rw e refl
union_passes false mode f = refl

-- Validation reports nothing exactly if the window is positive where it is given and given where the
-- mode requires it, the limit is at least 2 where it is given, there is a thread, the device is not
-- negative, and the cycle union is used in temporal mode only.
pub validate_options_iff : (o : CycleEnumerationOptions) → (validate_options o ≡ []) ↔ IsAccepted o
unfolding validate_options
validate_options_iff o = (accepted, passes)
  where
    accepted : validate_options o ≡ [] → IsAccepted o
    accepted e =
        let (w, e1) =
          both_empty (if requires_time_window o.mode then window_errors o.time_window else []) _
            e in
        let (p, e2) =
          both_empty (note_if (not_positive o.time_window) window_positive_when_provided) _ e1 in
        let (l, e3) =
          both_empty (note_if (too_short o.max_cycle_length) length_at_least_two) _ e2 in
        let (t, e4) =
          both_empty (note_if (not (ltb_ℤ (pos 0) o.openmp_threads)) threads_positive) _ e3 in
        let (d, u) =
          both_empty (note_if (ltb_ℤ o.cuda_device_id (pos 0)) device_non_negative) _ e4 in
        let threads' = not_noted (not (ltb_ℤ (pos 0) o.openmp_threads)) threads_positive t in
        let device' = not_noted (ltb_ℤ o.cuda_device_id (pos 0)) device_non_negative d in
        record {
          window =
              window_fits o.mode o.time_window w
                (not_noted (not_positive o.time_window) window_positive_when_provided p);
          limit =
              limit_fits o.max_cycle_length
                (not_noted (too_short o.max_cycle_length) length_at_least_two l);
          threads = ground (arith, threads');
          device = ground (arith, device');
          union =
              union_fits o.use_cycle_union o.mode
                (not_noted (o.use_cycle_union && not (is_temporal o.mode)) union_only_temporal u);
        }

    passes : IsAccepted o → validate_options o ≡ []
    passes a =
        let (w, p) = window_passes o.mode o.time_window a.window in
        let threads' : ltb_ℤ (pos 0) o.openmp_threads ≡ true = ground (arith, a.threads) in
        let device' : ltb_ℤ o.cuda_device_id (pos 0) ≡ false = ground (arith, a.device) in
        rw
          (
            w,
            p,
            limit_passes o.max_cycle_length a.limit,
            threads',
            device',
            union_passes o.use_cycle_union o.mode a.union,
          )
          refl
