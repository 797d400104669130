-- ===== src/Examples/Runs.antt =====
-- The options that a run takes, at concrete inputs.
use cycle_enumeration_gpu.Prelude.{◌≡◌, ◌↔◌, []}
use cycle_enumeration_gpu.Core.Options.{
  default_options, validate_options, IsAccepted, validate_options_iff,
}

validate_options_example : (validate_options default_options ≡ []) ↔ IsAccepted default_options
validate_options_example = validate_options_iff default_options
